-- ===== src/TestRun/Watched.antt =====
-- src/testrun.c: how the execution of one case ends, and what it leaves behind.
use usfstl.Base.{
  ℕ, ◌≡◌, refl, ap, ◌∙◌, inl, inr, Bool, true, false, ◌||◌, Option, none, some, List, [], ◌∷◌, ◌++◌,
  not, Option-cases, Returns,
}
use usfstl.Sched.Quiet.{Returns-bind}
use usfstl.TestRun.{
  Status, success, assertion_failed, negative_test_no_error, watchdog_timeout, remote_success,
  negative_test_succeeded, out_of_cases, skipped, abort_twice, TestCase, UnitTest, Surroundings,
  Runner, then_run, run_post, run_body, verdict, execute_selected, is_success, has_negative,
}

-- How a body may end: it returns, or it jumps with one of the statuses that the program uses.
abbrev pub IsEnd : Option Status → Type 0
IsEnd none = Unit {0}
IsEnd (some assertion_failed) = Unit {0}
IsEnd (some watchdog_timeout) = Unit {0}
IsEnd (some remote_success) = Unit {0}
IsEnd (some negative_test_succeeded) = Unit {0}
IsEnd (some abort_twice) = Unit {0}
IsEnd (some _) = ⊥

-- What a case can be reported as.
abbrev pub IsReport : Status → Type 0
IsReport out_of_cases = ⊥
IsReport skipped = ⊥
IsReport remote_success = ⊥
IsReport negative_test_succeeded = ⊥
IsReport _ = Unit {0}

-- A case passes if its body returns, and has no negative data, or if it jumps with one of the two
-- statuses that mean success.
abbrev pub passes : Bool → Option Status → Bool
passes negative none = not negative
passes negative (some remote_success) = true
passes negative (some negative_test_succeeded) = true
passes negative (some _) = false

module _ {S : Type 0} (around : Surroundings S) where
  verdict-IsReport :
      (negative : Bool) (end : Option Status)
      → around.abort_on_error ≡ false
      → IsEnd end
      → Returns
          (verdict around negative end)
          (λ r. IsReport r × (is_success r ≡ passes negative end))
  unfolding verdict
  verdict-IsReport true none a h = rw a (tt, refl)
  verdict-IsReport false none a h = (tt, refl)
  verdict-IsReport negative (some success) a h = absurd h
  verdict-IsReport negative (some assertion_failed) a h = (tt, refl)
  verdict-IsReport negative (some negative_test_no_error) a h = absurd h
  verdict-IsReport negative (some watchdog_timeout) a h = (tt, refl)
  verdict-IsReport negative (some remote_success) a h = (tt, refl)
  verdict-IsReport negative (some negative_test_succeeded) a h = (tt, refl)
  verdict-IsReport negative (some out_of_cases) a h = absurd h
  verdict-IsReport negative (some skipped) a h = absurd h
  verdict-IsReport negative (some abort_twice) a h = (tt, refl)

  -- The function of the test ends as `result` says, with one of the statuses that the program uses, and
  -- notes its number in `log`. What comes before it returns, and only the function writes the log.
  pub record IsWatched (t : UnitTest S) (result : ℕ → Option Status) (log : S → List ℕ)
      : Type 0 where
    pub starts : (s : S) → ((around.start_test s).1 ≡ none) × (log (around.start_test s).0 ≡ log s)
    pub prepares :
        (f : S → ℕ → S × Option Status) (num : ℕ) (s : S)
        → t.pre ≡ some f
        → ((f s num).1 ≡ none) × (log (f s num).0 ≡ log s)
    pub runs :
        (num : ℕ) (s : S) → ((t.fn s num).1 ≡ result num) × (log (t.fn s num).0 ≡ log s ++ num ∷ [])
    pub posts :
        (f : S → ℕ → Status → S) (num : ℕ) (s : S) (status : Status)
        → t.post ≡ some f
        → log (f s num status) ≡ log s
    pub restores : (s : S) → log (around.restore_globals s) ≡ log s
    pub stops : (s : S) (status : Status) → log (around.end_test s status) ≡ log s
    pub cleans : (s : S) → log (around.cleanup s) ≡ log s
    pub ends : (num : ℕ) → IsEnd (result num)

module _ {S : Type 0} (around : Surroundings S) (t : UnitTest S) (result : ℕ → Option Status)
    (log : S → List ℕ) (watched : IsWatched around t result log)
    (a : around.abort_on_error ≡ false) where
  -- One part after another, of which the first returns.
  then_run-returns :
      (r : S × Option Status) (next : S → S × Option Status) (s : S) (num : ℕ)
      → (r.1 ≡ none) × (log r.0 ≡ log s)
      → ((u : S) → log u ≡ log s → ((next u).1 ≡ result num) × (log (next u).0 ≡ log s ++ num ∷ []))
      → ((then_run r next).1 ≡ result num) × (log (then_run r next).0 ≡ log s ++ num ∷ [])
  then_run-returns (u, none) next s num h f = f u h.1
  then_run-returns (u, some status) next s num h f = let no : some status ≡ none = h.0 in cc

  fn_lem :
      (num : ℕ) (s u : S)
      → log u ≡ log s
      → ((t.fn u num).1 ≡ result num) × (log (t.fn u num).0 ≡ log s ++ num ∷ [])
  fn_lem num s u e = let r = watched.runs num u in (r.0, r.1 ∙ ap (λ xs. xs ++ num ∷ []) e)

  pre_lem :
      (num : ℕ) (s u : S)
      → log u ≡ log s
      → let r =
          then_run
            (elim t.pre as (λ _. S × Option Status) [ none ↦ (u, none) | some f ↦ f u num ])
            (λ v. t.fn v num) in
        (r.1 ≡ result num) × (log r.0 ≡ log s ++ num ∷ [])
  pre_lem num s u e = elim (Option-cases t.pre) [
    | inl n ↦ rw n (fn_lem num s u e)
    | inr (f, n) ↦
        let r = watched.prepares f num u n in
        rw n (then_run-returns (f u num) (λ v. t.fn v num) s num (r.0, r.1 ∙ e) (fn_lem num s))
  ]

  run_body_lem :
      (num : ℕ) (s : S)
      → ((run_body around t num s).1 ≡ result num)
        × (log (run_body around t num s).0 ≡ log s ++ num ∷ [])
  unfolding run_body
  run_body_lem num s =
      then_run-returns (around.start_test s) _ s num (watched.starts s) (pre_lem num s)

  run_post_lem : (s : S) (num : ℕ) (status : Status) → log (run_post around t s num status) ≡ log s
  run_post_lem s num status = elim (Option-cases t.post) [
    | inl n ↦ rw n refl
    | inr (f, n) ↦ rw n (post_lem f n status)
  ]
    where
      post_lem :
          (f : S → ℕ → Status → S)
          → t.post ≡ some f
          → (st : Status)
          → log (elim st as (λ _. S) [ abort_twice ↦ s | other ↦ f s num other ]) ≡ log s
      post_lem f n success = watched.posts f num s _ n
      post_lem f n assertion_failed = watched.posts f num s _ n
      post_lem f n negative_test_no_error = watched.posts f num s _ n
      post_lem f n watchdog_timeout = watched.posts f num s _ n
      post_lem f n remote_success = watched.posts f num s _ n
      post_lem f n negative_test_succeeded = watched.posts f num s _ n
      post_lem f n out_of_cases = watched.posts f num s _ n
      post_lem f n skipped = watched.posts f num s _ n
      post_lem f n abort_twice = refl

  -- A case was executed: what it is reported as, and the log.
  abbrev pub Executed : ℕ → TestCase → S → Runner S × Status → Type 0
  Executed num c s r =
      IsReport r.1
      × (is_success r.1 ≡ passes (t.test_negative_data || c.negative_data) (result num))
      × (r.0.current_testcase ≡ some c)
      × (log r.0.program ≡ log s ++ num ∷ [])

  verdict_body :
      (num : ℕ) (c : TestCase) (s : S)
      → Returns
          (verdict around (t.test_negative_data || c.negative_data) (run_body around t num s).1)
          (λ r.
            IsReport r
            × (is_success r ≡ passes (t.test_negative_data || c.negative_data) (result num)))
  verdict_body num c s = rw ((run_body_lem num s).0) (
      verdict-IsReport around (t.test_negative_data || c.negative_data) (result num) a
        (watched.ends num))

  pub execute_selected-Executed :
      (num : ℕ) (c : TestCase) (s : S)
      → Returns (execute_selected around t num (some c) s) (Executed num c s)
  unfolding execute_selected
  execute_selected-Executed num c s =
      let b = run_body_lem num s in
      Returns-bind
        (verdict around (t.test_negative_data || has_negative (some c)) (run_body around t num s).1)
        _ _ _ (verdict_body num c s)
        (λ status k. (
          k.0,
          k.1,
          refl,
          watched.cleans _ ∙ (watched.stops _ status ∙ (run_post_lem _ num status ∙ b.1)),
        ))
