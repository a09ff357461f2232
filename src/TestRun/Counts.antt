-- ===== src/TestRun/Counts.antt =====
-- src/main.c: the loop over the cases of a test ends, and its counters and the exit code say what
-- happened.
use usfstl.Base.{
  ℕ, zero, suc, ◌+◌, ◌<◌, ◌≡◌, refl, ap, ◌∙◌, arith, Bool, true, false, ◌||◌, Option, none, some,
  List, [], ◌∷◌, ◌++◌, not, sym, length, get_elem?, All, ◌==◌, if◌then◌else◌, Result, ok, Returns,
}
use usfstl.Sched.Quiet.{Returns-bind, Returns-mono}
use mathlib.Core.List.{append-nil}
use usfstl.TestRun.{
  Status, success, assertion_failed, negative_test_no_error, watchdog_timeout, remote_success,
  negative_test_succeeded, out_of_cases, skipped, abort_twice, TestCase, table, UnitTest,
  Surroundings, Runner, Totals, Selected, selected_case, no_case, select_case, select_known,
  finished, execute_selected, execute_test, count_case, is_success, is_failing, run_cases,
}
use usfstl.TestRun.Watched.{IsReport, passes, IsWatched, execute_selected-Executed}

abbrev pub point : Bool → ℕ
point true = 1
point false = 0

-- The numbers of the cases from `i` on.
abbrev pub numbers : ℕ → List TestCase → List ℕ
numbers i [] = []
numbers i (c ∷ cs) = i ∷ numbers (i + 1) cs

-- How many of the cases from number `i` on pass, and how many do not, where the body of a case ends
-- as `result` says.
module _ (negative : Bool) (result : ℕ → Option Status) where
  abbrev pub passed : ℕ → List TestCase → ℕ
  passed i [] = 0
  passed i (c ∷ cs) = point (passes (negative || c.negative_data) (result i)) + passed (i + 1) cs

  abbrev pub not_passed : ℕ → List TestCase → ℕ
  not_passed i [] = 0
  not_passed i (c ∷ cs) =
      point (not (passes (negative || c.negative_data) (result i))) + not_passed (i + 1) cs

-- The counters after these numbers of cases. The exit code is 0 exactly if none has failed.
pub record IsJudged (n : Totals) (succeeded failed : ℕ) : Type 0 where
  pub good : n.tc_succeeded ≡ succeeded
  pub bad : n.tc_failed ≡ failed
  pub known : n.tc_failing_succeeded ≡ 0
  pub code : n.ret ≡ (if failed == 0 then 0 else 1)

successor : (n : ℕ) → (n + 1 == 0) ≡ false
successor n = ground arith

count_case-IsJudged :
    (status : Status) (n : Totals) (p f : ℕ) (b : Bool)
    → IsJudged n p f
    → is_success status ≡ b
    → IsJudged (count_case false status n) (p + point b) (f + point (not b))
unfolding count_case
count_case-IsJudged status n p f true j e =
    let z : f + 0 ≡ f = omega arith in
    rw (e, z) (record { good = rw j.good refl; bad = j.bad; known = j.known; code = j.code })
count_case-IsJudged status n p f false j e =
    let z : p + 0 ≡ p = omega arith in
    rw (e, z)
      (record { good = j.good; bad = rw j.bad refl; known = j.known; code = rw (successor f) refl })

either_false : (x y : Bool) → x ≡ false → y ≡ false → (x || y) ≡ false
either_false x y h k = ground arith

no_skip :
    (skip : Bool) (c : TestCase) → c.failing ≡ false → select_known skip c ≡ selected_case (some c)
no_skip true c f = rw f refl
no_skip false c f = refl

append_assoc : (xs ys zs : List ℕ) → (xs ++ ys) ++ zs ≡ xs ++ (ys ++ zs)
append_assoc [] ys zs = refl
append_assoc (x ∷ xs) ys zs = ap (◌∷◌ x) (append_assoc xs ys zs)

module _ {S : Type 0} (around : Surroundings S) (t : UnitTest S) (result : ℕ → Option Status)
    (log : S → List ℕ) (watched : IsWatched around t result log)
    (a : around.abort_on_error ≡ false) where
  module _ (cs : List TestCase) (some_case : 0 < length cs) (source : t.cases ≡ table cs)
      (mark : t.test_failing ≡ false) where
    first_table :
        (i : ℕ) (xs : List TestCase)
        → 0 < length xs
        → select_case around.skip_known_failing (table xs) i
          ≡ (elim (get_elem? xs i) as (λ _. Selected) [
            | none ↦ no_case
            | some c ↦ select_known around.skip_known_failing c
          ])
    unfolding select_case
    first_table i [] h = let no : ⊥ = omega arith in absurd no
    first_table i (x ∷ xs) h = refl

    select_lem :
        (i : ℕ)
        → select_case around.skip_known_failing t.cases i
          ≡ (elim (get_elem? cs i) as (λ _. Selected) [
            | none ↦ no_case
            | some c ↦ select_known around.skip_known_failing c
          ])
    select_lem i = rw source (first_table i cs some_case)

    last_case :
        (i : ℕ) (s : S)
        → get_elem? cs i ≡ none
        → execute_test around t i true s
          ≡ ok (finished none (around.restore_globals s), out_of_cases)
    unfolding execute_test
    last_case i s h =
        let chosen : select_case around.skip_known_failing t.cases i ≡ no_case =
          select_lem i ∙ rw h refl in
        rw (chosen, execute_test) refl

    one_case :
        (i : ℕ) (s : S) (c : TestCase)
        → get_elem? cs i ≡ some c
        → c.failing ≡ false
        → execute_test around t i true s
          ≡ execute_selected around t i (some c) (around.restore_globals s)
    unfolding execute_test
    one_case i s c h f =
        let chosen : select_case around.skip_known_failing t.cases i ≡ selected_case (some c) =
          select_lem i ∙ (rw h refl ∙ no_skip around.skip_known_failing c f) in
        rw (chosen, execute_test) refl

    -- What follows a case that is reported.
    counted :
        (fuel i : ℕ) (n : Totals) (r : Runner S) (status : Status) (P : S × Totals × ℕ → Type 0)
        → IsReport status
        → (is_failing r.current_testcase || t.test_failing) ≡ false
        → Returns (run_cases around fuel t (i + 1) r.program (count_case false status n)) P
        → Returns
            (elim status as (λ _. Result (S × Totals × ℕ)) [
              | out_of_cases ↦ ok (r.program, n, i)
              | skipped ↦ run_cases around fuel t (i + 1) r.program n
              | other ↦
                  run_cases around fuel t
                    (i + 1)
                    r.program
                    (count_case (is_failing r.current_testcase || t.test_failing) other n)
            ])
            P
    counted fuel i n r success P h q k = rw q k
    counted fuel i n r assertion_failed P h q k = rw q k
    counted fuel i n r negative_test_no_error P h q k = rw q k
    counted fuel i n r watchdog_timeout P h q k = rw q k
    counted fuel i n r remote_success P h q k = absurd h
    counted fuel i n r negative_test_succeeded P h q k = absurd h
    counted fuel i n r out_of_cases P h q k = absurd h
    counted fuel i n r skipped P h q k = absurd h
    counted fuel i n r abort_twice P h q k = rw q k

    -- The cases from number `i` on.
    abbrev FromHere : ℕ → List TestCase → Type 0
    FromHere i rest = (k : ℕ) → get_elem? cs (i + k) ≡ get_elem? rest k

    -- What is left behind by the cases from number `i` on.
    abbrev pub Judged : ℕ → List TestCase → S → ℕ → ℕ → S × Totals × ℕ → Type 0
    Judged i rest s p f r =
        (log r.0 ≡ log s ++ numbers i rest)
        × IsJudged r.1 (p + passed t.test_negative_data result i rest)
            (f + not_passed t.test_negative_data result i rest)
        × (r.2 ≡ i + length rest)

    after_case :
        (i : ℕ) (c : TestCase) (rest : List TestCase) (s u : S) (p f : ℕ) (r : S × Totals × ℕ)
        → log u ≡ log (around.restore_globals s) ++ i ∷ []
        → (let b = passes (t.test_negative_data || c.negative_data) (result i) in
            Judged (i + 1) rest u (p + point b) (f + point (not b)) r)
        → Judged i (c ∷ rest) s p f r
    after_case i c rest s u p f r l j =
        let b = passes (t.test_negative_data || c.negative_data) (result i) in
        let plus : (x y z : ℕ) → x + y + z ≡ x + (y + z) = λ x y z. omega arith in
        (
          j.0
              ∙ (ap (λ xs. xs ++ numbers (i + 1) rest)
                    (l ∙ ap (λ xs. xs ++ i ∷ []) (watched.restores s))
                  ∙ append_assoc (log s) (i ∷ []) (numbers (i + 1) rest)),
          rw
              (
                ← plus p (point b) (passed t.test_negative_data result (i + 1) rest),
                ← plus f (point (not b)) (not_passed t.test_negative_data result (i + 1) rest),
              )
              j.1,
          omega (arith, j.2),
        )

    run_cases_from :
        (fuel : ℕ) (rest : List TestCase) (i : ℕ) (s : S) (n : Totals) (p f : ℕ)
        → length rest < fuel
        → FromHere i rest
        → All (λ c. c.failing ≡ false) rest
        → IsJudged n p f
        → Returns (run_cases around fuel t i s n) (Judged i rest s p f)
    unfolding run_cases
    run_cases_from zero rest i s n p f l h free j = absurd (omega arith)
    run_cases_from (suc fuel) [] i s n p f l h free j =
        let z : (x : ℕ) → x + 0 ≡ x = λ x. omega arith in
        rw (last_case i s (ap (get_elem? cs) (sym (z i)) ∙ h 0))
          (watched.restores s ∙ sym (append-nil (log s)), rw (z p, z f) j, omega arith)
    run_cases_from (suc fuel) (c ∷ rest) i s n p f l h free j =
        let z : i + 0 ≡ i = omega arith in
        let next : FromHere (i + 1) rest =
          λ k. (let e : i + 1 + k ≡ i + suc k = omega arith in ap (get_elem? cs) e ∙ h (suc k)) in
        rw (one_case i s c (ap (get_elem? cs) (sym z) ∙ h 0) free.0) (
          Returns-bind (execute_selected around t i (some c) (around.restore_globals s)) _ _ _
            (execute_selected-Executed around t result log watched a i c (around.restore_globals s))
            (λ r q.
              counted fuel i n r.0 r.1 _ q.0 (either_false _ _ (ap is_failing q.2 ∙ free.0) mark) (
                Returns-mono (run_cases around fuel t (i + 1) r.0.program (count_case false r.1 n))
                  _ _
                  (run_cases_from fuel rest (i + 1) r.0.program (count_case false r.1 n) _ _
                    (omega arith) next free.1 (count_case-IsJudged r.1 n p f _ j q.1))
                  (λ u v. after_case i c rest s r.0.program p f u q.3 v))))

    -- The loop over a table of at least one case ends behind the last one, for fuel for one round more than there are
    -- cases: the function of the test has run for each number from 0 on, once and in order, the cases
    -- that pass and those that do not are counted as such, and the exit code stays 0 exactly if all pass.
    -- A case passes if its function returns and it has no negative data, or if the function jumps with a
    -- status that means success. No case is marked as failing, errors do not end the program, what comes
    -- before the function returns, and the function ends with a status that the program uses.
    pub run_cases-IsJudged :
        (fuel : ℕ) (s : S)
        → All (λ c. c.failing ≡ false) cs
        → length cs < fuel
        → Returns
            (run_cases around fuel t 0 s
              (record { tc_succeeded = 0; tc_failed = 0; tc_failing_succeeded = 0; ret = 0 }))
            (λ r.
              (log r.0 ≡ log s ++ numbers 0 cs)
              × IsJudged r.1
                  (passed t.test_negative_data result 0 cs)
                  (not_passed t.test_negative_data result 0 cs)
              × (r.2 ≡ length cs))
    run_cases-IsJudged fuel s free l =
        let z : (x : ℕ) → 0 + x ≡ x = λ x. omega arith in
        Returns-mono (run_cases around fuel t 0 s _) _ _
          (run_cases_from fuel cs 0 s _ 0 0 l (λ k. ap (get_elem? cs) (z k)) free
            (record { good = refl; bad = refl; known = refl; code = refl }))
          (λ u v. (
            v.0,
            rw⁻¹
                (
                  z (passed t.test_negative_data result 0 cs),
                  z (not_passed t.test_negative_data result 0 cs),
                )
                v.1,
            omega (arith, v.2),
          ))
