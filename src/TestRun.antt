-- ===== src/TestRun.antt =====
-- src/testrun.c and src/main.c: the execution of one test case, and the loop over the cases of a test
-- with its counters.
pub mod Watched
pub mod Counts
mod Tests
use usfstl.Base.{
  ℕ, zero, suc, ◌+◌, Bool, true, false, ◌&&◌, ◌||◌, not, Option, none, some, List, [], ◌∷◌,
  get_elem?, ltb, if◌then◌else◌, Result, ok, abort, ◌>>=◌,
}

-- enum usfstl_testcase_status
pub data Status : Type 0 where
  success assertion_failed negative_test_no_error watchdog_timeout remote_success : Status
  negative_test_succeeded out_of_cases skipped abort_twice : Status

-- struct usfstl_testcase: whether there is negative_data, and whether it is known to fail.
pub record TestCase : Type 0 where
  pub negative_data : Bool
  pub failing : Bool

-- Where the cases of a test come from: g_usfstl_multi_controlled_test has none of its own, a generator
-- gives them (with or without a struct usfstl_testcase inside), a table has them, or there is one. A table without a
-- case is as good as none.
pub data Cases : Type 0 where
  controlled single : Cases
  generated : (ℕ → Option TestCase) → Bool → Cases
  table : List TestCase → Cases

-- What a test does to the state `S` of the program: `none` if it returns, and the status if it comes
-- back by longjmp.
pub record UnitTest (S : Type 0) : Type 0 where
  pub cases : Cases
  pub test_negative_data : Bool
  pub test_failing : Bool
  pub pre : Option (S → ℕ → S × Option Status)
  pub fn : S → ℕ → S × Option Status
  pub post : Option (S → ℕ → Status → S)

-- The rest of the program: usfstl_restore_globals, usfstl_multi_start_test, usfstl_multi_end_test, and
-- the functions that clean up after it.
pub record Surroundings (S : Type 0) : Type 0 where
  pub restore_globals : S → S
  pub start_test : S → S × Option Status
  pub end_test : S → Status → S
  pub cleanup : S → S
  pub skip_known_failing : Bool
  pub abort_on_error : Bool

-- g_usfstl_current_case_num (-1 is `none`) and g_usfstl_current_testcase.
pub record Runner (S : Type 0) : Type 0 where
  pub current_case_num : Option ℕ
  pub current_testcase : Option TestCase
  pub program : S

pub data Selected : Type 0 where
  no_case : Selected
  skipped_case selected_case : Option TestCase → Selected

-- A case with its struct is left out if it is known to fail and such cases are to be skipped.
abbrev pub select_known : Bool → TestCase → Selected
select_known skip c = if skip && c.failing then skipped_case (some c) else selected_case (some c)

unfoldable pub select_case : Bool → Cases → ℕ → Selected
select_case skip controlled num = selected_case none
select_case skip (generated f has_generic) num = elim (f num) [
  | none ↦ no_case
  | some c ↦ if has_generic then select_known skip c else selected_case none
]
select_case skip (table (c ∷ cs)) num = elim (get_elem? (c ∷ cs) num) [
  | none ↦ no_case
  | some d ↦ select_known skip d
]
select_case skip (table []) num = if ltb 0 num then no_case else selected_case none
select_case skip single num = if ltb 0 num then no_case else selected_case none

-- One part of a test after another, until there is a jump.
abbrev pub then_run {ℓ} :
    {S : Type ℓ} → S × Option Status → (S → S × Option Status) → S × Option Status
then_run (s, some status) next = (s, some status)
then_run (s, none) next = next s

abbrev pub has_negative : Option TestCase → Bool
has_negative none = false
has_negative (some c) = c.negative_data

abbrev pub is_failing : Option TestCase → Bool
is_failing none = false
is_failing (some c) = c.failing

-- After a test: no case is current, but its struct is still known.
abbrev pub finished : {S : Type 0} → Option TestCase → S → Runner S
finished c s = record { current_case_num = none; current_testcase = c; program = s }

-- The counters of main for one test, and its exit code.
pub record Totals : Type 0 where
  pub tc_succeeded : ℕ
  pub tc_failed : ℕ
  pub tc_failing_succeeded : ℕ
  pub ret : ℕ

abbrev pub is_success : Status → Bool
is_success success = true
is_success _ = false

unfoldable pub count_case : Bool → Status → Totals → Totals
count_case failing status n =
    if is_success status
    then (if failing
        then record n { tc_failing_succeeded = n.tc_failing_succeeded + 1; ret = 1 }
        else record n { tc_succeeded = n.tc_succeeded + 1 })
    else (if failing
        then record n { tc_failed = n.tc_failed + 1 }
        else record n { tc_failed = n.tc_failed + 1; ret = 1 })

module _ {S : Type 0} (around : Surroundings S) where
  unfoldable pub run_body : UnitTest S → ℕ → S → S × Option Status
  run_body t num s =
      then_run (around.start_test s)
        (λ u. then_run (elim t.pre [ none ↦ (u, none) | some f ↦ f u num ]) (λ v. t.fn v num))

  -- The switch on the result of setjmp.
  unfoldable pub verdict : Bool → Option Status → Result Status
  verdict negative none =
      if negative
      then (if around.abort_on_error then abort "abort" else ok negative_test_no_error)
      else ok success
  verdict negative (some remote_success) = ok success
  verdict negative (some negative_test_succeeded) = ok success
  verdict negative (some watchdog_timeout) = ok watchdog_timeout
  verdict negative (some abort_twice) = ok abort_twice
  verdict negative (some assertion_failed) = ok assertion_failed
  verdict negative (some status) = abort "test run ended with bad status"

  abbrev pub run_post : UnitTest S → S → ℕ → Status → S
  run_post t s num status = elim t.post [
    | none ↦ s
    | some f ↦ elim status [ abort_twice ↦ s | other ↦ f s num other ]
  ]

  unfoldable pub execute_selected :
      UnitTest S → ℕ → Option TestCase → S → Result (Runner S × Status)
  execute_selected t num c s =
      let r = run_body t num s in
      do
        status ← verdict (t.test_negative_data || has_negative c) r.1
        ok (
          finished c (around.cleanup (around.end_test (run_post t r.0 num status) status)),
          status,
        )

  unfoldable pub execute_test : UnitTest S → ℕ → Bool → S → Result (Runner S × Status)
  execute_test t num execute s =
      let start = if execute then around.restore_globals s else s in
      elim (select_case around.skip_known_failing t.cases num) [
        | no_case ↦ ok (finished none start, out_of_cases)
        | skipped_case c ↦ ok (finished c start, skipped)
        | selected_case c ↦
            if execute then execute_selected t num c start else ok (finished c start, success)
      ]

  -- The loop over the cases from number `i` on, without an option that leaves cases out.
  unfoldable pub run_cases : ℕ → UnitTest S → ℕ → S → Totals → Result (S × Totals × ℕ)
  run_cases zero t i s n = abort "out of fuel"
  run_cases (suc fuel) t i s n = do
    r ← execute_test t i true s
    elim r.1 [
      | out_of_cases ↦ ok (r.0.program, n, i)
      | skipped ↦ run_cases fuel t (i + 1) r.0.program n
      | other ↦
          run_cases fuel t (i + 1) r.0.program
            (count_case (is_failing r.0.current_testcase || t.test_failing) other n)
    ]
