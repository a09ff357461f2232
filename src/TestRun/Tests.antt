-- ===== src/TestRun/Tests.antt =====
-- A test with three cases, of which the second fails.
use usfstl.Base.{
  ℕ, Option, List, ◌++◌, ◌≡◌, refl, arith, Bool, true, false, none, some, [], ◌∷◌, ◌==◌,
  if◌then◌else◌, ok, Returns,
}
use usfstl.TestRun.{
  Status, assertion_failed, TestCase, table, UnitTest, Surroundings, execute_test, execute_selected,
  select_case, run_body, verdict, count_case, run_cases,
}
use usfstl.TestRun.Watched.{IsEnd, IsWatched}
use usfstl.TestRun.Counts.{IsJudged, run_cases-IsJudged}

abbrev plain : TestCase
plain = record { negative_data = false; failing = false }

-- The state is the log, and the second case fails.
abbrev demo : UnitTest (List ℕ)
demo = record {
  cases = table (plain ∷ plain ∷ plain ∷ []);
  test_negative_data = false;
  test_failing = false;
  pre = none;
  fn = λ s num. (s ++ num ∷ [], if num == 1 then some assertion_failed else none);
  post = none;
}

abbrev around : Surroundings (List ℕ)
around = record {
  restore_globals = λ s. s;
  start_test = λ s. (s, none);
  end_test = λ s status. s;
  cleanup = λ s. s;
  skip_known_failing = false;
  abort_on_error = false;
}

abbrev demo_result : ℕ → Option Status
demo_result num = if num == 1 then some assertion_failed else none

is_end : (b : Bool) → IsEnd (if b then some assertion_failed else none)
is_end true = tt
is_end false = tt

demo-IsWatched : IsWatched around demo demo_result (λ s. s)
demo-IsWatched = record {
  starts = λ s. (refl, refl);
  prepares = λ f num s e. let no : none ≡ some f = e in cc;
  runs = λ num s. (refl, refl);
  posts = λ f num s status e. let no : none ≡ some f = e in cc;
  restores = λ s. refl;
  stops = λ s status. refl;
  cleans = λ s. refl;
  ends = λ num. is_end (num == 1);
}

run_cases-IsJudged_example :
    Returns
      (run_cases around 4 demo 0 []
        (record { tc_succeeded = 0; tc_failed = 0; tc_failing_succeeded = 0; ret = 0 }))
      (λ r. (r.0 ≡ 0 ∷ 1 ∷ 2 ∷ []) × IsJudged r.1 2 1 × (r.2 ≡ 3))
run_cases-IsJudged_example =
    run_cases-IsJudged around demo demo_result (λ s. s) demo-IsWatched refl
      (plain ∷ plain ∷ plain ∷ []) (omega arith) refl refl 4 [] (refl, (refl, (refl, tt)))
      (omega arith)

demo_run :
    run_cases around 4 demo 0 []
      (record { tc_succeeded = 0; tc_failed = 0; tc_failing_succeeded = 0; ret = 0 })
    ≡ ok (
      0 ∷ 1 ∷ 2 ∷ [],
      record { tc_succeeded = 2; tc_failed = 1; tc_failing_succeeded = 0; ret = 1 },
      3,
    )
unfolding run_cases execute_test execute_selected select_case run_body verdict count_case
demo_run = refl
