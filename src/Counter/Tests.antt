-- ===== src/Counter/Tests.antt =====
-- Runs of atomic-add.c, and the theorems there.
use unix_linux_prog_in_c_src.Base.{
  ◌*◌, ◌%◌, ◌^◌, ◌≤◌, ◌≡◌, none, some, List, [], ◌∷◌, ◌++◌, refl, arith, run, replicate, length,
}
use unix_linux_prog_in_c_src.Counter.{
  mutexed, configure, finished, Event, first, second, start, step, expected, verdict, everything_ok,
}
use unix_linux_prog_in_c_src.Counter.Sum.{sum_below}
use unix_linux_prog_in_c_src.Counter.Protected.{protected_exact}
use unix_linux_prog_in_c_src.Counter.Termination.{total_work, protected_finishes}

-- The second thread comes to the mutex while the first one has it.
abbrev contended : List Event
contended = replicate 3 first ++ replicate 3 second ++ replicate 20 first ++ replicate 20 second

expected_4 : expected 4 ≡ 12
unfolding expected
expected_4 = refl

contended_result :
    let s = run (step mutexed 4) contended start in
    (s.x ≡ 12) × (s.t1 ≡ finished) × (s.t2 ≡ finished)
unfolding run step start
contended_result = (refl, refl, refl)

configure_result :
    (configure (b'm' ∷ []) 1 ≡ some mutexed)
    × (configure (b'm' ∷ b'a' ∷ []) 1 ≡ none)
    × (configure (b'h' ∷ []) 1 ≡ none)
    × (configure [] 2 ≡ none)
unfolding configure
configure_result = (refl, refl, refl, refl)

protected_exact_example :
    let s = run (step mutexed 4) contended start in
    (s.x ≡ 2 * sum_below 4 % 2 ^ 32) × (verdict s.x 4 ≡ everything_ok)
protected_exact_example =
    protected_exact mutexed 4 contended (λ e. cc) (omega arith) (unfold run step start in refl)
      (unfold run step start in refl)

protected_finishes_example :
    (fs : List Event) × (length fs ≤ total_work 4 (run (step mutexed 4) (replicate 7 first) start))
    × ((run (step mutexed 4) (replicate 7 first ++ fs) start).t1 ≡ finished)
    × ((run (step mutexed 4) (replicate 7 first ++ fs) start).t2 ≡ finished)
protected_finishes_example =
    protected_finishes mutexed 4 (replicate 7 first) (λ e. cc) (omega arith)
