-- ===== src/UnnamedSem/Tests.antt =====
-- Runs of posix-unnamed-sem.c.
use unix_linux_prog_in_c_src.Base.{◌≡◌, List, [], ◌∷◌, ◌++◌, refl, run, replicate, true, false}
use unix_linux_prog_in_c_src.UnnamedSem.{
  exited, start, Event, usher_runs, main_runs, wait_fails, step,
}

-- The main thread has used up the five entries, is interrupted, and goes on with a sixth one.
abbrev alarm : List Event
alarm = main_runs ∷ main_runs ∷ wait_fails true ∷ usher_runs ∷ main_runs ∷ main_runs ∷ []

alarm_result :
    let s = run (step true) (replicate 8 main_runs ++ alarm) start in
    (s.dashes ≡ 6) × (s.interruptions ≡ 1) × (s.sem ≡ 0) × (s.posted ≡ 1)
unfolding run step start
alarm_result = (refl, refl, refl, refl)

alarm_ends :
    let s = run (step false) (replicate 8 main_runs ++ alarm) start in
    (s.dashes ≡ 5) × (s.pc ≡ exited)
unfolding run step start
alarm_ends = (refl, refl)

-- Another failure of sem_wait is taken for an entry.
error_enters :
    let s = run (step true) (replicate 10 main_runs ++ (wait_fails false ∷ main_runs ∷ [])) start in
    (s.dashes ≡ 6) × (s.posted ≡ 0)
unfolding run step start
error_enters = (refl, refl)
