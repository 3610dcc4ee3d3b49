-- ===== src/MutexTypes/Tests.antt =====
-- Runs of not-my-lock.c, and the theorems there.
use unix_linux_prog_in_c_src.Base.{◌≡◌, refl, none, some, List, [], ◌∷◌, ◌++◌, run}
use unix_linux_prog_in_c_src.MutexTypes.{
  plain, recursive, errorcheck, opt_n, opt_r, opt_e, opt_h, configure, Answer, ok, eperm, edeadlk,
  ended, start, main_step, thread_step, Event, main_runs, thread_runs, step,
}
use unix_linux_prog_in_c_src.MutexTypes.Answers.{reports_completed}

-- The other thread comes before `main` has taken the mutex.
abbrev to_end : List Event
to_end = thread_runs ∷ main_runs ∷ main_runs ∷ main_runs ∷ main_runs ∷ main_runs ∷ []

not_my_lock_result :
    (configure plain (opt_r ∷ opt_e ∷ []) ≡ some errorcheck)
    × (configure plain (opt_n ∷ opt_h ∷ opt_e ∷ []) ≡ none)
    × ((run (step errorcheck) to_end start).reports ≡ eperm ∷ eperm ∷ edeadlk ∷ [])
    × ((run (step recursive) to_end start).reports ≡ eperm ∷ eperm ∷ ok ∷ [])
unfolding configure run step main_step thread_step start
not_my_lock_result = (refl, refl, refl, refl)

reports_completed_example :
    let s = run (step recursive) (thread_runs ∷ main_runs ∷ []) start in
    ((more : List Answer) × (s.reports ++ more ≡ eperm ∷ eperm ∷ ok ∷ []))
    × ((fs : List Event) × ((run (step recursive) fs s).main_pc ≡ ended)
        × ((run (step recursive) fs s).reports ≡ eperm ∷ eperm ∷ ok ∷ []))
reports_completed_example = reports_completed recursive (thread_runs ∷ main_runs ∷ []) refl
