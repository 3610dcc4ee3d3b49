-- ===== src/Countdown/Tests.antt =====
-- Runs of countdown.c, and the theorems there.
use unix_linux_prog_in_c_src.Base.{◌≡◌, refl, true, false, List, [], ◌∷◌, ◌++◌, run}
use unix_linux_prog_in_c_src.Countdown.{reading, ended, start, Event, main_runs, child_runs, step}
use unix_linux_prog_in_c_src.Countdown.End.{countdown_ends}

-- The second fork fails.
abbrev forks : List Event
forks = main_runs true ∷ main_runs false ∷ main_runs true ∷ main_runs true ∷ main_runs true ∷ []

abbrev exits : List Event
exits = child_runs 0 ∷ child_runs 2 ∷ child_runs 0 ∷ main_runs true ∷ child_runs 2 ∷ []

countdown_result :
    ((run step (forks ++ exits) start).pc ≡ reading)
    × ((run step (forks ++ exits ++ main_runs true ∷ []) start).pc ≡ ended)
unfolding run step start
countdown_result = (refl, refl)

countdown_ends_example : (fs : List Event) × ((run step fs (run step forks start)).pc ≡ ended)
countdown_ends_example = countdown_ends forks
