-- ===== src/Alarm/Tests.antt =====
-- Runs of alarm.c, and the theorems there.
use unix_linux_prog_in_c_src.Base.{◌≡◌, ◌⊎◌, true, refl, List, [], ◌∷◌, All, run, replicate, ◌++◌}
use unix_linux_prog_in_c_src.Alarm.{
  calling, reading, ended, start, main_step, Event, main_runs, time_is_up, input_comes, step,
}
use unix_linux_prog_in_c_src.Alarm.Timeout.{NoInput, time_limit, late_read_waits}

abbrev typed : List Event
typed = main_runs ∷ main_runs ∷ input_comes 7 ∷ replicate 3 main_runs

abbrev timed_out : List Event
timed_out = main_runs ∷ main_runs ∷ time_is_up ∷ replicate 2 main_runs

alarm_result :
    ((run step typed start).printed ≡ 7)
    × ((run step (typed ++ time_is_up ∷ []) start).messages ≡ 0)
    × ((run step timed_out start).pc ≡ ended)
    × ((run step timed_out start).messages ≡ 1)
unfolding run step main_step start
alarm_result = (refl, refl, refl, refl)

late_read_waits_result :
    (run step
      (main_runs ∷ main_runs ∷ [])
      (run step (main_runs ∷ time_is_up ∷ main_runs ∷ []) start)).pc
    ≡ reading
late_read_waits_result = late_read_waits (main_runs ∷ main_runs ∷ []) (tt, (tt, tt))

time_limit_example :
    let s = run step (main_runs ∷ main_runs ∷ []) start in
    ((s.fired ≡ true) × ((s.pc ≡ calling) ⊎ (s.pc ≡ reading)))
    ⊎ ((fs : List Event) × All NoInput fs × ((run step fs s).pc ≡ ended))
time_limit_example = time_limit (main_runs ∷ main_runs ∷ [])
