-- ===== src/Waiting/Tests.antt =====
-- Runs of wait.c, and the theorems there.
use unix_linux_prog_in_c_src.Base.{◌≡◌, ◌⊎◌, refl, List, [], ◌∷◌, ◌++◌, run}
use unix_linux_prog_in_c_src.Waiting.{
  Report, exited, signaled, was_stopped, was_continued, gone, waiting, ended, start, Event,
  parent_runs, stop, continue, kill, runs_out, stop_child, continue_child, kill_child, end_child,
  parent_step, step,
}
use unix_linux_prog_in_c_src.Waiting.Reports.{Told, Live, reports_in_order}

-- The child is stopped and continued before the parent looks, then stopped and killed.
abbrev to_kill : List Event
to_kill = stop ∷ continue ∷ parent_runs ∷ stop ∷ parent_runs ∷ runs_out 0 ∷ kill 9 ∷ []

wait_result :
    ((run step (to_kill ++ parent_runs ∷ []) start).printed
      ≡ signaled 9 ∷ was_stopped ∷ was_continued ∷ [])
    × ((run step to_kill start).parent_pc ≡ waiting)
    × ((run step (runs_out 0 ∷ parent_runs ∷ []) start).printed ≡ exited 0 ∷ [])
unfolding run step stop_child continue_child kill_child end_child parent_step start
wait_result = (refl, refl, refl)

reports_in_order_example :
    let s = run step to_kill start in
    let s' = step parent_runs s in
    Live s
    ⊎ ((how : Report) × (s.child ≡ gone how) × (s'.parent_pc ≡ ended) × Told (gone how) s'.printed)
reports_in_order_example = reports_in_order to_kill
