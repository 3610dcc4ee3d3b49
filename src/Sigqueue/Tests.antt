-- ===== src/Sigqueue/Tests.antt =====
-- Runs of sigqueue.c, and the theorems there.
use unix_linux_prog_in_c_src.Base.{◌+◌, ◌≡◌, ◌⊎◌, refl, arith, List, [], ◌∷◌, ◌++◌, run}
use unix_linux_prog_in_c_src.Sigqueue.{
  killed, ended, start, Event, parent_runs, child_runs, step, parent_step, child_step,
}
use unix_linux_prog_in_c_src.Sigqueue.Status.{status_reached, Missed}

abbrev to_pause : List Event
to_pause = child_runs ∷ child_runs ∷ []

abbrev to_end : List Event
to_end = to_pause ++ parent_runs ∷ child_runs ∷ parent_runs ∷ []

-- The run of the comment of the program; 255 comes back as 0; the signal before the handler is set.
sigqueue_result :
    ((run (step 98 7) to_end start).parent_pc ≡ ended 99)
    × ((run (step 255 7) to_end start).parent_pc ≡ ended 0)
    × ((run (step 98 7) (parent_runs ∷ parent_runs ∷ []) start).parent_pc ≡ ended 7)
unfolding run step parent_step child_step start
sigqueue_result = (refl, refl, refl)

status_reached_example :
    let s = run (step 98 7) to_pause start in
    (s.child_pc ≡ killed)
    ⊎ (Missed s ⊎ ((fs : List Event) × ((run (step 98 7) fs s).parent_pc ≡ ended (98 + 1))))
status_reached_example = status_reached 98 7 to_pause (omega arith)
