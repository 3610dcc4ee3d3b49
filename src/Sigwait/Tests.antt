-- ===== src/Sigwait/Tests.antt =====
-- Runs of sigwait.c, and the theorems there.
use unix_linux_prog_in_c_src.Base.{◌≡◌, ◌≢◌, ◌⊎◌, refl, arith, none, some, List, [], ◌∷◌, ◌++◌, run}
use unix_linux_prog_in_c_src.Sigwait.{
  done, failed, awaiting, killed, start, parent_step, child_step, Event, parent_runs, child_runs,
  step,
}
use unix_linux_prog_in_c_src.Sigwait.End.{sigwait_ends}

-- The parent reads "a", and sends its signal.
abbrev sends : List Event
sends = parent_runs (some 97) ∷ parent_runs none ∷ parent_runs none ∷ []

abbrev handover : List Event
handover = child_runs ∷ sends ++ child_runs ∷ child_runs ∷ parent_runs none ∷ []

-- A handover; a signal before the child has masked it; a read() that fails.
sigwait_result :
    ((run step handover start).printed ≡ some 97)
    × ((run step handover start).parent_pc ≡ done)
    × ((run step sends start).child_pc ≡ killed)
    × ((run step (child_runs ∷ parent_runs none ∷ child_runs ∷ []) start).child_pc ≡ awaiting)
unfolding run step parent_step child_step start
sigwait_result = (refl, refl, refl, refl)

-- The child has masked the signal before.
abbrev masked : List Event
masked = child_runs ∷ sends

sigwait_ends_example :
    (fs : List Event) × let s = run step fs (run step masked start) in
      (s.parent_pc ≡ done) × ((s.printed ≡ some s.c) ⊎ ((run step masked start).child_pc ≡ killed))
unfolding run step parent_step child_step start
sigwait_ends_example =
    let alive : (run step masked start).parent_pc ≢ failed = λ t. ground (arith, t) in
    sigwait_ends masked alive
