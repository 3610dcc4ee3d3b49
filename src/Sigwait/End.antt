-- ===== src/Sigwait/End.antt =====
-- How the program sigwait.c ends.
use unix_linux_prog_in_c_src.Base.{
  ◌≡◌, ◌≢◌, ◌⊎◌, inl, inr, refl, ap, ◌∙◌, none, some, List, [], ◌∷◌, run,
}
use unix_linux_prog_in_c_src.Sigwait.{
  done, failed, killed, State, start, Event, parent_runs, child_runs, step,
}
use unix_linux_prog_in_c_src.Sigwait.Places.{
  Place, read_masking, read_awaiting, store_masking, store_awaiting, send_masking, send_awaiting,
  slain, slain_over, signalled, woken, told, over, fail_masking, fail_awaiting, next, at, reached,
  reached-at,
}

-- What leads to the end; a child that has not masked the signal yet does so first.
abbrev onward : Place → List Event
onward read_masking =
    child_runs
    ∷ parent_runs (some 0)
    ∷ parent_runs none
    ∷ parent_runs none
    ∷ child_runs
    ∷ child_runs
    ∷ parent_runs none
    ∷ []
onward read_awaiting =
    parent_runs (some 0)
    ∷ parent_runs none
    ∷ parent_runs none
    ∷ child_runs
    ∷ child_runs
    ∷ parent_runs none
    ∷ []
onward (store_masking ch) =
    child_runs
    ∷ parent_runs none
    ∷ parent_runs none
    ∷ child_runs
    ∷ child_runs
    ∷ parent_runs none
    ∷ []
onward (store_awaiting ch) =
    parent_runs none ∷ parent_runs none ∷ child_runs ∷ child_runs ∷ parent_runs none ∷ []
onward (send_masking ch) =
    child_runs ∷ parent_runs none ∷ child_runs ∷ child_runs ∷ parent_runs none ∷ []
onward (send_awaiting ch) = parent_runs none ∷ child_runs ∷ child_runs ∷ parent_runs none ∷ []
onward (slain ch) = parent_runs none ∷ []
onward (slain_over ch) = []
onward (signalled ch) = child_runs ∷ child_runs ∷ parent_runs none ∷ []
onward (woken ch) = child_runs ∷ parent_runs none ∷ []
onward (told ch) = parent_runs none ∷ []
onward (over ch) = []
onward fail_masking = []
onward fail_awaiting = []

onward-done :
    (p : Place)
    → (at p).parent_pc ≢ failed
    → let s = at (run next (onward p) p) in
      (s.parent_pc ≡ done) × ((s.printed ≡ some s.c) ⊎ ((at p).child_pc ≡ killed))
unfolding run next
onward-done read_masking h = (refl, inl refl)
onward-done read_awaiting h = (refl, inl refl)
onward-done (store_masking ch) h = (refl, inl refl)
onward-done (store_awaiting ch) h = (refl, inl refl)
onward-done (send_masking ch) h = (refl, inl refl)
onward-done (send_awaiting ch) h = (refl, inl refl)
onward-done (slain ch) h = (refl, inr refl)
onward-done (slain_over ch) h = (refl, inr refl)
onward-done (signalled ch) h = (refl, inl refl)
onward-done (woken ch) h = (refl, inl refl)
onward-done (told ch) h = (refl, inl refl)
onward-done (over ch) h = (refl, inl refl)
onward-done fail_masking h = absurd (h refl)
onward-done fail_awaiting h = absurd (h refl)

-- When, after some schedule, the read() of the parent has not failed, there is a way to go on by which
-- the parent ends; then the child has printed the character that the parent has read, unless the signal
-- has killed the child before.
pub sigwait_ends :
    (es : List Event)
    → (run step es start).parent_pc ≢ failed
    → (fs : List Event) × let s = run step fs (run step es start) in
        (s.parent_pc ≡ done) × ((s.printed ≡ some s.c) ⊎ ((run step es start).child_pc ≡ killed))
sigwait_ends es h =
    let p = run next es read_masking in
    let alive : (at p).parent_pc ≢ failed =
      λ t. h (ap (λ (s : State). s.parent_pc) (reached es) ∙ t) in
    (onward p, rw (reached es, reached-at (onward p) p) (onward-done p alive))
