-- ===== src/Sigqueue/Status.antt =====
-- The status of sigqueue.c.
use unix_linux_prog_in_c_src.Base.{
  ℕ, ◌+◌, ◌%◌, ◌≤◌, ◌<◌, ◌≡◌, ◌≢◌, ◌⊎◌, inl, inr, refl, sym, ap, ◌∙◌, arith, List, [], ◌∷◌, run,
  run-keeps,
}
use unix_linux_prog_in_c_src.Sigqueue.{
  announcing, pausing, killed, sending, waiting, ended, State, start, parent_step, child_step,
  Event, parent_runs, child_runs, step,
}
use unix_linux_prog_in_c_src.Sigqueue.Places.{
  Place, fresh, announced, paused, early, missed, woken, gone, over, slain, slain_over, next, at,
  status_of, reached, reached-at,
}

-- Where an ended parent has its status from.
ended-status :
    (val other : ℕ) (p : Place) (st : ℕ)
    → (at val other p).parent_pc ≡ ended st
    → (at val other p).child_pc ≢ killed
    → st ≡ status_of val
ended-status val other fresh st e alive = ground (arith, e)
ended-status val other announced st e alive = ground (arith, e)
ended-status val other paused st e alive = ground (arith, e)
ended-status val other early st e alive = ground (arith, e)
ended-status val other missed st e alive = ground (arith, e)
ended-status val other woken st e alive = ground (arith, e)
ended-status val other gone st e alive = ground (arith, e)
ended-status val other over st e alive = ground (arith, e)
ended-status val other slain st e alive = absurd (alive refl)
ended-status val other slain_over st e alive = absurd (alive refl)

-- For a number below 255: if the parent has ended, after any schedule, its status is the number after
-- the one sent, which is at most 255, unless the signal has killed the child.
pub status_next :
    (val other : ℕ) (es : List Event) (st : ℕ)
    → val < 255
    → (run (step val other) es start).parent_pc ≡ ended st
    → (run (step val other) es start).child_pc ≢ killed
    → (st ≡ val + 1) × (st ≤ 255)
status_next val other es st lt e alive =
    let p = run next es fresh in
    let here = reached val other es in
    let is : st ≡ status_of val =
      ended-status val other p st (sym (ap (λ (s : State). s.parent_pc) here) ∙ e)
        (λ t. alive (ap (λ (s : State). s.child_pc) here ∙ t)) in
    (omega (arith, is, lt), omega (arith, is))

-- When, after some schedule, the child pauses and the parent has not sent its signal yet, three more
-- steps end the program, with the number after the one sent in eight bits.
pub pausing_child_ends :
    (val other : ℕ) (es : List Event)
    → (run (step val other) es start).parent_pc ≡ sending
    → (run (step val other) es start).child_pc ≡ pausing
    → (run
        (step val other)
        (parent_runs ∷ child_runs ∷ parent_runs ∷ [])
        (run (step val other) es start)).parent_pc
      ≡ ended ((val + 1) % 256)
unfolding run step parent_step child_step
pausing_child_ends val other es p c = rw (p, c) refl

-- The child has missed the signal.
abbrev pub Missed : State → Type 0
Missed s = (s.parent_pc ≡ waiting) × ((s.child_pc ≡ announcing) ⊎ (s.child_pc ≡ pausing))

abbrev MissedAt : Place → Type 0
MissedAt p = (p ≡ early) ⊎ (p ≡ missed)

next-MissedAt : (e : Event) (p : Place) → MissedAt p → MissedAt (next e p)
unfolding next
next-MissedAt parent_runs p (inl t) = inl (rw t refl)
next-MissedAt parent_runs p (inr t) = inr (rw t refl)
next-MissedAt child_runs p (inl t) = inr (rw t refl)
next-MissedAt child_runs p (inr t) = inr (rw t refl)

at-Missed : (val other : ℕ) (p : Place) → MissedAt p → Missed (at val other p)
at-Missed val other p (inl t) = rw t (refl, inl refl)
at-Missed val other p (inr t) = rw t (refl, inr refl)

-- When the signal comes after the handler is set and before pause() is called, then after any
-- further schedule the parent still waits for the child, and the child has not exited.
pub missed_signal_hangs :
    (val other : ℕ) (es : List Event)
    → let s =
        run (step val other) es (run (step val other) (child_runs ∷ parent_runs ∷ []) start) in
      (s.parent_pc ≡ waiting) × ((s.child_pc ≡ announcing) ⊎ (s.child_pc ≡ pausing))
unfolding next run
missed_signal_hangs val other es =
    rw (reached val other (child_runs ∷ parent_runs ∷ []), reached-at val other es early)
      (at-Missed val other (run next es early)
        (run-keeps MissedAt next next-MissedAt es early (inl refl)))

-- What leads to the end.
abbrev onward : Place → List Event
onward fresh = child_runs ∷ child_runs ∷ parent_runs ∷ child_runs ∷ parent_runs ∷ []
onward announced = child_runs ∷ parent_runs ∷ child_runs ∷ parent_runs ∷ []
onward paused = parent_runs ∷ child_runs ∷ parent_runs ∷ []
onward early = []
onward missed = []
onward woken = child_runs ∷ parent_runs ∷ []
onward gone = parent_runs ∷ []
onward over = []
onward slain = []
onward slain_over = []

onward-over :
    (val other : ℕ) (p : Place)
    → ((at val other p).child_pc ≡ killed) ⊎ (MissedAt p ⊎ (run next (onward p) p ≡ over))
unfolding run next
onward-over val other fresh = inr (inr refl)
onward-over val other announced = inr (inr refl)
onward-over val other paused = inr (inr refl)
onward-over val other early = inr (inl (inl refl))
onward-over val other missed = inr (inl (inr refl))
onward-over val other woken = inr (inr refl)
onward-over val other gone = inr (inr refl)
onward-over val other over = inr (inr refl)
onward-over val other slain = inl refl
onward-over val other slain_over = inl refl

-- For a number below 255, after any schedule: the signal has killed the child, or the child has missed
-- it and both processes wait, or there is a way to go on by which the parent ends with the number after
-- the one sent, as its status.
pub status_reached :
    (val other : ℕ) (es : List Event)
    → val < 255
    → let s = run (step val other) es start in
      (s.child_pc ≡ killed)
      ⊎ (Missed s ⊎ ((fs : List Event) × ((run (step val other) fs s).parent_pc ≡ ended (val + 1))))
status_reached val other es lt =
    let p = run next es fresh in
    let same : status_of val ≡ val + 1 = omega (arith, lt) in
    rw (reached val other es) (elim (onward-over val other p) [
      | inl dead ↦ inl dead
      | inr (inl late) ↦ inr (inl (at-Missed val other p late))
      | inr (inr ends) ↦
          inr (inr (onward p, rw (reached-at val other (onward p) p, ends, same) refl))
    ])
