-- ===== src/Sigqueue/Places.antt =====
-- Where the two processes of sigqueue.c can stand: behind any schedule they are at one of a few places,
-- and go on by `next`.
use unix_linux_prog_in_c_src.Base.{ℕ, ◌+◌, ◌%◌, ◌≡◌, refl, List, run, run-at}
use unix_linux_prog_in_c_src.Sigqueue.{
  ChildPc, setting, announcing, pausing, exiting, exited, killed, ParentPc, sending, waiting, ended,
  State, start, parent_step, child_step, Event, parent_runs, child_runs, step,
}

-- The first three places are before the signal; `early` and `missed` are behind a signal that has come
-- before pause(), `slain` and `slain_over` behind one that has come before the handler is set.
pub data Place : Type 0 where
  fresh announced paused early missed woken gone over slain slain_over : Place

unfoldable pub next : Event → Place → Place
next parent_runs fresh = slain
next parent_runs announced = early
next parent_runs paused = woken
next parent_runs early = early
next parent_runs missed = missed
next parent_runs woken = woken
next parent_runs gone = over
next parent_runs over = over
next parent_runs slain = slain_over
next parent_runs slain_over = slain_over
next child_runs fresh = announced
next child_runs announced = paused
next child_runs paused = paused
next child_runs early = missed
next child_runs missed = missed
next child_runs woken = gone
next child_runs gone = gone
next child_runs over = over
next child_runs slain = slain
next child_runs slain_over = slain_over

abbrev made : (num : ℕ) → ParentPc → ChildPc → State
made num p c = record { num = num; parent_pc = p; child_pc = c }

-- The status that the system keeps for the number that is sent.
abbrev pub status_of : ℕ → ℕ
status_of val = (val + 1) % 256

-- The state at a place.
abbrev pub at : (val other : ℕ) → Place → State
at val other fresh = made 0 sending setting
at val other announced = made 0 sending announcing
at val other paused = made 0 sending pausing
at val other early = made val waiting announcing
at val other missed = made val waiting pausing
at val other woken = made val waiting exiting
at val other gone = made val waiting (exited (status_of val))
at val other over = made val (ended (status_of val)) (exited (status_of val))
at val other slain = made 0 waiting killed
at val other slain_over = made 0 (ended other) killed

step-at :
    (val other : ℕ) (e : Event) (p : Place)
    → step val other e (at val other p) ≡ at val other (next e p)
unfolding step parent_step child_step next
step-at val other parent_runs fresh = refl
step-at val other parent_runs announced = refl
step-at val other parent_runs paused = refl
step-at val other parent_runs early = refl
step-at val other parent_runs missed = refl
step-at val other parent_runs woken = refl
step-at val other parent_runs gone = refl
step-at val other parent_runs over = refl
step-at val other parent_runs slain = refl
step-at val other parent_runs slain_over = refl
step-at val other child_runs fresh = refl
step-at val other child_runs announced = refl
step-at val other child_runs paused = refl
step-at val other child_runs early = refl
step-at val other child_runs missed = refl
step-at val other child_runs woken = refl
step-at val other child_runs gone = refl
step-at val other child_runs over = refl
step-at val other child_runs slain = refl
step-at val other child_runs slain_over = refl

-- From the start on.
pub reached :
    (val other : ℕ) (es : List Event)
    → run (step val other) es start ≡ at val other (run next es fresh)
unfolding start
reached val other es = run-at (step val other) next (at val other) (step-at val other) es fresh

pub reached-at :
    (val other : ℕ) (es : List Event) (p : Place)
    → run (step val other) es (at val other p) ≡ at val other (run next es p)
reached-at val other es p = run-at (step val other) next (at val other) (step-at val other) es p
