-- ===== src/Sigwait/Places.antt =====
-- Where the two processes of sigwait.c can stand: behind any schedule they are at one of a few places,
-- and go on by `next`.
use unix_linux_prog_in_c_src.Base.{
  ℕ, ◌≡◌, refl, Bool, true, false, Option, none, some, List, run, run-at,
}
use unix_linux_prog_in_c_src.Sigwait.{
  ParentPc, reading, storing, sending, waiting, done, failed, ChildPc, masking, awaiting, printing,
  exited, killed, State, start, parent_step, child_step, Event, parent_runs, child_runs, step,
}

-- Before the signal, a place tells what the parent does next (or that read() has failed), and where the
-- child is; `slain` and `slain_over` are behind a signal that has come too early. `ch` is what the
-- parent has read.
pub data Place : Type 0 where
  read_masking : Place
  read_awaiting : Place
  store_masking : (ch : ℕ) → Place
  store_awaiting : (ch : ℕ) → Place
  send_masking : (ch : ℕ) → Place
  send_awaiting : (ch : ℕ) → Place
  slain : (ch : ℕ) → Place
  slain_over : (ch : ℕ) → Place
  signalled : (ch : ℕ) → Place
  woken : (ch : ℕ) → Place
  told : (ch : ℕ) → Place
  over : (ch : ℕ) → Place
  fail_masking : Place
  fail_awaiting : Place

unfoldable pub next : Event → Place → Place
next (parent_runs none) read_masking = fail_masking
next (parent_runs (some ch)) read_masking = store_masking ch
next (parent_runs none) read_awaiting = fail_awaiting
next (parent_runs (some ch)) read_awaiting = store_awaiting ch
next (parent_runs input) (store_masking ch) = send_masking ch
next (parent_runs input) (store_awaiting ch) = send_awaiting ch
next (parent_runs input) (send_masking ch) = slain ch
next (parent_runs input) (send_awaiting ch) = signalled ch
next (parent_runs input) (slain ch) = slain_over ch
next (parent_runs input) (slain_over ch) = slain_over ch
next (parent_runs input) (signalled ch) = signalled ch
next (parent_runs input) (woken ch) = woken ch
next (parent_runs input) (told ch) = over ch
next (parent_runs input) (over ch) = over ch
next (parent_runs input) fail_masking = fail_masking
next (parent_runs input) fail_awaiting = fail_awaiting
next child_runs read_masking = read_awaiting
next child_runs read_awaiting = read_awaiting
next child_runs (store_masking ch) = store_awaiting ch
next child_runs (store_awaiting ch) = store_awaiting ch
next child_runs (send_masking ch) = send_awaiting ch
next child_runs (send_awaiting ch) = send_awaiting ch
next child_runs (slain ch) = slain ch
next child_runs (slain_over ch) = slain_over ch
next child_runs (signalled ch) = woken ch
next child_runs (woken ch) = told ch
next child_runs (told ch) = told ch
next child_runs (over ch) = over ch
next child_runs fail_masking = fail_awaiting
next child_runs fail_awaiting = fail_awaiting

abbrev made : (c shared : ℕ) → Bool → ParentPc → ChildPc → Option ℕ → State
made c shared pending p d printed = record {
  c = c;
  shared = shared;
  pending = pending;
  parent_pc = p;
  child_pc = d;
  printed = printed;
}

-- The state at a place.
abbrev pub at : Place → State
at read_masking = made 0 0 false reading masking none
at read_awaiting = made 0 0 false reading awaiting none
at (store_masking ch) = made ch 0 false storing masking none
at (store_awaiting ch) = made ch 0 false storing awaiting none
at (send_masking ch) = made ch ch false sending masking none
at (send_awaiting ch) = made ch ch false sending awaiting none
at (slain ch) = made ch ch false waiting killed none
at (slain_over ch) = made ch ch false done killed none
at (signalled ch) = made ch ch true waiting awaiting none
at (woken ch) = made ch ch false waiting printing none
at (told ch) = made ch ch false waiting exited (some ch)
at (over ch) = made ch ch false done exited (some ch)
at fail_masking = made 0 0 false failed masking none
at fail_awaiting = made 0 0 false failed awaiting none

step-at : (e : Event) (p : Place) → step e (at p) ≡ at (next e p)
unfolding step parent_step child_step next
step-at (parent_runs none) read_masking = refl
step-at (parent_runs (some ch)) read_masking = refl
step-at (parent_runs none) read_awaiting = refl
step-at (parent_runs (some ch)) read_awaiting = refl
step-at (parent_runs input) (store_masking ch) = refl
step-at (parent_runs input) (store_awaiting ch) = refl
step-at (parent_runs input) (send_masking ch) = refl
step-at (parent_runs input) (send_awaiting ch) = refl
step-at (parent_runs input) (slain ch) = refl
step-at (parent_runs input) (slain_over ch) = refl
step-at (parent_runs input) (signalled ch) = refl
step-at (parent_runs input) (woken ch) = refl
step-at (parent_runs input) (told ch) = refl
step-at (parent_runs input) (over ch) = refl
step-at (parent_runs input) fail_masking = refl
step-at (parent_runs input) fail_awaiting = refl
step-at child_runs read_masking = refl
step-at child_runs read_awaiting = refl
step-at child_runs (store_masking ch) = refl
step-at child_runs (store_awaiting ch) = refl
step-at child_runs (send_masking ch) = refl
step-at child_runs (send_awaiting ch) = refl
step-at child_runs (slain ch) = refl
step-at child_runs (slain_over ch) = refl
step-at child_runs (signalled ch) = refl
step-at child_runs (woken ch) = refl
step-at child_runs (told ch) = refl
step-at child_runs (over ch) = refl
step-at child_runs fail_masking = refl
step-at child_runs fail_awaiting = refl

pub reached-at : (es : List Event) (p : Place) → run step es (at p) ≡ at (run next es p)
reached-at es p = run-at step next at step-at es p

pub reached : (es : List Event) → run step es start ≡ at (run next es read_masking)
unfolding start
reached es = reached-at es read_masking
