-- ===== src/Sigwait/Handover.antt =====
-- What the child of sigwait.c prints.
use unix_linux_prog_in_c_src.Base.{ℕ, ◌≡◌, sym, ap, ◌∙◌, arith, some, List, run}
use unix_linux_prog_in_c_src.Sigwait.{State, start, Event, step}
use unix_linux_prog_in_c_src.Sigwait.Places.{
  Place, read_masking, read_awaiting, store_masking, store_awaiting, send_masking, send_awaiting,
  slain, slain_over, signalled, woken, told, over, fail_masking, fail_awaiting, next, at, reached,
}

told_typed : (p : Place) (x : ℕ) → (at p).printed ≡ some x → x ≡ (at p).c
told_typed read_masking x e = ground (arith, e)
told_typed read_awaiting x e = ground (arith, e)
told_typed (store_masking ch) x e = ground (arith, e)
told_typed (store_awaiting ch) x e = ground (arith, e)
told_typed (send_masking ch) x e = ground (arith, e)
told_typed (send_awaiting ch) x e = ground (arith, e)
told_typed (slain ch) x e = ground (arith, e)
told_typed (slain_over ch) x e = ground (arith, e)
told_typed (signalled ch) x e = ground (arith, e)
told_typed (woken ch) x e = ground (arith, e)
told_typed (told ch) x e = ground (arith, e)
told_typed (over ch) x e = ground (arith, e)
told_typed fail_masking x e = ground (arith, e)
told_typed fail_awaiting x e = ground (arith, e)

-- After any schedule, what the child has printed is the character that the parent has read.
pub printed_is_typed :
    (es : List Event) (x : ℕ) → (run step es start).printed ≡ some x → x ≡ (run step es start).c
printed_is_typed es x e =
    let p = run next es read_masking in
    rw (reached es) (told_typed p x (sym (ap (λ (s : State). s.printed) (reached es)) ∙ e))
