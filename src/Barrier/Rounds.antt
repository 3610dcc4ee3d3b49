-- ===== src/Barrier/Rounds.antt =====
-- The rounds of implement-barrier-fixed.c: no thread is more than one line ahead of another, and a
-- line is ended when every thread has printed its number once.
use unix_linux_prog_in_c_src.Base.{
  ℕ, ◌+◌, ◌≤◌, ◌<◌, ◌≡◌, ◌≢◌, inl, inr, refl, arith, true, false, List, run, run-keeps, ltb,
  Bool-cases,
}
use native.Mathlib.Decide.{dec_lt}
use unix_linux_prog_in_c_src.Base.Family.{put, weigh, weigh-const}
use unix_linux_prog_in_c_src.Barrier.{
  Pc, say, arrive, State, start, wake, advance, Event, runs, wakes, step,
}
use unix_linux_prog_in_c_src.Barrier.Invariant.{
  first, second, Fine, Draining, Inv, first-wake, second-wake, holds-wake, moved, outside,
}
use unix_linux_prog_in_c_src.Barrier.Steps.{
  next_filled, next-below, next-arrivals, next-owner-IsIn, next-owns, next-phase, next-Fine,
}

runs-Inv : (max : ℕ) (s : State) (i : ℕ) → i < max → Inv max s → Inv max (advance max i (s.pc i) s)
runs-Inv max s i lt v = record {
  filled = next_filled max s v i lt (s.pc i);
  below = next-below max s v i lt (s.pc i);
  arrivals = next-arrivals max s v i lt (s.pc i);
  phase = next-phase max s v i lt (s.pc i) refl;
  owner_in = next-owner-IsIn max s v i lt (s.pc i);
  owns = next-owns max s v i lt (s.pc i) refl;
  fine = next-Fine max s v i lt (s.pc i) refl;
}

wakes-Inv :
    (max : ℕ) (s : State) (i : ℕ)
    → i < max
    → Inv max s
    → Inv max (record s { pc = put i (wake (s.pc i)) s.pc })
wakes-Inv max s i lt v = record {
  filled = v.filled;
  below = v.below;
  arrivals = v.arrivals;
  phase = ground (
    arith,
    v.phase,
    moved max s v i lt (wake (s.pc i)),
    first-wake (s.pc i),
    second-wake (s.pc i),
  );
  owner_in = v.owner_in;
  owns = λ j l. ground (arith, v.owns j l, holds-wake (s.pc j));
  fine = λ j l. ground (arith, v.fine j l);
}

step-Inv : (max : ℕ) (e : Event) (s : State) → Inv max s → Inv max (step max e s)
unfolding step
step-Inv max (runs i) s v = elim (dec_lt i max) [
  | yes lt ↦ let t : ltb i max ≡ true = ground arith in rw t (runs-Inv max s i lt v)
  | no out ↦ let t : ltb i max ≡ false = ground arith in rw t v
]
step-Inv max (wakes i) s v = elim (dec_lt i max) [
  | yes lt ↦ let t : ltb i max ≡ true = ground arith in rw t (wakes-Inv max s i lt v)
  | no out ↦ let t : ltb i max ≡ false = ground arith in rw t v
]

start-Inv : (max : ℕ) → 0 < max → Inv max start
unfolding start
start-Inv max h = record {
  filled = 0;
  below = h;
  arrivals = omega arith;
  phase = inl (weigh-const first say max refl, inr (refl, refl, weigh-const second say max refl));
  owner_in = tt;
  owns = λ j l. refl;
  fine = λ j l. refl;
}

pub run-Inv : (max : ℕ) (es : List Event) → 0 < max → Inv max (run (step max) es start)
run-Inv max es h = run-keeps (Inv max) (step max) (step-Inv max) es start (start-Inv max h)

printed-Fine : (max f w p n : ℕ) (pc : Pc) → Fine max f w p n pc → (n ≤ p) × (p ≤ n + 1)
printed-Fine max f w p n say h = ground arith
printed-Fine max f w p n _ h = ground arith

-- After any schedule of two or more threads, each thread has printed its number as often as there
-- are ended lines, or once more.
pub aligned :
    (max : ℕ) (es : List Event) (i : ℕ)
    → 1 < max
    → i < max
    → let s = run (step max) es start in (s.newlines ≤ s.printed i) × (s.printed i ≤ s.newlines + 1)
aligned max es i h lt =
    let s = run (step max) es start in
    let v = run-Inv max es (omega arith) in
    printed-Fine max v.filled s.wokenup (s.printed i) s.newlines (s.pc i) (v.fine i lt)

-- While the barrier is being left, all have printed the same number of times.
Draining-printed :
    (max : ℕ) (s : State) (v : Inv max s)
    → Draining max v.filled s.wokenup s.newlines (weigh first s.pc max) (weigh second s.pc max)
    → (i : ℕ) → i < max
    → s.printed i ≡ s.newlines
Draining-printed max s v d i lt = ground (arith, v.fine i lt, outside max s v i lt)

newline-wokenup :
    (max i : ℕ) (p : Pc) (s : State)
    → (advance max i p s).newlines ≢ s.newlines
    → (advance max i p s).wokenup ≡ 1
unfolding advance
newline-wokenup max i arrive s h = ground arith
newline-wokenup max i _ s h = ground arith

newline_step :
    (max : ℕ) (e : Event) (s : State)
    → (step max e s).newlines ≢ s.newlines
    → (step max e s).wokenup ≡ 1
unfolding step
newline_step max (runs i) s d = elim (Bool-cases (ltb i max)) [
  | inl t ↦ rw t (newline-wokenup max i (s.pc i) s (rw t at d))
  | inr t ↦ absurd (ground (arith, t, d))
]
newline_step max (wakes i) s d = absurd (ground (arith, d))

-- When a line is ended, by any event after any schedule of two or more threads, every thread has
-- printed its number exactly as often as there are lines: every line has each number once.
pub line_complete :
    (max : ℕ) (es : List Event) (e : Event) (i : ℕ)
    → 1 < max
    → i < max
    → (step max e (run (step max) es start)).newlines ≢ (run (step max) es start).newlines
    → let s = step max e (run (step max) es start) in s.printed i ≡ s.newlines
line_complete max es e i h lt d =
    let s : State = run (step max) es start in
    let v = step-Inv max e s (run-Inv max es (omega arith)) in
    let w = newline_step max e s d in
    elim (v.phase) [
      | inl f ↦ absurd (ground (arith, f, w))
      | inr f ↦ Draining-printed max (step max e s) v f i lt
    ]
