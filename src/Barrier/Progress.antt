-- ===== src/Barrier/Progress.antt =====
-- The threads of implement-barrier-fixed.c never block one another.
use unix_linux_prog_in_c_src.Base.{
  ℕ, ◌<◌, ◌≡◌, ◌≢◌, ◌⊎◌, inl, inr, refl, arith, Bool, true, false, none, List, run, ltb,
  Option-cases,
}
use unix_linux_prog_in_c_src.Base.Family.{le-weigh, find_light, find_heavy}
use unix_linux_prog_in_c_src.Barrier.{
  Pc, say, lock, arrive, test1, wait1, relock1, woken, test2, wait2, relock2, unlock, State, start,
  advance, Event, runs, step,
}
use unix_linux_prog_in_c_src.Barrier.Invariant.{holds, first, second, Inv, first-le}
use unix_linux_prog_in_c_src.Barrier.Rounds.{run-Inv}

-- The next step of thread `i` takes it to another place in its code.
abbrev pub Moves : ℕ → State → ℕ → Type 0
Moves max s i = (step max (runs i) s).pc i ≢ s.pc i

-- The thread is not blocked in pthread_cond_wait, ...
abbrev is_waiting : Pc → Bool
is_waiting wait1 = true
is_waiting wait2 = true
is_waiting say = false
is_waiting lock = false
is_waiting arrive = false
is_waiting test1 = false
is_waiting relock1 = false
is_waiting woken = false
is_waiting test2 = false
is_waiting relock2 = false
is_waiting unlock = false

-- ... and holds the mutex, or finds it free.
advance-moves :
    (max i : ℕ) (p : Pc) (s : State)
    → s.pc i ≡ p
    → is_waiting p ≡ false
    → (holds p ≡ true) ⊎ (s.owner ≡ none)
    → (advance max i p s).pc i ≢ p
unfolding advance
advance-moves max i say s e w h = ground arith
advance-moves max i _ s e w h = ground arith

moves :
    (max i : ℕ) (s : State)
    → i < max
    → is_waiting (s.pc i) ≡ false
    → (holds (s.pc i) ≡ true) ⊎ (s.owner ≡ none)
    → Moves max s i
unfolding step
moves max i s lt w h =
    let t : ltb i max ≡ true = ground arith in rw t (advance-moves max i (s.pc i) s refl w h)

-- A thread that can go on while the mutex is free.
someone :
    (max : ℕ) (s : State) (v : Inv max s)
    → s.owner ≡ none
    → (i : ℕ) × (i < max) × (is_waiting (s.pc i) ≡ false)
someone max s v free = elim (v.phase) [
  | inl f ↦
      let r = find_light first first-le s.pc max (omega (arith, f, v.below)) in
      (r.0, r.1, ground (arith, f, r.2, v.fine r.0 r.1, v.below, le-weigh second s.pc r.0 max r.1))
  | inr d ↦
      let r = find_heavy first first-le s.pc max (omega (arith, d)) in
      (r.0, r.1, ground (arith, d, r.2, v.fine r.0 r.1))
]

-- After any schedule of two or more threads, one of them can take a step.
pub barrier_never_deadlocks :
    (max : ℕ) (es : List Event)
    → 1 < max
    → (i : ℕ) × (i < max) × Moves max (run (step max) es start) i
barrier_never_deadlocks max es h =
    let s : State = run (step max) es start in
    let v = run-Inv max es (omega arith) in
    elim (Option-cases s.owner) [
      | inl free ↦ let r = someone max s v free in (r.0, r.1, moves max r.0 s r.1 r.2 (inr free))
      | inr (o, held) ↦
          let inside : o < max = ground (arith, v.owner_in, held) in
          let has : holds (s.pc o) ≡ true = ground (arith, v.owns o inside, held) in
          (o, inside, moves max o s inside (ground (arith, has)) (inl has))
    ]
