-- ===== src/TalkingHeads/Parent.antt =====
-- The parent of talking-heads.c waits for its children.
use unix_linux_prog_in_c_src.Base.{
  ℕ, zero, suc, ◌+◌, ◌%◌, ◌≤◌, ◌<◌, ◌≡◌, refl, arith, List, [], ◌∷◌, ◌++◌, true, false, ltb, run,
  run-keeps_of_all, run-append, All, replicate,
}
use native.Mathlib.Decide.{dec_lt}
use unix_linux_prog_in_c_src.Base.Family.{weigh, weigh-put, weigh-const, weigh-one}
use unix_linux_prog_in_c_src.TalkingHeads.{
  Pc, head, acquire, talking, release, done, State, start, advance, interrupt, parent, Event,
  child_runs, sigint, child_interrupted, parent_runs, parent_interrupted, step,
}

abbrev ends : Pc → ℕ
ends head = 0
ends acquire = 0
ends (talking left) = 0
ends release = 0
ends done = 1

ends-le : (p : Pc) → ends p ≤ 1
ends-le head = omega arith
ends-le acquire = omega arith
ends-le (talking left) = omega arith
ends-le release = omega arith
ends-le done = omega arith

ended-done : (p : Pc) → 1 ≤ ends p → p ≡ done
ended-done head h = absurd (omega (arith, h))
ended-done acquire h = absurd (omega (arith, h))
ended-done (talking left) h = absurd (omega (arith, h))
ended-done release h = absurd (omega (arith, h))
ended-done done h = refl

abbrev Waited : ℕ → State → Type 0
Waited nproc s =
    (weigh ends s.pc nproc ≡ s.ended)
    × (s.reaped ≤ s.ended)
    × (s.reaped + s.waits ≡ nproc)
    × (s.unlinked ≡ true → s.waits ≡ 0)

advance-Waited :
    (nproc i r : ℕ) (p : Pc) (s : State)
    → i < nproc
    → s.pc i ≡ p
    → Waited nproc s
    → Waited nproc (advance i r p s)
unfolding advance
advance-Waited nproc i r head s lt e v =
    ground (arith, weigh-put ends s.pc i acquire nproc lt, weigh-put ends s.pc i done nproc lt)
advance-Waited nproc i r acquire s lt e v =
    ground (arith, weigh-put ends s.pc i (talking (r % 6 + 1)) nproc lt)
advance-Waited nproc i r (talking zero) s lt e v =
    ground (arith, weigh-put ends s.pc i release nproc lt)
advance-Waited nproc i r (talking (suc left)) s lt e v =
    ground (arith, weigh-put ends s.pc i (talking left) nproc lt)
advance-Waited nproc i r release s lt e v = ground (arith, weigh-put ends s.pc i head nproc lt)
advance-Waited nproc i r done s lt e v = v

interrupt-Waited :
    (nproc i r : ℕ) (p : Pc) (s : State)
    → i < nproc
    → s.pc i ≡ p
    → Waited nproc s
    → Waited nproc (interrupt i r p s)
unfolding interrupt
interrupt-Waited nproc i r acquire s lt e v =
    ground (arith, weigh-put ends s.pc i (talking (r % 6 + 1)) nproc lt)
interrupt-Waited nproc i r head s lt e v = v
interrupt-Waited nproc i r (talking left) s lt e v = v
interrupt-Waited nproc i r release s lt e v = v
interrupt-Waited nproc i r done s lt e v = v

parent-Waited :
    (nproc w : ℕ) (s : State) → s.waits ≡ w → Waited nproc s → Waited nproc (parent false w s)
unfolding parent
parent-Waited nproc zero s e v = (v.0, v.1, v.2, λ u. e)
parent-Waited nproc (suc w) s e v = ground arith

abbrev pub Patient : Event → Type 0
Patient (child_runs i r) = Unit
Patient (sigint i) = Unit
Patient (child_interrupted i r) = Unit
Patient parent_runs = Unit
Patient parent_interrupted = ⊥

step-Waited :
    (nproc : ℕ) (e : Event) (s : State) → Patient e → Waited nproc s → Waited nproc (step nproc e s)
unfolding step
step-Waited nproc (child_runs i r) s d v = elim (dec_lt i nproc) [
  | yes lt ↦
      let t : ltb i nproc ≡ true = ground arith in
      rw t (advance-Waited nproc i r (s.pc i) s lt refl v)
  | no out ↦ let t : ltb i nproc ≡ false = ground arith in rw t v
]
step-Waited nproc (sigint i) s d v = v
step-Waited nproc (child_interrupted i r) s d v = elim (dec_lt i nproc) [
  | yes lt ↦
      let t : ltb i nproc ≡ true = ground arith in
      rw t (interrupt-Waited nproc i r (s.pc i) s lt refl v)
  | no out ↦ let t : ltb i nproc ≡ false = ground arith in rw t v
]
step-Waited nproc parent_runs s d v = parent-Waited nproc s.waits s refl v
step-Waited nproc parent_interrupted s d v = absurd d

start-Waited : (nproc sinit : ℕ) → Waited nproc (start nproc sinit)
unfolding start
start-Waited nproc sinit =
    (weigh-const ends head nproc refl, omega arith, omega arith, λ u. ground arith)

-- After any schedule in which no wait of the parent is interrupted, a parent that has removed the
-- semaphore has waited for every child, and every child has ended.
pub parent_outlives :
    (nproc sinit : ℕ) (es : List Event) (i : ℕ)
    → All Patient es
    → i < nproc
    → (run (step nproc) es (start nproc sinit)).unlinked ≡ true
    → let s = run (step nproc) es (start nproc sinit) in (s.reaped ≡ nproc) × (s.pc i ≡ done)
parent_outlives nproc sinit es i d lt u =
    let s = run (step nproc) es (start nproc sinit) in
    let v =
      run-keeps_of_all Patient (Waited nproc) (step nproc) (step-Waited nproc) es
        (start nproc sinit) d (start-Waited nproc sinit) in
    (
      omega (arith, v.2, v.3 u),
      ended-done (s.pc i)
          (omega (arith, v.0, v.1, v.2, v.3 u, weigh-one ends ends-le s.pc i nproc lt)),
    )

parent-interrupted :
    (w n : ℕ) (s : State) → w ≡ suc n → s.ended ≡ 0 → parent true w s ≡ record s { waits = n }
unfolding parent
parent-interrupted w n s e z = let t : ltb s.reaped s.ended ≡ false = ground arith in rw (e, t) refl

waits_out :
    (nproc n : ℕ) (s : State)
    → s.waits ≡ n
    → s.ended ≡ 0
    → let t = run (step nproc) (replicate n parent_interrupted) s in
      (t.waits ≡ 0) × (t.ended ≡ 0) × (t.pc ≡ s.pc)
unfolding step run parent
waits_out nproc zero s e z = (e, z, refl)
waits_out nproc (suc n) s e z =
    rw (run, parent-interrupted s.waits n s e z) (waits_out nproc n (record s { waits = n }) refl z)

parent_leaves :
    (nproc sinit : ℕ) (t : State)
    → (t.waits ≡ 0) × (t.ended ≡ 0) × (t.pc ≡ (start nproc sinit).pc)
    → let s = run (step nproc) (parent_runs ∷ []) t in
      (s.unlinked ≡ true) × (s.ended ≡ 0) × ((i : ℕ) → s.pc i ≡ head)
unfolding step run parent start
parent_leaves nproc sinit t (w, e, p) = rw w (refl, e, λ i. rw p refl)

-- If every wait of the parent is interrupted, the parent removes the semaphore and ends while no
-- child has ended, whatever the number of children.
pub interrupted_parent_leaves :
    (nproc sinit : ℕ)
    → let s =
        run
          (step nproc)
          (replicate nproc parent_interrupted ++ (parent_runs ∷ []))
          (start nproc sinit) in
      (s.unlinked ≡ true) × (s.ended ≡ 0) × ((i : ℕ) → s.pc i ≡ head)
unfolding step
interrupted_parent_leaves nproc sinit =
    let w =
      waits_out nproc nproc (start nproc sinit) (unfold start in refl) (unfold start in refl) in
    rw
      (run-append (step nproc) (replicate nproc parent_interrupted) (parent_runs ∷ [])
        (start nproc sinit))
      (parent_leaves nproc sinit
        (run (step nproc) (replicate nproc parent_interrupted) (start nproc sinit)) w)
