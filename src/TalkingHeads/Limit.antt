-- ===== src/TalkingHeads/Limit.antt =====
-- How many children of talking-heads.c talk at a time.
use unix_linux_prog_in_c_src.Base.{
  ℕ, zero, suc, ◌+◌, ◌%◌, ◌≤◌, ◌<◌, ◌≡◌, refl, arith, List, Bool, true, false, ltb, run,
  run-keeps_of_all, All,
}
use native.Mathlib.Decide.{dec_lt}
use unix_linux_prog_in_c_src.Base.Family.{weigh, weigh-put, weigh-const}
use unix_linux_prog_in_c_src.TalkingHeads.{
  Pc, head, acquire, talking, release, done, State, start, advance, interrupt, parent, Event,
  child_runs, sigint, child_interrupted, parent_runs, parent_interrupted, step,
}

-- The child is between sem_wait and sem_post.
abbrev pub talks : Pc → ℕ
talks head = 0
talks acquire = 0
talks (talking left) = 1
talks release = 1
talks done = 0

abbrev pub talkers : ℕ → State → ℕ
talkers nproc s = weigh talks s.pc nproc

abbrev Counted : (nproc sinit : ℕ) → State → Type 0
Counted nproc sinit s = s.sem + talkers nproc s ≡ sinit

advance-Counted :
    (nproc sinit i r : ℕ) (p : Pc) (s : State)
    → i < nproc
    → s.pc i ≡ p
    → Counted nproc sinit s
    → Counted nproc sinit (advance i r p s)
unfolding advance
advance-Counted nproc sinit i r head s lt e v =
    ground (arith, weigh-put talks s.pc i acquire nproc lt, weigh-put talks s.pc i done nproc lt)
advance-Counted nproc sinit i r acquire s lt e v =
    ground (arith, weigh-put talks s.pc i (talking (r % 6 + 1)) nproc lt)
advance-Counted nproc sinit i r (talking zero) s lt e v =
    ground (arith, weigh-put talks s.pc i release nproc lt)
advance-Counted nproc sinit i r (talking (suc left)) s lt e v =
    ground (arith, weigh-put talks s.pc i (talking left) nproc lt)
advance-Counted nproc sinit i r release s lt e v =
    ground (arith, weigh-put talks s.pc i head nproc lt)
advance-Counted nproc sinit i r done s lt e v = v

abbrev pub NotInterrupted : Event → Type 0
NotInterrupted (child_runs i r) = Unit
NotInterrupted (sigint i) = Unit
NotInterrupted (child_interrupted i r) = ⊥
NotInterrupted parent_runs = Unit
NotInterrupted parent_interrupted = Unit

parent-Counted :
    (nproc sinit : ℕ) (b : Bool) (w : ℕ) (s : State)
    → Counted nproc sinit s
    → Counted nproc sinit (parent b w s)
unfolding parent
parent-Counted nproc sinit b zero s v = v
parent-Counted nproc sinit b (suc w) s v = ground arith

step-Counted :
    (nproc sinit : ℕ) (e : Event) (s : State)
    → NotInterrupted e
    → Counted nproc sinit s
    → Counted nproc sinit (step nproc e s)
unfolding step
step-Counted nproc sinit (child_runs i r) s d v = elim (dec_lt i nproc) [
  | yes lt ↦
      let t : ltb i nproc ≡ true = ground arith in
      rw t (advance-Counted nproc sinit i r (s.pc i) s lt refl v)
  | no out ↦ let t : ltb i nproc ≡ false = ground arith in rw t v
]
step-Counted nproc sinit (sigint i) s d v = v
step-Counted nproc sinit (child_interrupted i r) s d v = absurd d
step-Counted nproc sinit parent_runs s d v = parent-Counted nproc sinit false s.waits s v
step-Counted nproc sinit parent_interrupted s d v = parent-Counted nproc sinit true s.waits s v

start-Counted : (nproc sinit : ℕ) → Counted nproc sinit (start nproc sinit)
unfolding start
start-Counted nproc sinit = omega (arith, weigh-const talks head nproc refl)

-- After any schedule in which no sem_wait is interrupted, the children that talk, together with what
-- the semaphore is worth, are as many as the initial value; so at most that many talk at a time.
pub talkers-le :
    (nproc sinit : ℕ) (es : List Event)
    → All NotInterrupted es
    → let s = run (step nproc) es (start nproc sinit) in
      (s.sem + talkers nproc s ≡ sinit) × (talkers nproc s ≤ sinit)
talkers-le nproc sinit es d =
    let v =
      run-keeps_of_all NotInterrupted (Counted nproc sinit) (step nproc) (step-Counted nproc sinit)
        es (start nproc sinit) d (start-Counted nproc sinit) in
    (v, omega (arith, v))

interrupt-adds :
    (nproc i r : ℕ) (p : Pc) (s : State)
    → i < nproc
    → s.pc i ≡ p
    → p ≡ acquire
    → s.sem ≡ 0
    → talkers nproc (interrupt i r p s) ≡ talkers nproc s + 1
unfolding interrupt
interrupt-adds nproc i r acquire s lt e q z =
    ground (arith, weigh-put talks s.pc i (talking (r % 6 + 1)) nproc lt)
interrupt-adds nproc i r head s lt e q z = ground arith
interrupt-adds nproc i r (talking left) s lt e q z = ground arith
interrupt-adds nproc i r release s lt e q z = ground arith
interrupt-adds nproc i r done s lt e q z = ground arith

-- Wherever all places are taken and a child is blocked in sem_wait, a signal that interrupts it lets
-- it talk beside the others: one more than the initial value.
pub interrupted_talks :
    (nproc sinit : ℕ) (es : List Event) (i r : ℕ)
    → All NotInterrupted es
    → i < nproc
    → (run (step nproc) es (start nproc sinit)).pc i ≡ acquire
    → (run (step nproc) es (start nproc sinit)).sem ≡ 0
    → let s = step nproc (child_interrupted i r) (run (step nproc) es (start nproc sinit)) in
      talkers nproc s ≡ sinit + 1
unfolding step
interrupted_talks nproc sinit es i r d lt e z =
    let s = run (step nproc) es (start nproc sinit) in
    let t : ltb i nproc ≡ true = ground arith in
    let a = interrupt-adds nproc i r (s.pc i) s lt refl e z in
    let v = talkers-le nproc sinit es d in rw (t, a) (omega (arith, v.0, z))
