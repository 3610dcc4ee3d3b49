-- ===== src/RwLock/Progress.antt =====
-- pthread-rwlock.c comes to its end.
use unix_linux_prog_in_c_src.Base.{
  ℕ, zero, suc, ◌+◌, ◌*◌, ◌≤◌, ◌<◌, ◌≡◌, ◌⊎◌, inl, inr, refl, arith, true, false, Option, none,
  List, [], ◌∷◌, run, subst, ◌∙◌, length, Option-cases,
}
use native.Mathlib.Decide.{dec_lt}
use unix_linux_prog_in_c_src.Base.Family.{weigh, weigh-put, le-weigh, find_heavy}
use unix_linux_prog_in_c_src.RwLock.{
  Pc, choose, set_lock, set, set_unlock, top, get_lock, get, get_unlock, show, finished, State,
  start, can_write, can_read, advance, Event, runs, step,
}
use unix_linux_prog_in_c_src.RwLock.Invariant.{reads, writes, Held, Inv}
use unix_linux_prog_in_c_src.RwLock.Steps.{step-Inv, run-Inv}

-- The steps that a thread has left.
abbrev left_of : Pc → ℕ
left_of choose = 4
left_of (set_lock idx) = 3
left_of (set idx) = 2
left_of set_unlock = 1
left_of (top left) = 5 * left + 1
left_of (get_lock left idx) = 5 * left + 5
left_of (get left idx) = 5 * left + 4
left_of (get_unlock left idx val) = 5 * left + 3
left_of (show left idx val) = 5 * left + 2
left_of finished = 0

abbrev total : State → ℕ
total s = weigh left_of s.pc 32

abbrev busy : Pc → ℕ
busy choose = 1
busy (set_lock idx) = 1
busy (set idx) = 1
busy set_unlock = 1
busy (top left) = 1
busy (get_lock left idx) = 1
busy (get left idx) = 1
busy (get_unlock left idx val) = 1
busy (show left idx val) = 1
busy finished = 0

busy-le : (p : Pc) → busy p ≤ 1
busy-le finished = omega arith
busy-le _ = ground arith

reads-le : (p : Pc) → reads p ≤ 1
reads-le (get left idx) = omega arith
reads-le _ = ground arith

-- The thread is not kept waiting by the lock.
abbrev Unhindered : Option ℕ → ℕ → Pc → Type 0
Unhindered w n (set_lock idx) = can_write w n ≡ true
Unhindered w n (get_lock left idx) = can_read w ≡ true
Unhindered w n finished = ⊥
Unhindered w n choose = Unit
Unhindered w n (set idx) = Unit
Unhindered w n set_unlock = Unit
Unhindered w n (top left) = Unit
Unhindered w n (get left idx) = Unit
Unhindered w n (get_unlock left idx val) = Unit
Unhindered w n (show left idx val) = Unit

advance-lt :
    (i : ℕ) (p : Pc) (s : State)
    → i < 32
    → s.pc i ≡ p
    → Unhindered s.writer s.readers p
    → (total (advance i 0 p s) < total s) × ((advance i 0 p s).exited ≡ s.exited)
unfolding advance
advance-lt i choose s lt e u = ground (arith, weigh-put left_of s.pc i (set_lock 0) 32 lt)
advance-lt i (set_lock idx) s lt e u = ground (arith, weigh-put left_of s.pc i (set idx) 32 lt)
advance-lt i (set idx) s lt e u = ground (arith, weigh-put left_of s.pc i set_unlock 32 lt)
advance-lt i set_unlock s lt e u = ground (arith, weigh-put left_of s.pc i finished 32 lt)
advance-lt i (top zero) s lt e u = ground (arith, weigh-put left_of s.pc i finished 32 lt)
advance-lt i (top (suc left)) s lt e u =
    ground (arith, weigh-put left_of s.pc i (get_lock left 0) 32 lt)
advance-lt i (get_lock left idx) s lt e u =
    ground (arith, weigh-put left_of s.pc i (get left idx) 32 lt)
advance-lt i (get left idx) s lt e u =
    ground (arith, weigh-put left_of s.pc i (get_unlock left idx (s.properties idx)) 32 lt)
advance-lt i (get_unlock left idx val) s lt e u =
    ground (arith, weigh-put left_of s.pc i (show left idx val) 32 lt)
advance-lt i (show left idx val) s lt e u =
    ground (arith, weigh-put left_of s.pc i (top left) 32 lt)
advance-lt i finished s lt e u = absurd u

writing-Unhindered : (w : Option ℕ) (n : ℕ) (p : Pc) → writes p ≡ true → Unhindered w n p
writing-Unhindered w n (set idx) h = tt
writing-Unhindered w n set_unlock h = tt
writing-Unhindered w n _ h = ground (arith, h)

reading-Unhindered : (w : Option ℕ) (n : ℕ) (p : Pc) → reads p ≡ 1 → Unhindered w n p
reading-Unhindered w n (get left idx) h = tt
reading-Unhindered w n (get_unlock left idx val) h = tt
reading-Unhindered w n _ h = ground (arith, h)

free-Unhindered : (w : Option ℕ) (n : ℕ) (p : Pc) → w ≡ none → n ≡ 0 → busy p ≡ 1 → Unhindered w n p
free-Unhindered w n (set_lock idx) e z b = rw (e, z) refl
free-Unhindered w n (get_lock left idx) e z b = rw e refl
free-Unhindered w n finished e z b = absurd (omega (arith, b))
free-Unhindered w n _ e z b = tt

-- Some thread can go on, or all have ended.
someone :
    (s : State)
    → Inv s
    → (weigh busy s.pc 32 ≡ 0) ⊎ ((i : ℕ) × (i < 32) × Unhindered s.writer s.readers (s.pc i))
someone s v = elim (Option-cases s.writer) [
  | inr (i, held) ↦
      let lt : i < 32 = subst Held held v.holder in
      let w : writes (s.pc i) ≡ true = (v.fits i lt).0 ∙ (rw held (ground arith)) in
      inr (i, lt, writing-Unhindered s.writer s.readers (s.pc i) w)
  | inl free ↦ elim (dec_lt 0 s.readers) [
    | yes some_read ↦
        let (i, lt, r) = find_heavy reads reads-le s.pc 32 (omega (arith, v.counted, some_read)) in
        inr (i, lt, reading-Unhindered s.writer s.readers (s.pc i) r)
    | no quiet ↦ elim (dec_lt 0 (weigh busy s.pc 32)) [
      | yes some_busy ↦
          let (i, lt, b) = find_heavy busy busy-le s.pc 32 some_busy in
          inr (i, lt, free-Unhindered s.writer s.readers (s.pc i) free (omega (arith, quiet)) b)
      | no idle ↦ inl (omega (arith, idle))
    ]
  ]
]

step-advance :
    (i : ℕ) (s : State) → i < 32 → s.exited ≡ false → step (runs i 0) s ≡ advance i 0 (s.pc i) s
unfolding step
step-advance i s lt x = ground arith

complete :
    (k : ℕ) (s : State)
    → total s ≤ k
    → s.exited ≡ false
    → Inv s
    → (fs : List Event) × (length fs ≤ k) × (weigh busy (run step fs s).pc 32 ≡ 0)
unfolding run
complete zero s le x v = elim (someone s v) [
  | inl idle ↦ ([], omega arith, idle)
  | inr (i, lt, u) ↦ absurd (omega (arith, le, (advance-lt i (s.pc i) s lt refl u).0))
]
complete (suc k) s le x v = elim (someone s v) [
  | inl idle ↦ ([], omega arith, idle)
  | inr (i, lt, u) ↦
      let a = advance-lt i (s.pc i) s lt refl u in
      let e = step-advance i s lt x in
      let less : total (step (runs i 0) s) ≤ k = rw e (omega (arith, a.0, le)) in
      let y : (step (runs i 0) s).exited ≡ false = rw e (a.1 ∙ x) in
      let (fs, short, idle) = complete k (step (runs i 0) s) less y (step-Inv (runs i 0) s v) in
      (runs i 0 ∷ fs, omega (arith, short), idle)
]

idle-finished : (p : Pc) → busy p ≡ 0 → p ≡ finished
idle-finished finished h = refl
idle-finished _ h = absurd (omega (arith, h))

-- After any schedule in which no call for the lock has failed, there is a way to go on at whose end
-- all 32 threads have ended: the lock never blocks all of them for good.
pub rwlock_completes :
    (es : List Event)
    → (run step es start).exited ≡ false
    → (fs : List Event) × ((i : ℕ) → i < 32 → (run step fs (run step es start)).pc i ≡ finished)
rwlock_completes es x =
    let s = run step es start in
    let (fs, short, idle) = complete (total s) s (omega arith) x (run-Inv es) in
    (
      fs,
      λ i lt.
          idle-finished ((run step fs s).pc i)
            (omega (arith, idle, le-weigh busy (run step fs s).pc i 32 lt)),
    )
