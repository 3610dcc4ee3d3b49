-- ===== src/Stages/Progress.antt =====
-- All threads of pthread-barrier.c come to their end.
use unix_linux_prog_in_c_src.Base.{
  ℕ, zero, suc, ◌+◌, ◌-◌, ◌*◌, ◌≤◌, ◌<◌, ◌≡◌, ◌⊎◌, inl, inr, refl, sym, ap, ◌∙◌, subst, arith, true,
  if-cases, List, ◌∷◌, ltb, ◌==◌, run, run-ends,
}
use native.Mathlib.Decide.{dec_lt}
use unix_linux_prog_in_c_src.Base.Family.{
  put, weigh, weigh-put, weigh_mono, le-weigh, find_heavy, find_light,
}
use unix_linux_prog_in_c_src.Stages.{
  Pc, choose, loop, reach, waiting, passed, finished, Line, State, start, go, let_go, barrier_wait,
  head, worker, Event, step,
}
use unix_linux_prog_in_c_src.Stages.Together.{
  level, waits, waits-le, Fits, Inv, Reached, step-Reached, run-Reached,
}

-- The steps that a thread has left, if random() returns 0 from now on.
abbrev left_of : Pc → ℕ
left_of (choose j) = 5 * (3 - j)
left_of (loop j left) = 5 * (3 - j) - 1 + left
left_of (reach j) = 5 * (3 - j) - 2
left_of (waiting j) = 5 * (3 - j) - 3
left_of (passed j last) = 5 * (3 - j) - 4
left_of finished = 0

abbrev total : State → ℕ
total s = weigh left_of s.pc 8

abbrev active : Pc → ℕ
active (choose j) = 1
active (loop j left) = 1
active (reach j) = 1
active (waiting j) = 0
active (passed j last) = 1
active finished = 0

active-le : (p : Pc) → active p ≤ 1
active-le (waiting j) = omega arith
active-le finished = omega arith
active-le _ = omega arith

let_go-le : (serial k : ℕ) (p : Pc) → left_of (let_go serial k p) ≤ left_of p
let_go-le serial k (waiting j) = omega arith
let_go-le serial k (choose j) = omega arith
let_go-le serial k (loop j left) = omega arith
let_go-le serial k (reach j) = omega arith
let_go-le serial k (passed j last) = omega arith
let_go-le serial k finished = omega arith

module _ (i : ℕ) (s : State) (lt : i < 8) where
  -- A thread goes on to a place with less before it.
  go-lt :
      (p : Pc) (lines : List Line)
      → left_of p < left_of (s.pc i)
      → total (go i p (record s { printed = lines })) < total s
  go-lt p lines h = omega (arith, weigh-put left_of s.pc i p 8 lt, h)

  barrier_wait-lt :
      (serial j : ℕ)
      → left_of (waiting j) < left_of (s.pc i)
      → total (barrier_wait serial i j s) < total s
  barrier_wait-lt serial j h =
      let blocks : total (go i (waiting j) s) < total s = go-lt (waiting j) s.printed h in
      if-cases (λ (s' : State). total s' < total s) (s.blocked + 1 == 8)
        (record s { blocked = 0; pc = λ k. let_go serial k (put i (waiting j) s.pc k) })
        (go i (waiting j) (record s { blocked = s.blocked + 1 }))
        (λ t. omega (
          arith,
          weigh_mono left_of (λ k. let_go serial k (put i (waiting j) s.pc k))
              (put i (waiting j) s.pc) 8 (λ k l. let_go-le serial k (put i (waiting j) s.pc k)),
          blocks,
        ))
        (λ t. blocks)

worker-lt :
    (i : ℕ) (p : Pc) (s : State)
    → i < 8
    → s.pc i ≡ p
    → active p ≡ 1
    → Fits p
    → total (worker 0 0 i p s) < total s
unfolding worker
worker-lt i (choose j) s lt e a f = go-lt i s lt (loop j 0) s.printed (rw e (omega arith))
worker-lt i (loop j zero) s lt e a f = go-lt i s lt (reach j) s.printed (rw e (omega arith))
worker-lt i (loop j (suc left)) s lt e a f =
    go-lt i s lt (loop j left) s.printed (rw e (omega arith))
worker-lt i (reach j) s lt e a f = barrier_wait-lt i s lt 0 j (rw e (omega arith))
worker-lt i (waiting j) s lt e a f = absurd (omega (arith, a))
worker-lt i (passed j last) s lt e a f =
    go-lt i s lt (head (j + 1)) (record { stage = j; id = i; last = last } ∷ s.printed) (
      if-cases (λ (p : Pc). left_of p < left_of (s.pc i)) (ltb (j + 1) 3) (choose (j + 1)) finished
        (λ t. rw e (omega arith)) (λ t. rw e (omega arith)))
worker-lt i finished s lt e a f = absurd (omega (arith, a))

idle-waits : (p : Pc) → active p ≡ 0 → (p ≡ finished) ⊎ ((waits p ≡ 1) × (Fits p → level p < 3))
idle-waits (waiting j) a = inr (refl, λ f. f)
idle-waits finished a = inl refl
idle-waits (choose j) a = absurd (omega (arith, a))
idle-waits (loop j left) a = absurd (omega (arith, a))
idle-waits (reach j) a = absurd (omega (arith, a))
idle-waits (passed j last) a = absurd (omega (arith, a))

-- If no thread can go on, all have ended.
stuck-finished :
    (n : ℕ) (s : State) → Inv n s → weigh active s.pc 8 ≡ 0 → (i : ℕ) → i < 8 → s.pc i ≡ finished
stuck-finished n s v idle i lt =
    let still : (k : ℕ) → k < 8 → active (s.pc k) ≡ 0 =
      λ k h. omega (arith, le-weigh active s.pc k 8 h, idle) in
    elim (idle-waits (s.pc i) (still i lt)) [
      | inl e ↦ e
      | inr (w, below) ↦
          let (k, h, z) = find_light waits waits-le s.pc 8 (omega (arith, v.counted, v.few)) in
          elim (idle-waits (s.pc k) (still k h)) [
            | inl e ↦
                let high : n ≡ 3 = sym (v.levels k h) ∙ ap level e in
                absurd (omega (arith, below (v.fits i lt), v.levels i lt, high))
            | inr (u, b) ↦ absurd (omega (arith, u, z))
          ]
    ]

abbrev on : ℕ → Event
on i = record { thread = i; random = 0; chosen = 0 }

step-worker : (i : ℕ) (s : State) → i < 8 → step (on i) s ≡ worker 0 0 i (s.pc i) s
unfolding step
step-worker i s lt = let t : ltb i 8 ≡ true = ground arith in rw t refl

-- Either all have ended, or a thread can go on.
someone :
    (s : State)
    → Reached s
    → ((i : ℕ) → i < 8 → s.pc i ≡ finished)
      ⊎ ((e : Event) × Reached (step e s) × (total (step e s) < total s))
someone s (n, v) = elim (dec_lt 0 (weigh active s.pc 8)) [
  | no idle ↦ inl (stuck-finished n s v (omega (arith, idle)))
  | yes some_active ↦
      let (i, lt, a) = find_heavy active active-le s.pc 8 some_active in
      inr (
        on i,
        step-Reached (on i) s (n, v),
        subst (λ s'. total s' < total s) (sym (step-worker i s lt))
            (worker-lt i (s.pc i) s lt refl a (v.fits i lt)),
      )
]

-- After any schedule there is a way to go on at whose end all eight threads have ended: the barriers
-- never block them for good.
pub stages_complete :
    (es : List Event)
    → (fs : List Event) × ((i : ℕ) → i < 8 → (run step fs (run step es start)).pc i ≡ finished)
stages_complete es =
    let s = run step es start in
    let (fs, short, done) =
      run-ends step Reached (λ (t : State). (i : ℕ) → i < 8 → t.pc i ≡ finished) total someone
        (total s) s (omega arith) (run-Reached es) in
    (fs, done)
