-- ===== src/Stages/Together.antt =====
-- The threads of pthread-barrier.c go through the stages together.
use unix_linux_prog_in_c_src.Base.{
  ℕ, zero, suc, ◌+◌, ◌%◌, ◌≤◌, ◌<◌, ◌≡◌, ◌≢◌, ◌⊎◌, inl, inr, refl, sym, ◌∙◌, arith, if-cases, List,
  ◌∷◌, ltb, ◌==◌, run, run-keeps,
}
use unix_linux_prog_in_c_src.Base.Family.{put, put-all, weigh, weigh-put, weigh-zero, weigh-two}
use unix_linux_prog_in_c_src.Stages.{
  Pc, choose, loop, reach, waiting, passed, finished, Line, State, start, go, let_go, worker, Event,
  step,
}

-- How many barriers a thread has passed.
abbrev pub level : Pc → ℕ
level (choose j) = j
level (loop j left) = j
level (reach j) = j
level (waiting j) = j
level (passed j last) = j + 1
level finished = 3

abbrev pub waits : Pc → ℕ
waits (waiting j) = 1
waits (choose j) = 0
waits (loop j left) = 0
waits (reach j) = 0
waits (passed j last) = 0
waits finished = 0

pub waits-le : (p : Pc) → waits p ≤ 1
waits-le (waiting j) = omega arith
waits-le _ = omega arith

-- The stage is one of the three.
abbrev pub Fits : Pc → Type 0
Fits (choose j) = j < 3
Fits (loop j left) = j < 3
Fits (reach j) = j < 3
Fits (waiting j) = j < 3
Fits (passed j last) = j < 3
Fits finished = Unit

-- All threads have passed `n` barriers.
pub record Inv (n : ℕ) (s : State) : Type 0 where
  pub counted : s.blocked ≡ weigh waits s.pc 8
  pub few : s.blocked < 8
  pub levels : (i : ℕ) → i < 8 → level (s.pc i) ≡ n
  pub fits : (i : ℕ) → i < 8 → Fits (s.pc i)

-- A thread that does not wait goes on.
go-Inv :
    (n i : ℕ) (p : Pc) (lines : List Line) (s : State)
    → i < 8
    → waits (s.pc i) ≡ 0
    → waits p ≡ 0
    → level p ≡ n
    → Fits p
    → Inv n s
    → Inv n (go i p (record s { printed = lines }))
go-Inv n i p lines s lt w u l f v = record {
  counted = omega (arith, weigh-put waits s.pc i p 8 lt, v.counted, w, u);
  few = v.few;
  levels = put-all (λ k q. level q ≡ n) 8 s.pc i p l (λ j h ne. v.levels j h);
  fits = put-all (λ k q. Fits q) 8 s.pc i p f (λ j h ne. v.fits j h);
}

arrive-Inv :
    (n i j : ℕ) (s : State)
    → i < 8
    → waits (s.pc i) ≡ 0
    → s.blocked + 1 ≢ 8
    → j ≡ n
    → j < 3
    → Inv n s
    → Inv n (go i (waiting j) (record s { blocked = s.blocked + 1 }))
arrive-Inv n i j s lt w ne l f v = record {
  counted = omega (arith, weigh-put waits s.pc i (waiting j) 8 lt, v.counted, w);
  few = omega (arith, v.few, ne);
  levels = put-all (λ k q. level q ≡ n) 8 s.pc i (waiting j) l (λ k h ne. v.levels k h);
  fits = put-all (λ k q. Fits q) 8 s.pc i (waiting j) f (λ k h ne. v.fits k h);
}

let_go-waiting :
    (serial k n : ℕ) (p : Pc)
    → waits p ≡ 1
    → level p ≡ n
    → Fits p
    → let q = let_go serial k p in (waits q ≡ 0) × (level q ≡ n + 1) × Fits q
let_go-waiting serial k n (waiting j) w l f = (refl, omega (arith, l), f)
let_go-waiting serial k n _ w l f = absurd (omega (arith, w))

-- Where one thread is missing, all others wait.
pub others_wait :
    (n i : ℕ) (s : State)
    → i < 8
    → waits (s.pc i) ≡ 0
    → s.blocked + 1 ≡ 8
    → Inv n s
    → (k : ℕ) → k < 8
    → k ≢ i
    → waits (s.pc k) ≡ 1
others_wait n i s lt w e v k h ne = omega (
  arith,
  weigh-two waits waits-le s.pc i k 8 lt h (λ t. ne (sym t)),
  waits-le (s.pc k),
  v.counted,
  w,
  e,
)

pub free-Inv :
    (n serial i j : ℕ) (s : State)
    → i < 8
    → waits (s.pc i) ≡ 0
    → s.blocked + 1 ≡ 8
    → j ≡ n
    → j < 3
    → Inv n s
    → Inv (n + 1) (record s { blocked = 0; pc = λ k. let_go serial k (put i (waiting j) s.pc k) })
free-Inv n serial i j s lt w e l f v =
    let all : (k : ℕ)
        → k < 8
        → let p = put i (waiting j) s.pc k in (waits p ≡ 1) × (level p ≡ n) × Fits p =
      put-all (λ k p. (waits p ≡ 1) × (level p ≡ n) × Fits p) 8 s.pc i (waiting j) (refl, l, f)
        (λ k h ne. (others_wait n i s lt w e v k h ne, v.levels k h, v.fits k h)) in
    let freed : (k : ℕ)
        → k < 8
        → let q = let_go serial k (put i (waiting j) s.pc k) in
          (waits q ≡ 0) × (level q ≡ n + 1) × Fits q =
      λ k h.
        let (a, b, c) = all k h in let_go-waiting serial k n (put i (waiting j) s.pc k) a b c in
    record {
      counted = sym (
          weigh-zero waits (λ k. let_go serial k (put i (waiting j) s.pc k)) 8
            (λ k h. (freed k h).0));
      few = omega arith;
      levels = λ k h. (freed k h).1;
      fits = λ k h. (freed k h).2;
    }

-- All threads have passed as many barriers as before, or one more.
abbrev On : ℕ → State → Type 0
On n s = Inv n s ⊎ Inv (n + 1) s

worker-On :
    (n r serial i : ℕ) (p : Pc) (s : State)
    → i < 8
    → s.pc i ≡ p
    → level p ≡ n
    → Fits p
    → Inv n s
    → On n (worker r serial i p s)
unfolding worker
worker-On n r serial i (choose j) s lt e l f v =
    inl (go-Inv n i (loop j (r % 5)) s.printed s lt (rw e refl) refl l f v)
worker-On n r serial i (loop j zero) s lt e l f v =
    inl (go-Inv n i (reach j) s.printed s lt (rw e refl) refl l f v)
worker-On n r serial i (loop j (suc left)) s lt e l f v =
    inl (go-Inv n i (loop j left) s.printed s lt (rw e refl) refl l f v)
worker-On n r serial i (reach j) s lt e l f v =
    if-cases (On n) (s.blocked + 1 == 8)
      (record s { blocked = 0; pc = λ k. let_go serial k (put i (waiting j) s.pc k) })
      (go i (waiting j) (record s { blocked = s.blocked + 1 }))
      (λ t. inr (free-Inv n serial i j s lt (rw e refl) (ground (arith, t)) l f v))
      (λ t. inl (arrive-Inv n i j s lt (rw e refl) (ground (arith, t)) l f v))
worker-On n r serial i (waiting j) s lt e l f v = inl v
worker-On n r serial i (passed j last) s lt e l f v =
    let lines : List Line = record { stage = j; id = i; last = last } ∷ s.printed in
    if-cases (λ (p : Pc). On n (go i p (record s { printed = lines }))) (ltb (j + 1) 3)
      (choose (j + 1)) finished
      (λ t. inl (go-Inv n i (choose (j + 1)) lines s lt (rw e refl) refl l (ground (arith, t)) v))
      (λ t. inl (go-Inv n i finished lines s lt (rw e refl) refl (ground (arith, t, l, f)) tt v))
worker-On n r serial i finished s lt e l f v = inl v

step-On : (n : ℕ) (e : Event) (s : State) → Inv n s → On n (step e s)
unfolding step
step-On n e s v =
    if-cases (On n) (ltb e.thread 8) (worker e.random (e.chosen % 8) e.thread (s.pc e.thread) s) s
      (λ t.
        let lt : e.thread < 8 = ground (arith, t) in
        worker-On n e.random (e.chosen % 8) e.thread (s.pc e.thread) s lt refl
          (v.levels e.thread lt) (v.fits e.thread lt) v)
      (λ t. inl v)

abbrev pub Reached : State → Type 0
Reached s = (n : ℕ) × Inv n s

pub step-Reached : (e : Event) (s : State) → Reached s → Reached (step e s)
step-Reached e s (n, v) = elim (step-On n e s v) [ inl u ↦ (n, u) | inr u ↦ (n + 1, u) ]

start-Inv : Inv 0 start
unfolding start
start-Inv = record {
  counted = sym (weigh-zero waits (λ k. choose 0) 8 (λ k h. refl));
  few = omega arith;
  levels = λ i h. refl;
  fits = λ i h. omega arith;
}

pub start-Reached : Reached start
start-Reached = (0, start-Inv)

pub run-Reached : (es : List Event) → Reached (run step es start)
run-Reached es = run-keeps Reached step step-Reached es start start-Reached

-- After any schedule, all eight threads have passed the same number of barriers: none starts a stage
-- before all have come to the end of the one before.
pub stages_together :
    (es : List Event) (i k : ℕ)
    → i < 8
    → k < 8
    → level ((run step es start).pc i) ≡ level ((run step es start).pc k)
stages_together es i k h l = let (n, v) = run-Reached es in v.levels i h ∙ sym (v.levels k l)
