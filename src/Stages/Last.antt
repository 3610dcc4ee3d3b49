-- ===== src/Stages/Last.antt =====
-- At each barrier of pthread-barrier.c one thread is the last.
use unix_linux_prog_in_c_src.Base.{
  ℕ, zero, suc, ◌+◌, ◌%◌, ◌<◌, ◌≡◌, ◌⊎◌, inl, inr, refl, ap, ◌∙◌, subst, arith, Bool, true, false,
  if-cases, Bool-cases, List, [], ◌∷◌, ltb, ◌==◌, run, run-keeps, ◌&&◌,
}
use unix_linux_prog_in_c_src.Base.Family.{put, put-all, weigh, weigh-put, weigh-zero, weigh-single}
use unix_linux_prog_in_c_src.Stages.{
  Pc, choose, loop, reach, waiting, passed, finished, Line, State, start, go, let_go, head, worker,
  Event, step,
}
use unix_linux_prog_in_c_src.Stages.Together.{
  level, waits, Fits, Inv, Reached, step-Reached, start-Reached, others_wait, free-Inv,
}

abbrev one_if : Bool → ℕ
one_if true = 1
one_if false = 0

-- The lines that say "[last]" behind the barrier of a stage.
unfoldable pub lasts : (j : ℕ) → List Line → ℕ
lasts j [] = 0
lasts j (line ∷ lines) = one_if (line.last && (line.stage == j)) + lasts j lines

-- A thread that has yet to print such a line.
abbrev pending : (j : ℕ) → Pc → ℕ
pending j (passed k last) = one_if (last && (k == j))
pending j (choose k) = 0
pending j (loop k left) = 0
pending j (reach k) = 0
pending j (waiting k) = 0
pending j finished = 0

-- When all threads have passed `n` barriers.
abbrev CountedAt : ℕ → ℕ → State → Type 0
CountedAt j n s = weigh (pending j) s.pc 8 + lasts j s.printed ≡ one_if (ltb j n)

abbrev Counted : ℕ → State → Type 0
Counted j s = CountedAt j (level (s.pc 0)) s

waits-pending : (j : ℕ) (p : Pc) → waits p ≡ 1 → pending j p ≡ 0
waits-pending j (waiting k) w = refl
waits-pending j _ w = absurd (omega (arith, w))

let_go-pending :
    (j n serial k : ℕ) (p : Pc)
    → waits p ≡ 1
    → level p ≡ n
    → pending j (let_go serial k p) ≡ one_if ((serial == k) && (n == j))
let_go-pending j n serial k (waiting m) w l = ap (λ (x : ℕ). one_if ((serial == k) && (x == j))) l
let_go-pending j n serial k _ w l = absurd (omega (arith, w))

-- The threads that have been let go.
free-pending :
    (j n serial : ℕ) (f : ℕ → Pc)
    → serial < 8
    → ((k : ℕ) → k < 8 → (waits (f k) ≡ 1) × (level (f k) ≡ n))
    → weigh (pending j) (λ k. let_go serial k (f k)) 8 ≡ one_if (n == j)
free-pending j n serial f lt h =
    let each : (k : ℕ)
        → k < 8
        → pending j (let_go serial k (f k)) ≡ one_if ((serial == k) && (n == j)) =
      λ k l. let_go-pending j n serial k (f k) (h k l).0 (h k l).1 in
    if-cases (λ (m : ℕ). weigh (pending j) (λ k. let_go serial k (f k)) 8 ≡ m) (n == j) 1 0
      (λ t.
        weigh-single (pending j) (λ k. let_go serial k (f k)) serial 8 lt
          (each serial lt ∙ ground (arith, t)) (λ k l ne. each k l ∙ ground (arith, t, ne)))
      (λ t.
        weigh-zero (pending j) (λ k. let_go serial k (f k)) 8 (λ k l. each k l ∙ ground (arith, t)))
    ∙ ground arith

-- A state of level `n`, with its count.
abbrev Good : ℕ → ℕ → State → Type 0
Good j n s = (level (s.pc 0) ≡ n) × CountedAt j n s

module _ (j n i : ℕ) (s : State) (lt : i < 8) (v : Inv n s) (c : CountedAt j n s) where
  go-Good :
      (p : Pc) (lines : List Line) (b : ℕ)
      → level p ≡ n
      → pending j p + lasts j lines ≡ pending j (s.pc i) + lasts j s.printed
      → Good j n (go i p (record s { printed = lines; blocked = b }))
  go-Good p lines b l h = (
    put-all (λ k q. level q ≡ n) 8 s.pc i p l (λ k u ne. v.levels k u) 0 (omega arith),
    omega (arith, weigh-put (pending j) s.pc i p 8 lt, h, c),
  )

  none_pending :
      waits (s.pc i) ≡ 0 → pending j (s.pc i) ≡ 0 → s.blocked + 1 ≡ 8 → weigh (pending j) s.pc 8 ≡ 0
  none_pending w d e = weigh-zero (pending j) s.pc 8 (λ k h. elim (Bool-cases (k == i)) [
    | inl t ↦ let same : k ≡ i = ground (arith, t) in rw same d
    | inr t ↦ waits-pending j (s.pc k) (others_wait n i s lt w e v k h (ground (arith, t)))
  ])

  free-Good :
      (serial m : ℕ)
      → serial < 8
      → waits (s.pc i) ≡ 0
      → pending j (s.pc i) ≡ 0
      → s.blocked + 1 ≡ 8
      → m ≡ n
      → m < 3
      → Good j
          (n + 1)
          (record s { blocked = 0; pc = λ k. let_go serial k (put i (waiting m) s.pc k) })
  free-Good serial m below w d e l f =
      let all : (k : ℕ)
          → k < 8
          → let p = put i (waiting m) s.pc k in (waits p ≡ 1) × (level p ≡ n) =
        put-all (λ k p. (waits p ≡ 1) × (level p ≡ n)) 8 s.pc i (waiting m) (refl, l)
          (λ k h ne. (others_wait n i s lt w e v k h ne, v.levels k h)) in
      let freed = free-pending j n serial (put i (waiting m) s.pc) below all in
      let none = none_pending w d e in
      (
        (free-Inv n serial i m s lt w e l f v).levels 0 (omega arith),
        ground (arith, freed, none, c),
      )

level-head : (k n : ℕ) → k < 3 → k + 1 ≡ n → level (head (k + 1)) ≡ n
level-head k n f l =
    if-cases (λ (p : Pc). level p ≡ n) (ltb (k + 1) 3) (choose (k + 1)) finished (λ t. l)
      (λ t. ground (arith, t, f, l))

pending-head : (j k : ℕ) → pending j (head k) ≡ 0
pending-head j k =
    if-cases (λ (p : Pc). pending j p ≡ 0) (ltb k 3) (choose k) finished (λ t. refl) (λ t. refl)

module _ (j n i : ℕ) where
  worker-Good :
      (r serial : ℕ) (p : Pc) (s : State)
      → i < 8
      → serial < 8
      → s.pc i ≡ p
      → level p ≡ n
      → Fits p
      → Inv n s
      → CountedAt j n s
      → Good j n (worker r serial i p s) ⊎ Good j (n + 1) (worker r serial i p s)
  unfolding worker lasts
  worker-Good r serial (choose k) s lt below e l f v c =
      inl (go-Good j n i s lt v c (loop k (r % 5)) s.printed s.blocked l (rw e refl))
  worker-Good r serial (loop k zero) s lt below e l f v c =
      inl (go-Good j n i s lt v c (reach k) s.printed s.blocked l (rw e refl))
  worker-Good r serial (loop k (suc left)) s lt below e l f v c =
      inl (go-Good j n i s lt v c (loop k left) s.printed s.blocked l (rw e refl))
  worker-Good r serial (reach k) s lt below e l f v c =
      if-cases (λ (s' : State). Good j n s' ⊎ Good j (n + 1) s') (s.blocked + 1 == 8)
        (record s { blocked = 0; pc = λ m. let_go serial m (put i (waiting k) s.pc m) })
        (go i (waiting k) (record s { blocked = s.blocked + 1 }))
        (λ t.
          inr (
            free-Good j n i s lt v c serial k below (rw e refl) (rw e refl) (ground (arith, t)) l
              f))
        (λ t. inl (go-Good j n i s lt v c (waiting k) s.printed (s.blocked + 1) l (rw e refl)))
  worker-Good r serial (waiting k) s lt below e l f v c = inl (v.levels 0 (omega arith), c)
  worker-Good r serial (passed k last) s lt below e l f v c =
      let lines : List Line = record { stage = k; id = i; last = last } ∷ s.printed in
      let none : pending j (head (k + 1)) ≡ 0 = pending-head j (k + 1) in
      inl (
        go-Good j n i s lt v c (head (k + 1)) lines s.blocked (level-head k n f l)
          (rw e (omega (arith, none))))
  worker-Good r serial finished s lt below e l f v c = inl (v.levels 0 (omega arith), c)

-- What is kept: the invariant, and the count for the stage.
abbrev Kept : ℕ → State → Type 0
Kept j s = Reached s × Counted j s

step-Counted : (j n : ℕ) (e : Event) (s : State) → Inv n s → CountedAt j n s → Counted j (step e s)
unfolding step
step-Counted j n e s v c =
    if-cases (Counted j) (ltb e.thread 8)
      (worker e.random (e.chosen % 8) e.thread (s.pc e.thread) s) s
      (λ t.
        let lt : e.thread < 8 = ground (arith, t) in
        elim (worker-Good j n e.thread e.random (e.chosen % 8) (s.pc e.thread) s lt (omega arith)
          refl (v.levels e.thread lt) (v.fits e.thread lt) v c) [
            | inl (l, d) ↦ rw l d
            | inr (l, d) ↦ rw l d
          ])
      (λ t. rw (v.levels 0 (omega arith)) c)

step-Kept : (j : ℕ) (e : Event) (s : State) → Kept j s → Kept j (step e s)
step-Kept j e s ((n, v), c) =
    let same : level (s.pc 0) ≡ n = v.levels 0 (omega arith) in
    (step-Reached e s (n, v), step-Counted j n e s v (subst (λ m. CountedAt j m s) same c))

start-Counted : (j : ℕ) → Counted j start
unfolding start lasts
start-Counted j =
    let none : weigh (pending j) (λ k. choose 0) 8 ≡ 0 =
      weigh-zero (pending j) (λ k. choose 0) 8 (λ k h. refl) in
    ground (arith, none)

-- After any schedule at whose end all eight threads have ended, whichever threads the barrier has
-- chosen: exactly one line "[last]" has been printed for each stage.
pub one_last :
    (es : List Event) (j : ℕ)
    → j < 3
    → ((i : ℕ) → i < 8 → (run step es start).pc i ≡ finished)
    → lasts j (run step es start).printed ≡ 1
one_last es j lt all =
    let s = run step es start in
    let v = run-keeps (Kept j) step (step-Kept j) es start (start-Reached, start-Counted j) in
    let none : weigh (pending j) s.pc 8 ≡ 0 =
      weigh-zero (pending j) s.pc 8 (λ k h. ap (pending j) (all k h)) in
    let top : level (s.pc 0) ≡ 3 = ap level (all 0 (omega arith)) in
    let c : CountedAt j 3 s = subst (λ m. CountedAt j m s) top v.1 in ground (arith, none, c, lt)
