-- ===== src/Counter/Termination.antt =====
-- With -a and with -m, the threads of atomic-add.c can always be run to their ends.
use unix_linux_prog_in_c_src.Base.{
  ℕ, zero, suc, ◌+◌, ◌-◌, ◌*◌, ◌^◌, ◌≤◌, ◌<◌, ◌≡◌, ◌≢◌, ◌⊎◌, inl, inr, refl, arith, Bool, true,
  false, List, [], ◌∷◌, ◌++◌, run, run-append, length,
}
use unix_linux_prog_in_c_src.Counter.{
  Mode, plain, Pc, head, add, lock, load, store, unlock, finished, State, start, Event, first,
  second, step,
}
use unix_linux_prog_in_c_src.Counter.Protected.{Exact, holds, bit, step-Exact, run-Exact}

-- How many steps a thread has left, at most.
abbrev pub work : ℕ → Pc → ℕ
work n (head i) = 5 * (n - i) + 1
work n (add i) = 5 * (n - i)
work n (lock i) = 5 * (n - i)
work n (load i) = 5 * (n - i) - 1
work n (store i v) = 5 * (n - i) - 2
work n (unlock i) = 5 * (n - i) - 3
work n finished = 0

abbrev pub total_work : ℕ → State → ℕ
total_work n s = work n s.t1 + work n s.t2

module _ (mode : Mode) (n : ℕ) (safe : mode ≢ plain) (small : n < 2 ^ 31) where
  abbrev ExactState : State → Type 0
  ExactState s = Exact mode n s.x s.locked s.t1 s.t2

  first-works :
      (p : Pc) (s : State)
      → s.t1 ≡ p
      → ExactState s
      → p ≢ finished
      → (s.locked ≡ false) ⊎ (holds p ≡ 1)
      → total_work n (step mode n first s) < total_work n s
  unfolding step
  first-works (head i) s e v a b = ground arith
  first-works (add i) s e v a b = ground arith
  first-works (lock i) s e v a b = ground arith
  first-works (load i) s e v a b = ground arith
  first-works (store i x) s e v a b = ground arith
  first-works (unlock i) s e v a b = ground arith
  first-works finished s e v a b = absurd (a refl)

  second-works :
      (q : Pc) (s : State)
      → s.t2 ≡ q
      → ExactState s
      → q ≢ finished
      → (s.locked ≡ false) ⊎ (holds q ≡ 1)
      → total_work n (step mode n second s) < total_work n s
  unfolding step
  second-works (head i) s e v a b = ground arith
  second-works (add i) s e v a b = ground arith
  second-works (lock i) s e v a b = ground arith
  second-works (load i) s e v a b = ground arith
  second-works (store i x) s e v a b = ground arith
  second-works (unlock i) s e v a b = ground arith
  second-works finished s e v a b = absurd (a refl)

  abbrev BothFinished : State → Type 0
  BothFinished s = (s.t1 ≡ finished) × (s.t2 ≡ finished)

  is_finished : (p : Pc) → (p ≡ finished) ⊎ (p ≢ finished)
  is_finished finished = inl refl
  is_finished _ = inr (λ e. cc)

  who_can : (s : State) → ExactState s → ((s.locked ≡ false) ⊎ (holds s.t1 ≡ 1)) ⊎ (holds s.t2 ≡ 1)
  who_can s v = free_or_held s.locked (holds s.t1) (holds s.t2) v.one_holds
    where
      free_or_held : (b : Bool) (h k : ℕ) → h + k ≡ bit b → ((b ≡ false) ⊎ (h ≡ 1)) ⊎ (k ≡ 1)
      free_or_held false h k e = inl (inl refl)
      free_or_held true zero k e = inr (omega arith)
      free_or_held true (suc h) k e = inl (inr (omega arith))

  -- A thread that brings the end nearer.
  next :
      (s : State)
      → ExactState s
      → BothFinished s ⊎ ((e : Event) × (total_work n (step mode n e s) < total_work n s))
  next s v = elim (is_finished s.t1) [
    | inl a ↦ elim (is_finished s.t2) [
      | inl b ↦ inl (a, b)
      | inr b ↦ inr (second, second-works s.t2 s refl v b (alone s.locked a v.one_holds))
    ]
    | inr a ↦ elim (who_can s v) [
      | inl can ↦ inr (first, first-works s.t1 s refl v a can)
      | inr h ↦ inr (second, second-works s.t2 s refl v (λ e. ground (arith, h, e)) (inr h))
    ]
  ]
    where
      alone :
          (b : Bool)
          → s.t1 ≡ finished
          → holds s.t1 + holds s.t2 ≡ bit b
          → (b ≡ false) ⊎ (holds s.t2 ≡ 1)
      alone false a h = inl refl
      alone true a h = inr (ground (arith, a, h))

  complete :
      (k : ℕ) (s : State)
      → ExactState s
      → total_work n s ≤ k
      → (fs : List Event) × (length fs ≤ k) × BothFinished (run (step mode n) fs s)
  unfolding run
  complete zero s v h = elim (next s v) [
    | inl ended ↦ ([], omega arith, ended)
    | inr (e, less) ↦ absurd (omega arith)
  ]
  complete (suc k) s v h = elim (next s v) [
    | inl ended ↦ ([], omega arith, ended)
    | inr (e, less) ↦
        let rest =
          complete k (step mode n e s) (step-Exact mode n safe small e s v) (omega arith) in
        (e ∷ rest.0, omega (arith, rest.1), rest.2)
  ]

-- With -a or with -m, and an argument n that is a non-negative int: every schedule can be continued
-- by at most as many steps as the threads have left, so that both threads have finished.
pub protected_finishes :
    (mode : Mode) (n : ℕ) (es : List Event)
    → mode ≢ plain
    → n < 2 ^ 31
    → (fs : List Event) × (length fs ≤ total_work n (run (step mode n) es start))
      × ((run (step mode n) (es ++ fs) start).t1 ≡ finished)
      × ((run (step mode n) (es ++ fs) start).t2 ≡ finished)
protected_finishes mode n es safe small =
    let s : State = run (step mode n) es start in
    let found =
      complete mode n safe small (total_work n s) s (run-Exact mode n safe small es)
        (omega arith) in
    let joined = run-append (step mode n) es found.0 start in
    (found.0, found.1, rw joined (found.2.0), rw joined (found.2.1))
