-- ===== src/Counter/Protected.antt =====
-- With -a and with -m, atomic-add.c loses no addition.
use unix_linux_prog_in_c_src.Base.{
  ℕ, ◌+◌, ◌*◌, ◌%◌, ◌^◌, ◌≤◌, ◌<◌, ◌≡◌, ◌≢◌, ◌⊎◌, refl, arith, Bool, true, false, List, run,
  run-keeps,
}
use unix_linux_prog_in_c_src.Counter.{
  Mode, atomic, mutexed, plain, Pc, head, add, lock, load, store, unlock, finished, Local, count,
  State, start, Event, first, second, step, everything_ok, verdict,
}
use unix_linux_prog_in_c_src.Counter.Sum.{sum_below, sum_below-add_one, expected-eq}

-- What a thread has added so far, when it adds up to `n`.
abbrev pub added : ℕ → Pc → ℕ
added n (head i) = sum_below i
added n (add i) = sum_below i
added n (lock i) = sum_below i
added n (load i) = sum_below i
added n (store i v) = sum_below i
added n (unlock i) = sum_below (i + 1)
added n finished = sum_below n

abbrev pub holds : Pc → ℕ
holds (head i) = 0
holds (add i) = 0
holds (lock i) = 0
holds (load i) = 1
holds (store i v) = 1
holds (unlock i) = 1
holds finished = 0

-- At the head of the loop `i` is at most `n`, but for `n` = 0, where the loop makes no round.
abbrev pub Within : Mode → ℕ → ℕ → Pc → Type 0
Within mode n x (head i) = (i ≤ n) ⊎ ((i ≡ 1) × (n ≡ 0))
Within mode n x (add i) = (i < n) × (mode ≡ atomic)
Within mode n x (lock i) = (i < n) × (mode ≡ mutexed)
Within mode n x (load i) = (i < n) × (mode ≡ mutexed)
Within mode n x (store i v) = (i < n) × (v ≡ x) × (mode ≡ mutexed)
Within mode n x (unlock i) = (i < n)
Within mode n x finished = Unit

abbrev pub bit : Bool → ℕ
bit true = 1
bit false = 0

-- Between a thread at `p` and the other one at `q`.
pub record Exact (mode : Mode) (n x : ℕ) (locked : Bool) (p q : Pc) : Type 0 where
  pub one_holds : holds p + holds q ≡ bit locked
  pub total : x ≡ (added n p + added n q) % 2 ^ 32
  pub within_p : Within mode n x p
  pub within_q : Within mode n x q

swap : {mode : Mode} {n x : ℕ} {b : Bool} {p q : Pc} → Exact mode n x b p q → Exact mode n x b q p
swap v = ground (arith, v)

module _ (mode : Mode) (n : ℕ) (safe : mode ≢ plain) (small : n < 2 ^ 31) where
  sum_below-one : sum_below 1 ≡ sum_below 0
  unfolding sum_below
  sum_below-one = refl

  count-Exact :
      (pc q : Pc) (l : Local)
      → l.pc ≡ pc
      → Exact mode n l.x l.locked l.pc q
      → let l' = count mode n pc l in Exact mode n l'.x l'.locked l'.pc q
  unfolding count
  count-Exact (head i) q l e v = ground (arith, sum_below-one)
  count-Exact (add i) q l e v = ground (arith, sum_below-add_one i)
  count-Exact (lock i) q l e v = ground arith
  count-Exact (load i) q l e v = ground arith
  count-Exact (store i x) q l e v = ground (arith, sum_below-add_one i)
  count-Exact (unlock i) q l e v = ground arith
  count-Exact finished q l e v = ground arith

  pub step-Exact :
      (e : Event) (s : State)
      → Exact mode n s.x s.locked s.t1 s.t2
      → let s' = step mode n e s in Exact mode n s'.x s'.locked s'.t1 s'.t2
  unfolding step
  step-Exact first s v =
      count-Exact s.t1 s.t2 (record { x = s.x; locked = s.locked; pc = s.t1 }) refl v
  step-Exact second s v =
      swap (count-Exact s.t2 s.t1 (record { x = s.x; locked = s.locked; pc = s.t2 }) refl (swap v))

  start-Exact : Exact mode n start.x start.locked start.t1 start.t2
  unfolding start sum_below
  start-Exact = ground arith

  pub run-Exact :
      (es : List Event) → let s = run (step mode n) es start in Exact mode n s.x s.locked s.t1 s.t2
  run-Exact es =
      run-keeps (λ s. Exact mode n s.x s.locked s.t1 s.t2) (step mode n) step-Exact es start
        start-Exact

-- With -a or with -m, and an argument n that is a non-negative int: after any schedule at whose end
-- both threads have finished, the shared number is twice the sum of 1, ..., n - 1, modulo 2^32, and
-- `main` reports that there was no race.
pub protected_exact :
    (mode : Mode) (n : ℕ) (es : List Event)
    → mode ≢ plain
    → n < 2 ^ 31
    → (run (step mode n) es start).t1 ≡ finished
    → (run (step mode n) es start).t2 ≡ finished
    → let s = run (step mode n) es start in
      (s.x ≡ 2 * sum_below n % 2 ^ 32) × (verdict s.x n ≡ everything_ok)
unfolding verdict
protected_exact mode n es safe small e f =
    let v = run-Exact mode n safe small es in ground (arith, v, expected-eq n)
