-- ===== src/Counter/Lost.antt =====
-- With neither -a nor -m atomic-add.c can lose all additions of a thread; and with a negative
-- argument it reports a race that did not happen.
use unix_linux_prog_in_c_src.Base.{
  ℕ, zero, suc, ◌+◌, ◌-◌, ◌*◌, ◌%◌, ◌^◌, ◌≤◌, ◌<◌, ◌≡◌, ◌≢◌, ◌⊎◌, arith, List, [], ◌∷◌, ◌++◌, run,
  run-append, ◌∙◌, subst, run-keeps,
}
use unix_linux_prog_in_c_src.Counter.{
  Mode, plain, head, store, finished, State, start, Event, first, second, step, race_detected,
  verdict,
}
use unix_linux_prog_in_c_src.Counter.Sum.{
  sum_below, sum_below-add_one, sum_below-closed, expected-eq,
}

-- `m` rounds of one thread, with no step of the other between.
abbrev pub rounds : Event → ℕ → List Event
rounds e zero = []
rounds e (suc m) = e ∷ e ∷ e ∷ rounds e m

-- The first thread loads the number; the second one runs to its end; then the first one goes on.
abbrev pub overtaken : ℕ → List Event
overtaken n =
    (first ∷ first ∷ [])
    ++ (rounds second (n - 1) ++ ((second ∷ first ∷ []) ++ (rounds first (n - 2) ++ (first ∷ []))))

record SecondAt (i : ℕ) (s : State) : Type 0 where
  added : s.x ≡ sum_below i % 2 ^ 32
  here : s.t2 ≡ head i
  other : s.t1 ≡ store 1 0

record FirstAt (i : ℕ) (s : State) : Type 0 where
  added : s.x ≡ sum_below i % 2 ^ 32
  here : s.t1 ≡ head i
  other : s.t2 ≡ finished

module _ (n : ℕ) (small : n < 2 ^ 31) where
  second_round :
      (i : ℕ) (s : State)
      → i < n
      → SecondAt i s
      → SecondAt (i + 1) (run (step plain n) (rounds second 1) s)
  unfolding run step
  second_round i s h v = ground (arith, sum_below-add_one i)

  first_round :
      (i : ℕ) (s : State)
      → i < n
      → FirstAt i s
      → FirstAt (i + 1) (run (step plain n) (rounds first 1) s)
  unfolding run step
  first_round i s h v = ground (arith, sum_below-add_one i)

  second_rounds :
      (m i : ℕ) (s : State)
      → i + m ≤ n
      → SecondAt i s
      → SecondAt (i + m) (run (step plain n) (rounds second m) s)
  unfolding run
  second_rounds zero i s h v = let e : i + 0 ≡ i = omega arith in rw e v
  second_rounds (suc m) i s h v =
      let e : i + suc m ≡ i + 1 + m = omega arith in
      rw e (
        second_rounds m (i + 1) (run (step plain n) (rounds second 1) s) (omega arith)
          (second_round i s (omega arith) v))

  first_rounds :
      (m i : ℕ) (s : State)
      → i + m ≤ n
      → FirstAt i s
      → FirstAt (i + m) (run (step plain n) (rounds first m) s)
  unfolding run
  first_rounds zero i s h v = let e : i + 0 ≡ i = omega arith in rw e v
  first_rounds (suc m) i s h v =
      let e : i + suc m ≡ i + 1 + m = omega arith in
      rw e (
        first_rounds m (i + 1) (run (step plain n) (rounds first 1) s) (omega arith)
          (first_round i s (omega arith) v))

  start-SecondAt : 2 ≤ n → SecondAt 1 (run (step plain n) (first ∷ first ∷ []) start)
  unfolding run step start sum_below
  start-SecondAt h = ground arith

  turn_over : (s : State) → SecondAt n s → FirstAt 2 (run (step plain n) (second ∷ first ∷ []) s)
  unfolding run step sum_below
  turn_over s v = ground arith

  last_step :
      (s : State)
      → FirstAt n s
      → let s' = run (step plain n) (first ∷ []) s in
        (s'.x ≡ sum_below n % 2 ^ 32) × (s'.t1 ≡ finished) × (s'.t2 ≡ finished)
  unfolding run step
  last_step s v = ground arith

  overtaken_lem :
      2 ≤ n
      → let s = run (step plain n) (overtaken n) start in
        (s.x ≡ sum_below n % 2 ^ 32) × (s.t1 ≡ finished) × (s.t2 ≡ finished)
  overtaken_lem h = rw joined (last_step s4 v4)
    where
      go : List Event → State → State
      go = run (step plain n)

      s1 : State
      s1 = go (first ∷ first ∷ []) start

      s2 : State
      s2 = go (rounds second (n - 1)) s1

      s3 : State
      s3 = go (second ∷ first ∷ []) s2

      s4 : State
      s4 = go (rounds first (n - 2)) s3

      v2 : SecondAt n s2
      v2 =
          let e : 1 + (n - 1) ≡ n = omega arith in
          subst (λ k. SecondAt k s2) e (second_rounds (n - 1) 1 s1 (omega arith) (start-SecondAt h))

      v4 : FirstAt n s4
      v4 =
          let e : 2 + (n - 2) ≡ n = omega arith in
          subst (λ k. FirstAt k s4) e (first_rounds (n - 2) 2 s3 (omega arith) (turn_over s2 v2))

      joined : run (step plain n) (overtaken n) start ≡ go (first ∷ []) s4
      joined =
          run-append (step plain n) (first ∷ first ∷ []) _ start
          ∙ run-append (step plain n) (rounds second (n - 1)) _ s1
          ∙ run-append (step plain n) (second ∷ first ∷ []) _ s2
          ∙ run-append (step plain n) (rounds first (n - 2)) _ s3

bound : (n : ℕ) → 2 ≤ n → n < 2 ^ 16 → (0 < sum_below n) × (sum_below n < 2 ^ 31)
bound n h k = (grind (arith, sum_below-closed n), grind (arith, sum_below-closed n))

-- With no option, and an argument n from 2 to 2^16 - 1, there is a schedule at whose end both threads
-- have finished, all that the second thread added is lost, and `main` reports a race.
pub plain_loses :
    (n : ℕ)
    → 2 ≤ n
    → n < 2 ^ 16
    → let s = run (step plain n) (overtaken n) start in
      (s.t1 ≡ finished) × (s.t2 ≡ finished) × (s.x ≡ sum_below n) × (verdict s.x n ≡ race_detected)
unfolding verdict
plain_loses n h k = ground (arith, overtaken_lem n (omega arith) h, bound n h k, expected-eq n)

-- A thread that reads a negative number makes no round.
record Idle (s : State) : Type 0 where
  nothing : s.x ≡ 0
  idle_1 : (s.t1 ≡ head 1) ⊎ (s.t1 ≡ finished)
  idle_2 : (s.t2 ≡ head 1) ⊎ (s.t2 ≡ finished)

step-Idle :
    (mode : Mode) (n : ℕ) → 2 ^ 31 ≤ n → (e : Event) (s : State) → Idle s → Idle (step mode n e s)
unfolding step
step-Idle mode n h first s v = ground arith
step-Idle mode n h second s v = ground arith

start-Idle : Idle start
unfolding start
start-Idle = ground arith

-- With any option, and an argument whose bit pattern n is that of a negative int, no thread adds
-- anything; yet `main`, which reads the argument as an unsigned number, reports a race, unless
-- n * n - n is a multiple of 2^32.
pub negative_false_alarm :
    (mode : Mode) (n : ℕ) (es : List Event)
    → 2 ^ 31 ≤ n
    → (n * n - n) % 2 ^ 32 ≢ 0
    → let s = run (step mode n) es start in (s.x ≡ 0) × (verdict s.x n ≡ race_detected)
unfolding verdict
negative_false_alarm mode n es h k =
    let v = run-keeps Idle (step mode n) (step-Idle mode n h) es start start-Idle in
    ground (arith, v, expected-eq n, sum_below-closed n)
