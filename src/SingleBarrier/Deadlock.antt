-- ===== src/SingleBarrier/Deadlock.antt =====
-- implement-barrier.c deadlocks, with any number of threads.
use unix_linux_prog_in_c_src.Base.{
  ℕ, zero, suc, ◌+◌, ◌%◌, ◌≤◌, ◌<◌, ◌≡◌, refl, arith, none, List, [], ◌∷◌, ◌++◌, run, run-append,
  replicate,
}
use native.Mathlib.Nat.{mod-eq_of_lt, add-mod_left}
use native.Mathlib.Decide.{dec_lt}
use unix_linux_prog_in_c_src.SingleBarrier.{
  say, wait, relock, State, start, Event, runs, wakes, step,
}

-- The first `k` threads arrive, and wait.
abbrev pub arrivals : ℕ → List Event
arrivals zero = []
arrivals (suc k) = arrivals k ++ replicate 4 (runs k)

-- The first `k` threads take the mutex again, find the condition true, and wait.
abbrev pub retests : ℕ → List Event
retests zero = []
retests (suc k) = retests k ++ replicate 2 (runs k)

-- All threads but the last one wait; the last one fills the round, wakes them, and is first on the
-- barrier of the next round; the others find it occupied.
abbrev pub jam : ℕ → List Event
jam zero = []
jam (suc m) = arrivals m ++ (replicate 8 (runs m) ++ retests m)

-- `k` threads have arrived.
record Arrived (k : ℕ) (s : State) : Type 0 where
  free : s.owner ≡ none
  count : s.on_barrier ≡ k
  waiting : (j : ℕ) → j < k → s.pc j ≡ wait
  outside : (j : ℕ) → k ≤ j → s.pc j ≡ say

-- The last of the `m + 1` threads is on the barrier of the next round, and `k` others are back in the
-- loop.
record Jammed (m k : ℕ) (s : State) : Type 0 where
  free : s.owner ≡ none
  count : s.on_barrier ≡ m + 2
  last : s.pc m ≡ wait
  waiting : (j : ℕ) → j < k → s.pc j ≡ wait
  woken : (j : ℕ) → k ≤ j → j < m → s.pc j ≡ relock

full_remainder : (m : ℕ) → (m + 1) % suc m ≡ 0
full_remainder m =
    let e : m + 1 ≡ suc m + 0 = omega arith in rw (e, add-mod_left, mod-eq_of_lt (zero_lt m))
  where
    zero_lt : (n : ℕ) → 0 < suc n
    zero_lt n = omega arith

next_remainder : (m : ℕ) → 0 < m → (m + 2) % suc m ≡ 1
next_remainder m h =
    let e : m + 2 ≡ suc m + 1 = omega arith in
    let b : 1 % suc m ≡ 1 = mod-eq_of_lt (omega arith) in rw (e, add-mod_left) b

module _ (m : ℕ) (some_more : 0 < m) where
  go : List Event → State → State
  go = run (step (suc m))

  arrive-Arrived :
      (k : ℕ) (s : State) → k < m → Arrived k s → Arrived (suc k) (go (replicate 4 (runs k)) s)
  unfolding go run step
  arrive-Arrived k s h v =
      let r : (k + 1) % suc m ≡ k + 1 = mod-eq_of_lt (omega arith) in
      record {
        free = ground (arith, v.free, v.count, v.outside k, r);
        count = ground (arith, v.free, v.count, v.outside k, r);
        waiting = λ j l. ground (arith, v.free, v.count, v.outside k, r, v.waiting j);
        outside = λ j l. ground (arith, v.free, v.count, v.outside k, r, v.outside j);
      }

  arrivals-Arrived : (k : ℕ) → k ≤ m → Arrived k (go (arrivals k) start)
  unfolding go run start
  arrivals-Arrived zero h = record {
    free = refl;
    count = refl;
    waiting = λ j l. absurd (omega arith);
    outside = λ j l. refl;
  }
  arrivals-Arrived (suc k) h =
      rw (run-append (step (suc m)) (arrivals k) (replicate 4 (runs k)) start)
        (arrive-Arrived k (go (arrivals k) start) h (arrivals-Arrived k (omega arith)))

  overtake-Jammed : (s : State) → Arrived m s → Jammed m 0 (go (replicate 8 (runs m)) s)
  unfolding go run step
  overtake-Jammed s v =
      let a = full_remainder m in
      let c : m + 1 + 1 ≡ m + 2 = omega arith in
      let b : (m + 1 + 1) % suc m ≡ 1 = rw c (next_remainder m some_more) in
      record {
        free = ground (arith, v.free, v.count, v.outside m, a, b);
        count = ground (arith, v.free, v.count, v.outside m, a, b);
        last = ground (arith, v.free, v.count, v.outside m, a, b);
        waiting = λ j l. absurd (omega arith);
        woken = λ j l h. ground (arith, v.free, v.count, v.outside m, a, b, v.waiting j);
      }

  retest-Jammed :
      (k : ℕ) (s : State) → k < m → Jammed m k s → Jammed m (suc k) (go (replicate 2 (runs k)) s)
  unfolding go run step
  retest-Jammed k s h v =
      let b = next_remainder m some_more in
      record {
        free = ground (arith, v.free, v.count, v.woken k, b);
        count = ground (arith, v.free, v.count, v.woken k, b);
        last = ground (arith, v.free, v.count, v.woken k, v.last, b);
        waiting = λ j l. ground (arith, v.free, v.count, v.woken k, b, v.waiting j);
        woken = λ j l h. ground (arith, v.free, v.count, v.woken k, b, v.woken j);
      }

  retests-Jammed : (k : ℕ) (s : State) → k ≤ m → Jammed m 0 s → Jammed m k (go (retests k) s)
  unfolding go run
  retests-Jammed zero s h v = v
  retests-Jammed (suc k) s h v =
      rw (run-append (step (suc m)) (retests k) (replicate 2 (runs k)) s)
        (retest-Jammed k (go (retests k) s) h (retests-Jammed k s (omega arith) v))

  jam-Jammed : Jammed m m (run (step (suc m)) (jam (suc m)) start)
  unfolding go
  jam-Jammed =
      rw
        (
          run-append (step (suc m)) (arrivals m) (replicate 8 (runs m) ++ retests m) start,
          run-append (step (suc m)) (replicate 8 (runs m)) (retests m) (go (arrivals m) start),
        )
        (retests-Jammed m _ (omega arith)
          (overtake-Jammed (go (arrivals m) start) (arrivals-Arrived m (omega arith))))

-- The schedule has no wakeup for no reason.
abbrev pub NoSpuriousWakeup : List Event → Type 0
NoSpuriousWakeup [] = Unit
NoSpuriousWakeup (runs i ∷ es) = NoSpuriousWakeup es
NoSpuriousWakeup (wakes i ∷ es) = ⊥

abbrev AllWait : ℕ → State → Type 0
AllWait max s = (i : ℕ) → i < max → s.pc i ≡ wait

stays : (max : ℕ) (i : ℕ) (s : State) → AllWait max s → AllWait max (step max (runs i) s)
unfolding step
stays max i s w j l = elim (dec_lt i max) [
  | yes inside ↦ ground (arith, w i inside, w j l)
  | no out ↦ ground (arith, w j l)
]

stay_on :
    (max : ℕ) (es : List Event) (s : State)
    → NoSpuriousWakeup es
    → AllWait max s
    → AllWait max (run (step max) es s)
unfolding run
stay_on max [] s n w = w
stay_on max (runs i ∷ es) s n w = stay_on max es (step max (runs i) s) n (stays max i s w)
stay_on max (wakes i ∷ es) s n w = absurd n

-- With any number of threads from 2 on, there is a schedule after which every thread is blocked in
-- pthread_cond_wait, and stays so whatever follows, unless a thread wakes up for no reason.
pub single_barrier_deadlocks :
    (max : ℕ) (es : List Event) (i : ℕ)
    → 1 < max
    → NoSpuriousWakeup es
    → i < max
    → (run (step max) es (run (step max) (jam max) start)).pc i ≡ wait
single_barrier_deadlocks zero es i h n lt = absurd (omega arith)
single_barrier_deadlocks (suc m) es i h n lt =
    stay_on (suc m) es (run (step (suc m)) (jam (suc m)) start) n all_wait i lt
  where
    v : Jammed m m (run (step (suc m)) (jam (suc m)) start)
    v = jam-Jammed m (omega arith)

    all_wait : AllWait (suc m) (run (step (suc m)) (jam (suc m)) start)
    all_wait j l = elim (dec_lt j m) [
      | yes below ↦ v.waiting j below
      | no rest ↦ let e : j ≡ m = omega arith in rw e v.last
    ]
