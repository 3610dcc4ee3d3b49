-- ===== src/Queue/Progress.antt =====
-- That queue-simulation.c does not hang: no wakeup is lost, the producer and the consumer never
-- sleep together, and a sleeping thread is woken by the other one. With a capacity of 0 they do hang.
use unix_linux_prog_in_c_src.Base.{
  ℕ, ◌≤◌, ◌<◌, ◌≡◌, ◌≢◌, ◌⊎◌, inl, inr, false, Option, some, List, [], ◌∷◌, refl, arith, run,
  replicate,
}
use unix_linux_prog_in_c_src.Queue.{
  Pc, poll, lock, test, wait, relock, change, notify, unlock, MainPc, main_lock, State, start,
  Event, producer_runs, consumer_runs, main_runs, producer_wakes, consumer_wakes, produce, consume,
  print, step, ℤ, pos,
}
use unix_linux_prog_in_c_src.Queue.Invariant.{holds, main_holds, Inv, run-Inv}
use unix_linux_prog_in_c_src.Queue.Safety.{capacity-run}

-- If the capacity is not 0, then after any schedule the producer and the consumer are not both
-- blocked in pthread_cond_wait. Each of them is not blocked there, or has a reason to be: the queue
-- is full, with a capacity that is not negative (for the consumer: empty), or the other thread is about to execute the
-- pthread_cond_signal that wakes it.
pub no_lost_wakeup :
    (es : List Event) (arg : Option ℤ)
    → 0 < (start arg).capacity
    → let s = run step es (start arg) in
      ((s.prod ≢ wait) ⊎ (s.cons ≢ wait))
      × ((s.prod ≢ wait)
          ⊎ ((s.negative ≡ false)
              × ((s.in_queue ≡ s.capacity) ⊎ ((s.cons ≡ notify) × (s.orig_in_queue ≡ s.capacity)))))
      × ((s.cons ≢ wait) ⊎ (s.in_queue ≡ 0) ⊎ ((s.prod ≡ notify) × (s.in_queue ≡ 1)))
no_lost_wakeup es arg h =
    let v = run-Inv es arg in
    (ground (arith, v, capacity-run es arg), ground (arith, v), ground (arith, v))

produce-moves :
    (p : Pc) (s : State)
    → s.prod ≡ p
    → p ≢ wait
    → Inv s
    → holds s.cons ≡ false
    → main_holds s.main ≡ false
    → (produce 1 p s).prod ≢ p
unfolding produce
produce-moves poll s e n v c m = ground arith
produce-moves wait s e n v c m = absurd (n refl)
produce-moves _ s e n v c m = ground arith

consume-moves :
    (p : Pc) (s : State)
    → s.cons ≡ p
    → p ≢ wait
    → Inv s
    → holds s.prod ≡ false
    → main_holds s.main ≡ false
    → (consume 1 p s).cons ≢ p
unfolding consume
consume-moves poll s e n v c m = ground arith
consume-moves wait s e n v c m = absurd (n refl)
consume-moves _ s e n v c m = ground arith

-- The next event of the producer (of the consumer) takes it to another place in its code, when
-- random() gives it a message to handle.
abbrev pub ProducerMoves : State → Type 0
ProducerMoves s = (step (producer_runs 1) s).prod ≢ s.prod

abbrev pub ConsumerMoves : State → Type 0
ConsumerMoves s = (step (consumer_runs 1) s).cons ≢ s.cons

-- With no thread in the critical section but perhaps one of these two, one of them can go on.
moves :
    (p c : Pc) (s : State)
    → s.prod ≡ p
    → s.cons ≡ c
    → Inv s
    → 0 < s.capacity
    → main_holds s.main ≡ false
    → ((produce 1 p s).prod ≢ p) ⊎ ((consume 1 c s).cons ≢ c)
moves p test s e f v h m = inr (consume-moves test s f (λ q. cc q) v (ground (arith, v)) m)
moves p change s e f v h m = inr (consume-moves change s f (λ q. cc q) v (ground (arith, v)) m)
moves p notify s e f v h m = inr (consume-moves notify s f (λ q. cc q) v (ground (arith, v)) m)
moves p unlock s e f v h m = inr (consume-moves unlock s f (λ q. cc q) v (ground (arith, v)) m)
moves wait c s e f v h m =
    inr (consume-moves c s f (λ q. ground (arith, v)) v (ground (arith, v)) m)
moves p c s e f v h m = inl (produce-moves p s e (λ q. cc) v (ground (arith, v)) m)

-- After any schedule of a program with a capacity that is not 0, if the main thread does not hold
-- the mutex, then the producer or the consumer can take a step: the two never block each other.
pub never_stuck :
    (es : List Event) (arg : Option ℤ)
    → 0 < (start arg).capacity
    → main_holds (run step es (start arg)).main ≡ false
    → ProducerMoves (run step es (start arg)) ⊎ ConsumerMoves (run step es (start arg))
unfolding step
never_stuck es arg h m =
    let s = run step es (start arg) in
    moves s.prod s.cons s refl refl (run-Inv es arg) (ground (arith, capacity-run es arg)) m

-- The other thread, at the pc `p`, needs so many steps to get to its next pthread_cond_signal.
steps_to_signal : Pc → ℕ
steps_to_signal notify = 1
steps_to_signal change = 2
steps_to_signal test = 3
steps_to_signal lock = 4
steps_to_signal relock = 4
steps_to_signal poll = 5
steps_to_signal unlock = 6
steps_to_signal wait = 0

consumer_signals :
    (c : Pc) (s : State)
    → s.cons ≡ c
    → s.prod ≡ wait
    → Inv s
    → 0 < s.capacity
    → main_holds s.main ≡ false
    → (run step (replicate (steps_to_signal c) (consumer_runs 1)) s).prod ≡ relock
unfolding run step consume steps_to_signal
consumer_signals poll s e w v h m = ground arith
consumer_signals _ s e w v h m = ground arith

producer_signals :
    (p : Pc) (s : State)
    → s.prod ≡ p
    → s.cons ≡ wait
    → Inv s
    → 0 < s.capacity
    → main_holds s.main ≡ false
    → (run step (replicate (steps_to_signal p) (producer_runs 1)) s).cons ≡ relock
unfolding run step produce steps_to_signal
producer_signals poll s e w v h m = ground arith
producer_signals _ s e w v h m = ground arith

steps_to_signal-le : (p : Pc) → steps_to_signal p ≤ 6
unfolding steps_to_signal
steps_to_signal-le poll = omega arith
steps_to_signal-le _ = omega arith

-- A producer that is blocked in pthread_cond_wait after any schedule of a program with a capacity
-- that is not 0 is unblocked after at most six steps of a consumer that keeps drawing messages, if
-- the main thread does not hold the mutex meanwhile.
pub consumer_wakes_producer :
    (es : List Event) (arg : Option ℤ)
    → 0 < (start arg).capacity
    → main_holds (run step es (start arg)).main ≡ false
    → (run step es (start arg)).prod ≡ wait
    → (n : ℕ) × (n ≤ 6)
      × ((run step (replicate n (consumer_runs 1)) (run step es (start arg))).prod ≡ relock)
consumer_wakes_producer es arg h m w =
    let s = run step es (start arg) in
    (
      steps_to_signal s.cons,
      steps_to_signal-le s.cons,
      consumer_signals s.cons s refl w (run-Inv es arg) (ground (arith, capacity-run es arg)) m,
    )

-- The same for a consumer that is blocked, and the steps of a producer that keeps drawing messages.
pub producer_wakes_consumer :
    (es : List Event) (arg : Option ℤ)
    → 0 < (start arg).capacity
    → main_holds (run step es (start arg)).main ≡ false
    → (run step es (start arg)).cons ≡ wait
    → (n : ℕ) × (n ≤ 6)
      × ((run step (replicate n (producer_runs 1)) (run step es (start arg))).cons ≡ relock)
producer_wakes_consumer es arg h m w =
    let s = run step es (start arg) in
    (
      steps_to_signal s.prod,
      steps_to_signal-le s.prod,
      producer_signals s.prod s refl w (run-Inv es arg) (ground (arith, capacity-run es arg)) m,
    )

-- The schedule has no wakeup for no reason.
abbrev pub NoSpuriousWakeup : List Event → Type 0
NoSpuriousWakeup [] = Unit
NoSpuriousWakeup (producer_runs r ∷ es) = NoSpuriousWakeup es
NoSpuriousWakeup (consumer_runs r ∷ es) = NoSpuriousWakeup es
NoSpuriousWakeup (main_runs ∷ es) = NoSpuriousWakeup es
NoSpuriousWakeup (producer_wakes ∷ es) = ⊥
NoSpuriousWakeup (consumer_wakes ∷ es) = ⊥

-- Both threads find a queue that is full and empty.
abbrev pub to_sleep : List Event
to_sleep =
    producer_runs 1
    ∷ producer_runs 0
    ∷ producer_runs 0
    ∷ consumer_runs 1
    ∷ consumer_runs 0
    ∷ consumer_runs 0
    ∷ []

abbrev BothSleep : State → Type 0
BothSleep s = (s.prod ≡ wait) × (s.cons ≡ wait)

print-BothSleep : (p : MainPc) (s : State) → BothSleep s → BothSleep (print p s)
unfolding print
print-BothSleep main_lock s b = ground arith
print-BothSleep _ s b = ground arith

produce-BothSleep :
    (r : ℕ) (p : Pc) (s : State) → s.prod ≡ p → BothSleep s → BothSleep (produce r p s)
unfolding produce
produce-BothSleep r wait s e b = b
produce-BothSleep r _ s e b = cc

consume-BothSleep :
    (r : ℕ) (p : Pc) (s : State) → s.cons ≡ p → BothSleep s → BothSleep (consume r p s)
unfolding consume
consume-BothSleep r wait s e b = b
consume-BothSleep r _ s e b = cc

sleeps_on :
    (es : List Event) (s : State) → NoSpuriousWakeup es → BothSleep s → BothSleep (run step es s)
unfolding run step
sleeps_on [] s n b = b
sleeps_on (producer_runs r ∷ es) s n b =
    sleeps_on es (step (producer_runs r) s) n (produce-BothSleep r s.prod s refl b)
sleeps_on (consumer_runs r ∷ es) s n b =
    sleeps_on es (step (consumer_runs r) s) n (consume-BothSleep r s.cons s refl b)
sleeps_on (main_runs ∷ es) s n b = sleeps_on es (step main_runs s) n (print-BothSleep s.main s b)
sleeps_on (producer_wakes ∷ es) s n b = absurd n
sleeps_on (consumer_wakes ∷ es) s n b = absurd n

-- With a capacity of 0, which `main` accepts, the producer and the consumer block each other in six
-- steps, and neither runs again, whatever follows, unless a thread wakes up for no reason.
pub zero_capacity_hangs :
    (es : List Event)
    → NoSpuriousWakeup es
    → let s = run step es (run step to_sleep (start (some (pos 0)))) in
      (s.prod ≡ wait) × (s.cons ≡ wait)
unfolding start
zero_capacity_hangs es n = sleeps_on es _ n (unfold run step produce consume in (refl, refl))
