-- ===== src/Queue/Invariant.antt =====
-- What holds in every state of queue-simulation.c, whatever the schedule: who owns the mutex, and
-- what each thread may rely on where it stands.
use unix_linux_prog_in_c_src.Base.{
  ℕ, ◌+◌, ◌≤◌, ◌<◌, ◌≡◌, ◌⊎◌, Bool, true, false, Option, none, some, List, refl, arith, run,
  run-keeps,
}
use unix_linux_prog_in_c_src.Queue.{
  Thread, producer, consumer, printer, Pc, poll, lock, test, wait, relock, change, notify, unlock,
  MainPc, main_lock, main_print, main_unlock, State, start, Event, producer_runs, consumer_runs,
  main_runs, produce, consume, print, step, ℤ,
}

-- The thread is between pthread_mutex_lock and pthread_mutex_unlock, and not blocked.
abbrev pub holds : Pc → Bool
holds test = true
holds change = true
holds notify = true
holds unlock = true
holds poll = false
holds lock = false
holds wait = false
holds relock = false

abbrev pub main_holds : MainPc → Bool
main_holds main_lock = false
main_holds main_print = true
main_holds main_unlock = true

abbrev owned_by_producer : Option Thread → Bool
owned_by_producer (some producer) = true
owned_by_producer (some consumer) = false
owned_by_producer (some printer) = false
owned_by_producer none = false

abbrev owned_by_consumer : Option Thread → Bool
owned_by_consumer (some producer) = false
owned_by_consumer (some consumer) = true
owned_by_consumer (some printer) = false
owned_by_consumer none = false

abbrev owned_by_main : Option Thread → Bool
owned_by_main (some producer) = false
owned_by_main (some consumer) = false
owned_by_main (some printer) = true
owned_by_main none = false

-- A producer that blocks does so at a full queue, or the consumer is about to signal it.
abbrev Producing : Pc → State → Type 0
Producing poll s = Unit
Producing lock s = s.msg_created ≡ 1
Producing test s = s.msg_created ≡ 1
Producing wait s =
    (s.msg_created ≡ 1)
    × (s.negative ≡ false)
    × ((s.in_queue ≡ s.capacity) ⊎ ((s.cons ≡ notify) × (s.orig_in_queue ≡ s.capacity)))
Producing relock s = s.msg_created ≡ 1
Producing change s = (s.msg_created ≡ 1) × ((s.negative ≡ true) ⊎ (s.in_queue < s.capacity))
Producing notify s = 0 < s.in_queue
Producing unlock s = Unit

-- A consumer that blocks does so at an empty queue, or the producer is about to signal it.
abbrev Consuming : Pc → State → Type 0
Consuming poll s = Unit
Consuming lock s = s.msg_removed ≡ 1
Consuming test s = s.msg_removed ≡ 1
Consuming wait s = (s.msg_removed ≡ 1) × ((s.in_queue ≡ 0) ⊎ ((s.prod ≡ notify) × (s.in_queue ≡ 1)))
Consuming relock s = s.msg_removed ≡ 1
Consuming change s = (s.msg_removed ≡ 1) × (0 < s.in_queue)
Consuming notify s =
    (s.orig_in_queue ≡ s.in_queue + 1) × ((s.negative ≡ true) ⊎ (s.orig_in_queue ≤ s.capacity))
Consuming unlock s = Unit

pub record Inv (s : State) : Type 0 where
  pub bounded : (s.negative ≡ true) ⊎ (s.in_queue ≤ s.capacity)
  pub prod_owns : holds s.prod ≡ owned_by_producer s.mutex
  pub cons_owns : holds s.cons ≡ owned_by_consumer s.mutex
  pub main_owns : main_holds s.main ≡ owned_by_main s.mutex
  pub producing : Producing s.prod s
  pub consuming : Consuming s.cons s

pub start-Inv : (arg : Option ℤ) → Inv (start arg)
unfolding start
start-Inv arg = ground arith

produce-Inv : (r : ℕ) (p : Pc) (s : State) → s.prod ≡ p → Inv s → Inv (produce r p s)
unfolding produce
produce-Inv r poll s e v = ground arith
produce-Inv r lock s e v = ground arith
produce-Inv r test s e v = ground arith
produce-Inv r wait s e v = ground arith
produce-Inv r relock s e v = ground arith
produce-Inv r change s e v = ground arith
produce-Inv r notify s e v = ground arith
produce-Inv r unlock s e v = ground arith

consume-Inv : (r : ℕ) (p : Pc) (s : State) → s.cons ≡ p → Inv s → Inv (consume r p s)
unfolding consume
consume-Inv r poll s e v = ground arith
consume-Inv r _ s e v = ground arith

print-Inv : (p : MainPc) (s : State) → s.main ≡ p → Inv s → Inv (print p s)
unfolding print
print-Inv main_lock s e v = ground arith
print-Inv _ s e v = ground arith

pub step-Inv : (e : Event) (s : State) → Inv s → Inv (step e s)
unfolding step
step-Inv (producer_runs r) s v = produce-Inv r s.prod s refl v
step-Inv (consumer_runs r) s v = consume-Inv r s.cons s refl v
step-Inv main_runs s v = print-Inv s.main s refl v
step-Inv _ s v = ground arith

pub run-Inv : (es : List Event) (arg : Option ℤ) → Inv (run step es (start arg))
run-Inv es arg = run-keeps Inv step step-Inv es (start arg) (start-Inv arg)
