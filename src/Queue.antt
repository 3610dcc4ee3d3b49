-- ===== src/Queue.antt =====
-- cond-variables/queue-simulation.c: a producer, a consumer and the main thread share a count of
-- items under one mutex and one condition variable.
-- An event gives one thread its next step; a thread that has to wait stays where it is. The mutex
-- and the condition variable are those of POSIX: only a free mutex can be taken, a wait gives the
-- mutex up and blocks in one step, a signal unblocks a blocked thread, and a blocked thread may
-- also wake up for no reason.
pub mod Invariant
pub mod Safety
pub mod Progress
mod Tests
use unix_linux_prog_in_c_src.Base.{
  ℕ, suc, not, ◌&&◌, ◌+◌, ◌-◌, ◌%◌, Bool, true, false, Option, none, some, List, [], ◌∷◌, ◌++◌,
  ◌==◌, if◌then◌else◌, replicate,
}

pub data Thread : Type 0 where
  producer consumer printer : Thread

-- Where the producer or the consumer stands: the next thing that it does.
pub data Pc : Type 0 where
  poll : Pc  -- sleep, then draw a message or not
  lock : Pc  -- pthread_mutex_lock
  test : Pc  -- the condition of the inner loop
  wait : Pc  -- blocked in pthread_cond_wait
  relock : Pc  -- unblocked, and takes the mutex again before pthread_cond_wait returns
  change : Pc  -- change in_queue
  notify : Pc  -- the test before pthread_cond_signal, and the call
  unlock : Pc  -- pthread_mutex_unlock

pub data MainPc : Type 0 where
  main_lock main_print main_unlock : MainPc

-- The capacity is an int of C, which may be negative: `capacity` is its absolute value. With a negative one
-- the count has no bound here; in C it overflows at 2 ^ 31.
pub record State : Type 0 where
  pub negative : Bool
  pub capacity : ℕ
  pub in_queue : ℕ
  pub mutex : Option Thread
  pub prod : Pc
  pub msg_created : ℕ
  pub cons : Pc
  pub msg_removed : ℕ
  pub orig_in_queue : ℕ
  pub main : MainPc
  pub line : List ℕ  -- the last line that the main thread printed

abbrev pub default_max : ℕ
default_max = 10

pub data ℤ : Type 0 where
  pos : (n : ℕ) → ℤ
  negsuc : (n : ℕ) → ℤ  -- - n - 1

abbrev pub is_negative : ℤ → Bool
is_negative (pos n) = false
is_negative (negsuc n) = true

abbrev pub absolute : ℤ → ℕ
absolute (pos n) = n
absolute (negsuc n) = suc n

-- The value of `capacity`.
abbrev pub configure : Option ℤ → ℤ
configure none = pos default_max
configure (some n) = n

-- `main` before it creates the threads: `arg` is what atoi returns if `argc == 2`.
pub start : Option ℤ → State
start arg = record {
  negative = is_negative (configure arg);
  capacity = absolute (configure arg);
  in_queue = 0;
  mutex = none;
  prod = poll;
  msg_created = 0;
  cons = poll;
  msg_removed = 0;
  orig_in_queue = 0;
  main = main_lock;
  line = [];
}

abbrev pub is_free : Option Thread → Bool
is_free none = true
is_free (some t) = false

-- pthread_cond_signal, as it acts on a thread that may be blocked on the variable.
abbrev pub wake : Pc → Pc
wake wait = relock
wake poll = poll
wake lock = lock
wake test = test
wake relock = relock
wake change = change
wake notify = notify
wake unlock = unlock

-- `in_queue == capacity`, with a count that is not negative.
abbrev pub is_capacity : ℕ → State → Bool
is_capacity n s = not s.negative && n == s.capacity

-- One step of `producer`, at a value `r` of random().
pub produce : ℕ → Pc → State → State
produce r poll s = record s { msg_created = r % 2; prod = if r % 2 == 0 then poll else lock }
produce r lock s = if is_free s.mutex then record s { mutex = some producer; prod = test } else s
produce r test s =
    if is_capacity s.in_queue s
    then record s { mutex = none; prod = wait }
    else record s { prod = change }
produce r wait s = s
produce r relock s = if is_free s.mutex then record s { mutex = some producer; prod = test } else s
produce r change s = record s { in_queue = s.in_queue + s.msg_created; prod = notify }
produce r notify s = record s {
  cons = if s.in_queue == 1 then wake s.cons else s.cons;
  prod = unlock;
}
produce r unlock s = record s { mutex = none; prod = poll }

-- One step of `consumer`. `in_queue -= msg_removed` runs only at `msg_removed ≤ in_queue`
-- (`Inv.consuming`), so the count does not get below 0.
pub consume : ℕ → Pc → State → State
consume r poll s = record s { msg_removed = r % 2; cons = if r % 2 == 0 then poll else lock }
consume r lock s = if is_free s.mutex then record s { mutex = some consumer; cons = test } else s
consume r test s =
    if s.in_queue == 0 then record s { mutex = none; cons = wait } else record s { cons = change }
consume r wait s = s
consume r relock s = if is_free s.mutex then record s { mutex = some consumer; cons = test } else s
consume r change s = record s {
  orig_in_queue = s.in_queue;
  in_queue = s.in_queue - s.msg_removed;
  cons = notify;
}
consume r notify s = record s {
  prod = if is_capacity s.orig_in_queue s then wake s.prod else s.prod;
  cons = unlock;
}
consume r unlock s = record s { mutex = none; cons = poll }

-- The line that `main` prints, with the rounds of its two loops.
pub render : (items spaces : ℕ) → List ℕ
render items spaces =
    b' ' ∷ b'|' ∷ (replicate items b'.' ++ (replicate spaces b' ' ++ (b'|' ∷ 0x0a ∷ [])))

-- The second loop makes `capacity - in_queue` rounds, none if `in_queue` is the larger.
abbrev pub empty_slots : State → ℕ
empty_slots s = if s.negative then 0 else s.capacity - s.in_queue

-- One round of the loop of `main`.
pub print : MainPc → State → State
print main_lock s =
    if is_free s.mutex then record s { mutex = some printer; main = main_print } else s
print main_print s = record s { line = render s.in_queue (empty_slots s); main = main_unlock }
print main_unlock s = record s { mutex = none; main = main_lock }

pub data Event : Type 0 where
  producer_runs : ℕ → Event
  consumer_runs : ℕ → Event
  main_runs : Event
  producer_wakes : Event  -- for no reason
  consumer_wakes : Event

pub step : Event → State → State
unfolding produce consume print
step (producer_runs r) s = produce r s.prod s
step (consumer_runs r) s = consume r s.cons s
step main_runs s = print s.main s
step producer_wakes s = record s { prod = wake s.prod }
step consumer_wakes s = record s { cons = wake s.cons }
