-- ===== src/Barrier.antt =====
-- pthreads/implement-barrier-fixed.c: `max` threads print their numbers in rounds, and wait for one
-- another between the rounds, with a mutex, a condition variable and two counters.
-- What a thread does with the counters it does under the mutex, so the steps here are cut where a
-- thread takes or releases the mutex, or tests the condition of a waiting loop.
pub mod Invariant
pub mod Steps
pub mod Rounds
pub mod Progress
mod Tests
use unix_linux_prog_in_c_src.Base.{
  ℕ, ◌+◌, ◌%◌, Bool, true, false, Option, none, some, ltb, ◌==◌, if◌then◌else◌,
}
use unix_linux_prog_in_c_src.Base.Family.{put}

pub data Pc : Type 0 where
  say : Pc  -- sleep, and print the number
  lock : Pc  -- pthread_mutex_lock
  arrive : Pc  -- ++on_barrier, and the branch of the last thread up to its loop
  test1 : Pc  -- the condition of the loop of a thread that is not the last one
  wait1 : Pc  -- blocked in its pthread_cond_wait
  relock1 : Pc  -- unblocked, and takes the mutex again
  woken : Pc  -- ++wokenup, and the broadcast of the last one
  test2 : Pc  -- the condition of the two loops over `wokenup`
  wait2 : Pc
  relock2 : Pc
  unlock : Pc  -- pthread_mutex_unlock

pub record State : Type 0 where
  pub on_barrier : ℕ
  pub wokenup : ℕ
  pub owner : Option ℕ
  pub pc : ℕ → Pc
  pub printed : ℕ → ℕ  -- how often each thread has printed its number
  pub newlines : ℕ

-- The counters are ints that are far from 2^31.
pub start : State
start = record {
  on_barrier = 0;
  wokenup = 0;
  owner = none;
  pc = λ i. say;
  printed = λ i. 0;
  newlines = 0;
}

-- pthread_cond_broadcast, as it acts on one thread.
abbrev pub wake : Pc → Pc
wake wait1 = relock1
wake wait2 = relock2
wake say = say
wake lock = lock
wake arrive = arrive
wake test1 = test1
wake relock1 = relock1
wake woken = woken
wake test2 = test2
wake relock2 = relock2
wake unlock = unlock

abbrev pub is_free : Option ℕ → Bool
is_free none = true
is_free (some i) = false

abbrev go : ℕ → Pc → State → State
go i p s = record s { pc = put i p s.pc }

abbrev broadcast : ℕ → Pc → State → State
broadcast i p s = record s { pc = put i p (λ j. wake (s.pc j)) }

abbrev take_mutex : ℕ → Pc → State → State
take_mutex i p s = if is_free s.owner then record s { owner = some i; pc = put i p s.pc } else s

abbrev give_mutex : ℕ → Pc → State → State
give_mutex i p s = record s { owner = none; pc = put i p s.pc }

-- A step of `thread` with the number `i`, which stands at the second argument.
pub advance : (max : ℕ) → ℕ → Pc → State → State
advance max i say s = record s { printed = put i (s.printed i + 1) s.printed; pc = put i lock s.pc }
advance max i lock s = take_mutex i arrive s
advance max i arrive s =
    if (s.on_barrier + 1) % max == 0
    then broadcast i test2
        (record s { on_barrier = s.on_barrier + 1; newlines = s.newlines + 1; wokenup = 1 })
    else go i test1 (record s { on_barrier = s.on_barrier + 1 })
advance max i test1 s = if s.on_barrier % max == 0 then go i woken s else give_mutex i wait1 s
advance max i wait1 s = s
advance max i relock1 s = take_mutex i test1 s
advance max i woken s =
    if s.wokenup + 1 == max
    then broadcast i unlock (record s { wokenup = s.wokenup + 1 })
    else go i test2 (record s { wokenup = s.wokenup + 1 })
advance max i test2 s = if ltb s.wokenup max then give_mutex i wait2 s else go i unlock s
advance max i wait2 s = s
advance max i relock2 s = take_mutex i test2 s
advance max i unlock s = give_mutex i say s

pub data Event : Type 0 where
  runs : (i : ℕ) → Event
  wakes : (i : ℕ) → Event  -- a wakeup for no reason

-- Only the numbers below `max` are threads.
pub step : (max : ℕ) → Event → State → State
unfolding advance
step max (runs i) s = if ltb i max then advance max i (s.pc i) s else s
step max (wakes i) s = if ltb i max then go i (wake (s.pc i)) s else s
