-- ===== src/SingleBarrier.antt =====
-- pthreads/implement-barrier.c: the barrier with one waiting loop, whose condition the next round
-- makes true again.
pub mod Deadlock
mod Tests
use unix_linux_prog_in_c_src.Base.{
  ℕ, ◌+◌, ◌%◌, Bool, true, false, Option, none, some, ltb, ◌==◌, if◌then◌else◌,
}
use unix_linux_prog_in_c_src.Base.Family.{put}

pub data Pc : Type 0 where
  say : Pc  -- sleep, and print the number
  lock : Pc  -- pthread_mutex_lock
  arrive : Pc  -- ++on_barrier, and the branch of the last thread
  test : Pc  -- the condition of the loop
  wait : Pc  -- blocked in pthread_cond_wait
  relock : Pc  -- unblocked, and takes the mutex again
  unlock : Pc  -- pthread_mutex_unlock

pub record State : Type 0 where
  pub on_barrier : ℕ
  pub owner : Option ℕ
  pub pc : ℕ → Pc
  pub newlines : ℕ

pub start : State
start = record { on_barrier = 0; owner = none; pc = λ i. say; newlines = 0 }

-- pthread_cond_broadcast, as it acts on one thread.
abbrev pub wake : Pc → Pc
wake wait = relock
wake say = say
wake lock = lock
wake arrive = arrive
wake test = test
wake relock = relock
wake unlock = unlock

abbrev is_free : Option ℕ → Bool
is_free none = true
is_free (some i) = false

-- A step of `thread` with the number `i`, which stands at the second argument.
pub advance : (max : ℕ) → ℕ → Pc → State → State
advance max i say s = record s { pc = put i lock s.pc }
advance max i lock s =
    if is_free s.owner then record s { owner = some i; pc = put i arrive s.pc } else s
advance max i arrive s =
    if (s.on_barrier + 1) % max == 0
    then record s {
      on_barrier = s.on_barrier + 1;
      newlines = s.newlines + 1;
      pc = put i unlock (λ j. wake (s.pc j));
    }
    else record s { on_barrier = s.on_barrier + 1; pc = put i test s.pc }
advance max i test s =
    if s.on_barrier % max == 0
    then record s { pc = put i unlock s.pc }
    else record s { owner = none; pc = put i wait s.pc }
advance max i wait s = s
advance max i relock s =
    if is_free s.owner then record s { owner = some i; pc = put i test s.pc } else s
advance max i unlock s = record s { owner = none; pc = put i say s.pc }

pub data Event : Type 0 where
  runs : (i : ℕ) → Event
  wakes : (i : ℕ) → Event  -- a wakeup for no reason

-- Only the numbers below `max` are threads.
pub step : (max : ℕ) → Event → State → State
unfolding advance
step max (runs i) s = if ltb i max then advance max i (s.pc i) s else s
step max (wakes i) s = if ltb i max then record s { pc = put i (wake (s.pc i)) s.pc } else s
