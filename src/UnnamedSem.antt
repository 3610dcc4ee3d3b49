-- ===== src/UnnamedSem.antt =====
-- semaphores/posix-unnamed-sem.c: a thread posts a semaphore, the main thread waits for it, and a
-- timer interrupts the wait.
pub mod Count
mod Tests
use unix_linux_prog_in_c_src.Base.{ℕ, ◌+◌, ◌-◌, Bool, true, false, ◌==◌, if◌then◌else◌}

-- Where the main thread stands.
pub data Pc : Type 0 where
  waiting : Pc  -- sem_wait, alone or in the loop of `sem_wait_nointr`
  entered : Pc  -- about to print '-'
  exited : Pc  -- behind err(1)

pub record State : Type 0 where
  pub sem : ℕ
  pub pc : Pc
  pub posted : ℕ  -- '+' of `usher`
  pub dashes : ℕ  -- '-' of `main`
  pub interruptions : ℕ  -- 'S' of `sem_wait_nointr`

pub start : State
start = record { sem = 5; pc = waiting; posted = 0; dashes = 0; interruptions = 0 }

pub usher : State → State
usher s = record s { sem = s.sem + 1; posted = s.posted + 1 }

-- A sem_wait that fails in `sem_wait_nointr`; the flag says that errno is EINTR. `main` does not look
-- at the -1 that is returned for another errno.
pub sem_wait_nointr : (eintr : Bool) → State → State
sem_wait_nointr eintr s =
    if eintr then record s { interruptions = s.interruptions + 1 } else record s { pc = entered }

-- A sem_wait that fails, with and without an argument of the program.
pub refuse : (nointr eintr : Bool) → State → State
unfolding sem_wait_nointr
refuse nointr eintr s = if nointr then sem_wait_nointr eintr s else record s { pc = exited }

-- A step of the loop of `main`, where sem_wait does not fail.
pub advance : Pc → State → State
advance waiting s = if s.sem == 0 then s else record s { sem = s.sem - 1; pc = entered }
advance entered s = record s { dashes = s.dashes + 1; pc = waiting }
advance exited s = s

abbrev pub is_waiting : Pc → Bool
is_waiting waiting = true
is_waiting entered = false
is_waiting exited = false

-- Nothing goes on once the program has ended.
abbrev pub is_exited : Pc → Bool
is_exited waiting = false
is_exited entered = false
is_exited exited = true

pub data Event : Type 0 where
  usher_runs : Event
  main_runs : Event
  wait_fails : (eintr : Bool) → Event

pub step : (nointr : Bool) → Event → State → State
unfolding usher refuse advance
step nointr usher_runs s = if is_exited s.pc then s else usher s
step nointr main_runs s = advance s.pc s
step nointr (wait_fails eintr) s = if is_waiting s.pc then refuse nointr eintr s else s
