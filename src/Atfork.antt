-- ===== src/Atfork.antt =====
-- pthreads/atfork.c: a thread forks while another one may hold a mutex. The handlers that
-- pthread_atfork() has registered take the mutex before the fork, and release it behind it in both
-- processes. The thread `counter` does not touch the mutex.
pub mod Progress
pub mod Hang
mod Tests
use unix_linux_prog_in_c_src.Base.{
  ℕ, zero, suc, ◌+◌, Bool, true, false, Option, none, some, List, [], ◌∷◌, ltb, ◌==◌, if◌then◌else◌,
  length,
}

pub data Who : Type 0 where
  main forker : Who

-- Where `main` stands.
pub data MainPc : Type 0 where
  lock : MainPc
  create : MainPc  -- both calls of pthread_create
  unlock : MainPc  -- behind the sleep
  join : MainPc
  cancel : MainPc  -- and pthread_mutex_destroy
  wait : MainPc
  done : MainPc

-- Where the thread `forker` stands; its copy in the child starts behind the fork.
pub data ForkerPc : Type 0 where
  unborn : ForkerPc
  begin : ForkerPc
  before : ForkerPc  -- in the handler `before`
  forking : ForkerPc
  after : ForkerPc  -- in the handler `after`
  locking : ForkerPc
  unlocking : ForkerPc
  finished : ForkerPc

-- The mutex of the child: free, held by its thread, or by a thread that the child does not have.
pub data Copy : Type 0 where
  free own lost : Copy

pub record State : Type 0 where
  pub mutex : Option Who
  pub main_pc : MainPc
  pub forker_pc : ForkerPc
  pub child_pc : ForkerPc
  pub child_mutex : Copy
  pub exited : Bool  -- the parent has ended because fork() failed

pub start : State
start = record {
  mutex = none;
  main_pc = lock;
  forker_pc = unborn;
  child_pc = unborn;
  child_mutex = free;
  exited = false;
}

abbrev pub is_free : Option Who → Bool
is_free none = true
is_free (some w) = false

abbrev pub inherit : Option Who → Copy
inherit none = free
inherit (some main) = lost
inherit (some forker) = own

abbrev pub is_finished : ForkerPc → Bool
is_finished finished = true
is_finished unborn = false
is_finished begin = false
is_finished before = false
is_finished forking = false
is_finished after = false
is_finished locking = false
is_finished unlocking = false

-- A step of `main`.
pub main_step : MainPc → State → State
main_step lock s = if is_free s.mutex then record s { mutex = some main; main_pc = create } else s
main_step create s = record s { forker_pc = begin; main_pc = unlock }
main_step unlock s = record s { mutex = none; main_pc = join }
main_step join s = if is_finished s.forker_pc then record s { main_pc = cancel } else s
main_step cancel s = record s { main_pc = wait }
main_step wait s = if is_finished s.child_pc then record s { main_pc = done } else s
main_step done s = s

-- The handlers, as the thread `forker` runs them in the parent.
abbrev pub before_handler : State → State
before_handler s =
    if is_free s.mutex then record s { mutex = some forker; forker_pc = forking } else s

abbrev pub after_handler : State → State
after_handler s = record s { mutex = none; forker_pc = locking }

-- A step of `forker` in the parent; the first flag is `atfork`, the second one says that fork()
-- does not fail.
pub forker_step : Bool → Bool → ForkerPc → State → State
forker_step atfork ok unborn s = s
forker_step atfork ok begin s = record s { forker_pc = if atfork then before else forking }
forker_step atfork ok before s = before_handler s
forker_step atfork ok forking s =
    if ok
    then record s {
      forker_pc = if atfork then after else locking;
      child_pc = if atfork then after else locking;
      child_mutex = inherit s.mutex;
    }
    else record s { exited = true }
forker_step atfork ok after s = after_handler s
forker_step atfork ok locking s =
    if is_free s.mutex then record s { mutex = some forker; forker_pc = unlocking } else s
forker_step atfork ok unlocking s = record s { mutex = none; forker_pc = finished }
forker_step atfork ok finished s = s

-- A step of `forker` in the child.
pub child_step : ForkerPc → State → State
child_step after s = record s { child_mutex = free; child_pc = locking }
child_step locking s = elim (s.child_mutex) [
  | free ↦ record s { child_mutex = own; child_pc = unlocking }
  | own ↦ s
  | lost ↦ s
]
child_step unlocking s = record s { child_mutex = free; child_pc = finished }
child_step unborn s = s
child_step begin s = s
child_step before s = s
child_step forking s = s
child_step finished s = s

pub data Event : Type 0 where
  main_runs : Event
  forker_runs : (ok : Bool) → Event
  child_runs : Event

pub step : (atfork : Bool) → Event → State → State
unfolding main_step forker_step child_step
step atfork main_runs s = if s.exited then s else main_step s.main_pc s
step atfork (forker_runs ok) s = if s.exited then s else forker_step atfork ok s.forker_pc s
step atfork child_runs s = child_step s.child_pc s

-- A character of an argument; its end is 0.
abbrev pub char_at : List ℕ → ℕ → ℕ
char_at [] k = 0
char_at (ch ∷ rest) zero = ch
char_at (ch ∷ rest) (suc k) = char_at rest k

abbrev pub argument : List (List ℕ) → ℕ → List ℕ
argument [] k = []
argument (arg ∷ rest) zero = arg
argument (arg ∷ rest) (suc k) = argument rest k

abbrev pub dash : ℕ
dash = 45

abbrev pub letter_d : ℕ
letter_d = 100

-- The arguments behind the name of the program: `atfork` and `nsecs`, or the usage.
pub configure : (atoi : List ℕ → ℕ) → List (List ℕ) → Option (Bool × ℕ)
configure atoi [] = some (true, 5)
configure atoi (arg ∷ rest) =
    if char_at arg 0 == dash
    then (if char_at arg 1 == letter_d
        then (if length rest == 1
            then some (false, atoi (argument rest 0))
            else if ltb 1 (length rest)
            then none
            else some (false, 5))
        else none)
    else if length rest == 0
    then some (true, atoi arg)
    else none
