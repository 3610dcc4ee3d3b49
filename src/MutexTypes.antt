-- ===== src/MutexTypes.antt =====
-- mutexes/not-my-lock.c: a thread releases a mutex of `main`, `main` releases one that is free and
-- takes one twice; what happens depends on the type of the mutexes, by the table of POSIX.
-- The calls that set things up succeed.
pub mod Answers
mod Tests
use unix_linux_prog_in_c_src.Base.{
  ℕ, zero, suc, ◌+◌, ◌-◌, Bool, true, false, Option, none, some, List, [], ◌∷◌, ◌++◌, ◌==◌,
  if◌then◌else◌,
}

-- `plain` is PTHREAD_MUTEX_DEFAULT.
pub data Kind : Type 0 where
  plain normal recursive errorcheck : Kind

-- What getopt returns: -n, -r, -e, and -h or an unknown option.
pub data Opt : Type 0 where
  opt_n opt_r opt_e opt_h : Opt

-- The options; `none` stands for usage().
pub configure : Kind → List Opt → Option Kind
configure kind [] = some kind
configure kind (opt_n ∷ opts) = configure normal opts
configure kind (opt_r ∷ opts) = configure recursive opts
configure kind (opt_e ∷ opts) = configure errorcheck opts
configure kind (opt_h ∷ opts) = none

-- What a call returns: 0 or an error; it may block for good, or its behaviour may be undefined.
pub data Answer : Type 0 where
  ok eperm edeadlk blocked undefined : Answer

pub record Mutex : Type 0 where
  pub owner : Option ℕ
  pub count : ℕ

abbrev pub free : Mutex
free = record { owner = none; count = 0 }

abbrev pub relock : Kind → Answer
relock plain = undefined
relock normal = blocked
relock recursive = ok
relock errorcheck = edeadlk

abbrev pub foreign : Kind → Answer
foreign plain = undefined
foreign normal = undefined
foreign recursive = eperm
foreign errorcheck = eperm

abbrev pub owned_by : ℕ → Option ℕ → Bool
owned_by me none = false
owned_by me (some o) = o == me

abbrev pub lock_answer : Kind → ℕ → Option ℕ → Answer
lock_answer kind me none = ok
lock_answer kind me (some o) = if o == me then relock kind else blocked

-- What a call that returns 0 leaves.
abbrev pub locked : ℕ → Mutex → Mutex
locked me m = record { owner = some me; count = m.count + 1 }

abbrev pub unlock_answer : Kind → ℕ → Option ℕ → Answer
unlock_answer kind me owner = if owned_by me owner then ok else foreign kind

abbrev pub unlocked : Mutex → Mutex
unlocked m = if m.count == 1 then free else record m { count = m.count - 1 }

pub data MainPc : Type 0 where
  locking : MainPc
  joining : MainPc
  unlocking2 : MainPc
  locking3 : MainPc
  relocking : MainPc
  ended : MainPc

pub data ThreadPc : Type 0 where
  unlocking returned : ThreadPc

pub record State : Type 0 where
  pub mutex : Mutex
  pub mutex2 : Mutex
  pub mutex3 : Mutex
  pub main_pc : MainPc
  pub thread_pc : ThreadPc
  pub reports : List Answer  -- what has been printed
  pub is_undefined : Bool

pub start : State
start = record {
  mutex = free;
  mutex2 = free;
  mutex3 = free;
  main_pc = locking;
  thread_pc = unlocking;
  reports = [];
  is_undefined = false;
}

-- A call with its answer: `stays` is where it blocks, and `done` where it returns; what an error leaves
-- is `refused`.
abbrev pub settle : Answer → (stays done refused : State) → State
settle ok stays done refused = done
settle eperm stays done refused = refused
settle edeadlk stays done refused = refused
settle blocked stays done refused = stays
settle undefined stays done refused = record stays { is_undefined = true }

abbrev pub report : Answer → State → State
report a s = record s { reports = s.reports ++ a ∷ [] }

-- The numbers of the threads.
abbrev pub me : ℕ
me = 0

abbrev pub other : ℕ
other = 1

-- A step of `main`. The answers of the first lock of a mutex are ignored.
pub main_step : Kind → MainPc → State → State
main_step kind locking s =
    let next = record s { main_pc = joining } in
    settle (lock_answer kind me s.mutex.owner) s (record next { mutex = locked me s.mutex }) next
main_step kind joining s = elim s.thread_pc [
  | unlocking ↦ s
  | returned ↦ record s { main_pc = unlocking2 }
]
main_step kind unlocking2 s =
    let a = unlock_answer kind me s.mutex2.owner in
    let next = report a (record s { main_pc = locking3 }) in
    settle a s (record next { mutex2 = unlocked s.mutex2 }) next
main_step kind locking3 s =
    let next = record s { main_pc = relocking } in
    settle (lock_answer kind me s.mutex3.owner) s (record next { mutex3 = locked me s.mutex3 }) next
main_step kind relocking s =
    let a = lock_answer kind me s.mutex3.owner in
    let next = report a (record s { main_pc = ended }) in
    settle a s (record next { mutex3 = locked me s.mutex3 }) next
main_step kind ended s = s

-- `thread`, with what it prints.
pub thread_step : Kind → ThreadPc → State → State
thread_step kind unlocking s =
    let a = unlock_answer kind other s.mutex.owner in
    let next = report a (record s { thread_pc = returned }) in
    settle a s (record next { mutex = unlocked s.mutex }) next
thread_step kind returned s = s

pub data Event : Type 0 where
  main_runs thread_runs : Event

abbrev pub defined_step : Kind → Event → State → State
defined_step kind main_runs s = main_step kind s.main_pc s
defined_step kind thread_runs s = thread_step kind s.thread_pc s

-- Once the behaviour is undefined, nothing is said of the rest.
pub step : Kind → Event → State → State
unfolding main_step thread_step
step kind e s = if s.is_undefined then s else defined_step kind e s
