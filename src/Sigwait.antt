-- ===== src/Sigwait.antt =====
-- signals/sigwait.c: the parent stores a character in shared memory and sends SIGUSR1 to its child,
-- which waits for the signal and reads the character.
pub mod Places
pub mod Handover
pub mod End
mod Tests
use unix_linux_prog_in_c_src.Base.{ℕ, Bool, true, false, Option, none, some, if◌then◌else◌}

pub data ParentPc : Type 0 where
  reading : ParentPc
  storing : ParentPc
  sending : ParentPc
  waiting : ParentPc
  done : ParentPc
  failed : ParentPc  -- read() has failed

pub data ChildPc : Type 0 where
  masking : ChildPc
  awaiting : ChildPc  -- sigwait
  printing : ChildPc
  exited : ChildPc
  killed : ChildPc

pub record State : Type 0 where
  pub c : ℕ  -- of the parent
  pub shared : ℕ  -- addr[0]
  pub pending : Bool
  pub parent_pc : ParentPc
  pub child_pc : ChildPc
  pub printed : Option ℕ

-- Behind the fork. The local variable `c` has no value yet; here it is 0.
pub start : State
start = record {
  c = 0;
  shared = 0;
  pending = false;
  parent_pc = reading;
  child_pc = masking;
  printed = none;
}

-- A signal for the child: it ends it before the child has masked it, and is kept from then on.
abbrev pub signal : ChildPc → State → State
signal masking s = record s { child_pc = killed }
signal awaiting s = record s { pending = true }
signal printing s = record s { pending = true }
signal exited s = s
signal killed s = s

abbrev pub is_gone : ChildPc → Bool
is_gone masking = false
is_gone awaiting = false
is_gone printing = false
is_gone exited = true
is_gone killed = true

abbrev pub typed : Option ℕ → State → State
typed none s = record s { parent_pc = failed }
typed (some ch) s = record s { c = ch; parent_pc = storing }

-- A step of the parent; the first argument is what read() gets.
pub parent_step : Option ℕ → ParentPc → State → State
parent_step input reading s = typed input s
parent_step input storing s = record s { shared = s.c; parent_pc = sending }
parent_step input sending s = signal s.child_pc (record s { parent_pc = waiting })
parent_step input waiting s = if is_gone s.child_pc then record s { parent_pc = done } else s
parent_step input done s = s
parent_step input failed s = s

pub child_step : ChildPc → State → State
child_step masking s = record s { child_pc = awaiting }
child_step awaiting s = if s.pending then record s { pending = false; child_pc = printing } else s
child_step printing s = record s { printed = some s.shared; child_pc = exited }
child_step exited s = s
child_step killed s = s

pub data Event : Type 0 where
  parent_runs : (input : Option ℕ) → Event
  child_runs : Event

pub step : Event → State → State
unfolding parent_step child_step
step (parent_runs input) s = parent_step input s.parent_pc s
step child_runs s = child_step s.child_pc s
