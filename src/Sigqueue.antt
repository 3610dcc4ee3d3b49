-- ===== src/Sigqueue.antt =====
-- signals/sigqueue.c: the parent sends a number with SIGINT to its child, which exits with the number
-- after it; the parent exits with the status of the child.
pub mod Places
pub mod Status
mod Tests
use unix_linux_prog_in_c_src.Base.{ℕ, ◌+◌, ◌%◌, Bool, true, false}

pub data ChildPc : Type 0 where
  setting : ChildPc  -- before sigaction
  announcing : ChildPc  -- printf
  pausing : ChildPc
  exiting : ChildPc
  exited : (status : ℕ) → ChildPc
  killed : ChildPc

pub data ParentPc : Type 0 where
  sending : ParentPc
  waiting : ParentPc
  ended : (status : ℕ) → ParentPc

pub record State : Type 0 where
  pub num : ℕ
  pub parent_pc : ParentPc
  pub child_pc : ChildPc

pub start : State
start = record { num = 0; parent_pc = sending; child_pc = setting }

-- The signal: without a handler it ends the child; the handler sets `num`, and interrupts pause().
abbrev pub deliver : (val : ℕ) → ChildPc → State → State
deliver val setting s = record s { child_pc = killed }
deliver val announcing s = record s { num = val }
deliver val pausing s = record s { num = val; child_pc = exiting }
deliver val exiting s = record s { num = val }
deliver val (exited status) s = s
deliver val killed s = s

-- waitpid(), and WEXITSTATUS, which is undefined for a child that was killed: `other`.
abbrev pub reap : (other : ℕ) → ChildPc → State → State
reap other (exited status) s = record s { parent_pc = ended status }
reap other killed s = record s { parent_pc = ended other }
reap other setting s = s
reap other announcing s = s
reap other pausing s = s
reap other exiting s = s

-- A step of the parent; `val` is the number of the argument, which is not negative.
pub parent_step : (val other : ℕ) → ParentPc → State → State
parent_step val other sending s = deliver val s.child_pc (record s { parent_pc = waiting })
parent_step val other waiting s = reap other s.child_pc s
parent_step val other (ended status) s = s

-- A step of the child; the system keeps eight bits of the status.
pub child_step : ChildPc → State → State
child_step setting s = record s { child_pc = announcing }
child_step announcing s = record s { child_pc = pausing }
child_step pausing s = s
child_step exiting s = record s { child_pc = exited ((s.num + 1) % 256) }
child_step (exited status) s = s
child_step killed s = s

pub data Event : Type 0 where
  parent_runs child_runs : Event

pub step : (val other : ℕ) → Event → State → State
unfolding parent_step child_step
step val other parent_runs s = parent_step val other s.parent_pc s
step val other child_runs s = child_step s.child_pc s
