-- ===== src/Countdown.antt =====
-- pipe/countdown.c: the parent waits for its three children by reading from a pipe that they hold open
-- and never write to. A fork that fails is not noticed by the program.
pub mod End
mod Tests
use unix_linux_prog_in_c_src.Base.{
  ℕ, zero, suc, ◌+◌, Bool, true, false, ltb, ◌==◌, ◌&&◌, not, if◌then◌else◌,
}
use unix_linux_prog_in_c_src.Base.Family.{put, weigh}

-- CHILDREN
abbrev pub children : ℕ
children = 3

pub data Pc : Type 0 where
  forking : (i : ℕ) → Pc  -- so many calls of child() have been made
  closing : Pc
  reading : Pc
  ended : Pc

-- A child: not forked, before it closes the read end, asleep, and behind _exit().
pub data Child : Type 0 where
  unborn starting sleeping exited : Child

pub record State : Type 0 where
  pub pc : Pc
  pub write_open : Bool  -- the write end, in the parent
  pub child : ℕ → Child

pub start : State
start = record { pc = forking 0; write_open = true; child = λ i. unborn }

-- The descriptors for the write end in a child.
abbrev pub holds : Child → ℕ
holds unborn = 0
holds starting = 1
holds sleeping = 1
holds exited = 0

-- read() returns 0 when nobody has the write end open, and blocks before.
abbrev pub is_over : State → Bool
is_over s = not s.write_open && (weigh holds s.child children == 0)

-- A step of `main`; the flag says that fork() does not fail.
pub main_step : (ok : Bool) → Pc → State → State
unfolding weigh
main_step ok (forking i) s =
    if ltb i children
    then record s { pc = forking (i + 1); child = if ok then put i starting s.child else s.child }
    else record s { pc = closing }
main_step ok closing s = record s { pc = reading; write_open = false }
main_step ok reading s = if is_over s then record s { pc = ended } else s
main_step ok ended s = s

-- A step of `child` in the child.
abbrev pub next : Child → Child
next unborn = unborn
next starting = sleeping
next sleeping = exited
next exited = exited

pub data Event : Type 0 where
  main_runs : (ok : Bool) → Event
  child_runs : (i : ℕ) → Event

pub step : Event → State → State
unfolding main_step
step (main_runs ok) s = main_step ok s.pc s
step (child_runs i) s = record s { child = put i (next (s.child i)) s.child }
