-- ===== src/PingPong.antt =====
-- signals/ping-pong.c: the parent and the child send SIGTERM to each other, each from its handler, which
-- prints a line first. The signal is blocked as long as the handler runs.
pub mod Turns
mod Tests
use unix_linux_prog_in_c_src.Base.{Bool, true, false, List, [], ◌∷◌, if◌then◌else◌}

pub data Who : Type 0 where
  parent child : Who

-- Where a process stands; the parent starts at `initiating`, and the child at `fresh`.
pub data Pc : Type 0 where
  initiating : Pc  -- the sleep, and the first kill
  fresh : Pc  -- before sigaction
  armed : Pc  -- before the child sets `pid`
  aimed : Pc  -- before the child sets `msg`
  pausing : Pc
  writing : Pc  -- in the handler
  killing : Pc
  returning : Pc  -- behind the kill, and still in the handler
  dead : Pc

pub record Process : Type 0 where
  pub pc : Pc
  pub pending : Bool

pub record State : Type 0 where
  pub parent_process : Process
  pub child_process : Process
  pub printed : List Who  -- by whom, the latest first

-- Behind the fork. The parent has set its handler and its variables; a signal does not come before that.
pub start : State
start = record {
  parent_process = record { pc = initiating; pending = false };
  child_process = record { pc = fresh; pending = false };
  printed = [];
}

-- A signal comes: without a handler it ends the process, and as long as `msg` is a null pointer the
-- handler crashes.
abbrev pub signal : Pc → Process → Process
signal initiating p = record p { pc = writing }
signal fresh p = record p { pc = dead }
signal armed p = record p { pc = dead }
signal aimed p = record p { pc = dead }
signal pausing p = record p { pc = writing }
signal writing p = record p { pending = true }
signal killing p = record p { pending = true }
signal returning p = record p { pending = true }
signal dead p = p

-- kill(), from each of the two.
abbrev pub kill : Who → State → State
kill parent s = record s { child_process = signal s.child_process.pc s.child_process }
kill child s = record s { parent_process = signal s.parent_process.pc s.parent_process }

abbrev pub process : Who → State → Process
process parent s = s.parent_process
process child s = s.child_process

abbrev pub moved : Who → Pc → State → State
moved parent pc s = record s { parent_process = record (s.parent_process) { pc = pc } }
moved child pc s = record s { child_process = record (s.child_process) { pc = pc } }

-- The handler returns, and the signal is not blocked any more: if one is pending, the handler runs again.
abbrev pub return : Who → State → State
return parent s =
    if s.parent_process.pending
    then record s { parent_process = record { pc = writing; pending = false } }
    else moved parent pausing s
return child s =
    if s.child_process.pending
    then record s { child_process = record { pc = writing; pending = false } }
    else moved child pausing s

-- A step of a process.
pub advance : Who → Pc → State → State
advance who initiating s = kill who (moved who pausing s)
advance who fresh s = moved who armed s
advance who armed s = moved who aimed s
advance who aimed s = moved who pausing s
advance who pausing s = s
advance who writing s = moved who killing (record s { printed = who ∷ s.printed })
advance who killing s = kill who (moved who returning s)
advance who returning s = return who s
advance who dead s = s

pub step : Who → State → State
unfolding advance
step who s = advance who (process who s).pc s
