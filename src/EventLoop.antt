-- ===== src/EventLoop.antt =====
-- signals/event-loop.c: a loop that sleeps in poll() and announces a signal by a flag of its handler.
pub mod Messages
mod Tests
use unix_linux_prog_in_c_src.Base.{ℕ, ◌+◌, Bool, true, false, if◌then◌else◌}

pub data Pc : Type 0 where
  polling testing announcing clearing : Pc

pub record State : Type 0 where
  pub delivered : Bool
  pub pc : Pc
  pub signals : ℕ  -- that have come
  pub messages : ℕ  -- that have been printed

pub start : State
start = record { delivered = false; pc = polling; signals = 0; messages = 0 }

-- A signal interrupts poll().
abbrev pub interrupted : Pc → Pc
interrupted polling = testing
interrupted testing = testing
interrupted announcing = announcing
interrupted clearing = clearing

pub sig_handler : State → State
sig_handler s = record s { delivered = true; signals = s.signals + 1; pc = interrupted s.pc }

-- A step of the loop; poll() returns at its timeout.
pub loop : Pc → State → State
loop polling s = record s { pc = testing }
loop testing s = if s.delivered then record s { pc = announcing } else record s { pc = polling }
loop announcing s = record s { messages = s.messages + 1; pc = clearing }
loop clearing s = record s { delivered = false; pc = polling }

pub data Event : Type 0 where
  loop_runs signal_comes : Event

pub step : Event → State → State
unfolding loop sig_handler
step loop_runs s = loop s.pc s
step signal_comes s = sig_handler s
