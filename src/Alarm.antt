-- ===== src/Alarm.antt =====
-- signals/alarm.c: a read() that SIGALRM is to interrupt after some seconds. The handler is installed
-- without SA_RESTART.
pub mod Timeout
mod Tests
use unix_linux_prog_in_c_src.Base.{
  ℕ, ◌+◌, Bool, true, false, Option, none, some, ltb, if◌then◌else◌,
}

-- `size` is what read() returns; `none` is the -1 of an interrupted call.
pub data Pc : Type 0 where
  setting : Pc  -- alarm(SECS)
  calling : Pc  -- before read() is called
  reading : Pc  -- in read()
  returned : (size : Option ℕ) → Pc
  disarmed : (size : Option ℕ) → Pc  -- behind alarm(0)
  ended : Pc

pub record State : Type 0 where
  pub pc : Pc
  pub armed : Bool
  pub fired : Bool
  pub input : Option ℕ  -- how many bytes there are for read(); 0 is the end of the input
  pub messages : ℕ  -- of the handler
  pub printed : ℕ  -- bytes of the input

pub start : State
start = record {
  pc = setting;
  armed = false;
  fired = false;
  input = none;
  messages = 0;
  printed = 0;
}

-- A signal interrupts read().
abbrev pub behind_signal : Pc → Pc
behind_signal setting = setting
behind_signal calling = calling
behind_signal reading = returned none
behind_signal (returned size) = returned size
behind_signal (disarmed size) = disarmed size
behind_signal ended = ended

abbrev pub handler : State → State
handler s = record s {
  messages = s.messages + 1;
  armed = false;
  fired = true;
  pc = behind_signal s.pc;
}

abbrev pub bufsize : ℕ
bufsize = 4096

-- read() waits for input, and takes what fits into the buffer.
abbrev pub read : Option ℕ → State → State
read none s = s
read (some n) s = record s { pc = returned (some (if ltb n bufsize then n else bufsize)) }

abbrev pub print : Option ℕ → State → State
print none s = record s { pc = ended }
print (some n) s = record s { printed = s.printed + n; pc = ended }

-- A step of `main`.
pub main_step : Pc → State → State
main_step setting s = record s { armed = true; pc = calling }
main_step calling s = record s { pc = reading }
main_step reading s = read s.input s
main_step (returned size) s = record s { armed = false; pc = disarmed size }
main_step (disarmed size) s = print size s
main_step ended s = s

pub data Event : Type 0 where
  main_runs : Event
  time_is_up : Event
  input_comes : (n : ℕ) → Event

pub step : Event → State → State
unfolding main_step
step main_runs s = main_step s.pc s
step time_is_up s = if s.armed then handler s else s
step (input_comes n) s = record s { input = some n }
