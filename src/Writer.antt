-- ===== src/Writer.antt =====
-- select/write-select.c: the server writes to its client without end, and counts the bytes. Its socket
-- blocks; the system keeps `limit` bytes of the connection, a parameter, until the client reads them.
-- A client that goes away closes the connection or breaks it: what the system keeps then is lost sooner
-- or later, and write() takes bytes as before until the system knows that the connection is broken.
pub mod Total
mod Tests
use unix_linux_prog_in_c_src.Base.{
  ℕ, ◌+◌, ◌-◌, ◌%◌, ◌^◌, Bool, true, false, ltb, ◌&&◌, ◌==◌, if◌then◌else◌,
}

abbrev pub buf_len : ℕ
buf_len = 1024

pub data Pc : Type 0 where
  selecting : Pc
  writing : (left : ℕ) → Pc  -- in write(), with bytes that the system has not taken yet
  failed : Pc  -- ended by err(), or by SIGPIPE

pub record State : Type 0 where
  pub queued : ℕ
  pub read_bytes : ℕ  -- by the client
  pub lost : ℕ  -- bytes that were taken and that nobody has read or can read
  pub closed : Bool
  pub total : ℕ
  pub pc : Pc

pub start : State
start = record { queued = 0; read_bytes = 0; lost = 0; closed = false; total = 0; pc = selecting }

-- A size_t.
abbrev pub add : ℕ → ℕ → ℕ
add total n = (total + n) % 2 ^ 64

-- write() on a connection that is known to be broken: it returns what has been taken, or fails.
abbrev pub cut : ℕ → State → State
cut left s =
    if left == buf_len
    then record s { pc = failed }
    else record s { total = add s.total (buf_len - left); pc = selecting }

-- write() takes what there is room for, and blocks for the rest.
abbrev pub write : (limit left : ℕ) → State → State
write limit left s =
    if ltb (limit - s.queued) left
    then record s {
      queued = s.queued + (limit - s.queued);
      pc = writing (left - (limit - s.queued));
    }
    else record s { queued = s.queued + left; total = add s.total buf_len; pc = selecting }

-- A step of the loop; select() waits for room, or for a broken connection. The flag says whether the
-- system knows by now that a connection which the client has closed is broken.
pub server_step : (limit : ℕ) → (broken : Bool) → Pc → State → State
server_step limit broken selecting s =
    if s.closed && broken
    then record s { pc = writing buf_len }
    else if ltb s.queued limit
    then record s { pc = writing buf_len }
    else s
server_step limit broken (writing left) s =
    if s.closed && broken then cut left s else write limit left s
server_step limit broken failed s = s

-- The client reads some of what there is.
abbrev pub taken : ℕ → ℕ → ℕ
taken n queued = if ltb n queued then n else queued

abbrev pub client_reads : ℕ → State → State
client_reads n s = record s {
  queued = s.queued - taken n s.queued;
  read_bytes = s.read_bytes + taken n s.queued;
}

-- Of the bytes for a client that is gone, the system throws some away, or sends them for nothing.
abbrev pub discard : ℕ → State → State
discard n s = record s { queued = s.queued - taken n s.queued; lost = s.lost + taken n s.queued }

pub data Event : Type 0 where
  server_runs : (broken : Bool) → Event
  reads : (n : ℕ) → Event
  closes : Event
  discards : (n : ℕ) → Event

pub step : (limit : ℕ) → Event → State → State
unfolding server_step
step limit (server_runs broken) s = server_step limit broken s.pc s
step limit (reads n) s = if s.closed then s else client_reads n s
step limit closes s = record s { closed = true }
step limit (discards n) s = if s.closed then discard n s else s
