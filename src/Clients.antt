-- ===== src/Clients.antt =====
-- tcp/connect.c and tcp/linger.c send what they read to a server; the address is found, and the
-- connection made. write() takes all that it is given, or fails without a signal.
pub mod Endings
mod Tests
use unix_linux_prog_in_c_src.Base.{
  ℕ, zero, suc, ◌+◌, Bool, true, false, Option, none, some, List, [], ◌∷◌, ◌++◌, if◌then◌else◌,
}
use unix_linux_prog_in_c_src.Servers.{Got, bytes, eof, failed, Status, waiting, ended, error}

-- A round of the loop: what read() returns, and whether write() succeeds.
pub record Round : Type 0 where
  pub input : Got
  pub writes : Bool

pub record Outcome : Type 0 where
  pub sent : List ℕ
  pub closes : ℕ  -- calls of close() for the connection
  pub server_closed : Bool  -- the message
  pub status : Status

abbrev pub sent_before : List ℕ → Outcome → Outcome
sent_before b o = record o { sent = b ++ o.sent }

-- Behind the loop of connect.c; the flag is `n != 1`.
abbrev pub finish : (n_not_one : Bool) (closes : ℕ) → Outcome
finish true closes = record { sent = []; closes = closes + 1; server_closed = true; status = ended }
finish false closes = record { sent = []; closes = closes; server_closed = false; status = ended }

abbrev pub connect_round : Got → (writes : Bool) → Outcome → Outcome
connect_round (bytes b) writes later = if writes then sent_before b later else finish true 0
connect_round eof writes later = finish false 1
connect_round failed writes later = finish false 1

-- The loop of connect.c and what is behind it.
pub connect : List Round → Outcome
connect [] = record { sent = []; closes = 0; server_closed = false; status = waiting }
connect (r ∷ rs) = connect_round r.input r.writes (connect rs)

-- linger.c keeps the result of read() in a size_t, so -1 is the largest one, and write() is called
-- with it.
pub record Lingering : Type 0 where
  pub sent : List ℕ
  pub overruns : ℕ  -- calls of write() with that size
  pub status : Status

abbrev pub linger_round : Got → (writes : Bool) → Lingering → Lingering
linger_round (bytes b) true later = record later { sent = b ++ later.sent }
linger_round (bytes b) false later = later
linger_round eof writes later = record { sent = []; overruns = 0; status = ended }
linger_round failed writes later = record later { overruns = later.overruns + 1 }

-- The loop of linger.c and what is behind it, where close() succeeds.
pub linger : List Round → Lingering
linger [] = record { sent = []; overruns = 0; status = waiting }
linger (r ∷ rs) = linger_round r.input r.writes (linger rs)

-- What getopt() finds in the arguments of linger.c.
pub data Opt : Type 0 where
  linger_option : (optarg : List ℕ) → Opt
  unknown : Opt

-- The loop over the options: the value of `linger`, where -1 is `none`, or the usage. `atoi` is taken
-- to give no negative number.
pub read_options : (atoi : List ℕ → ℕ) → Option ℕ → List Opt → Option (Option ℕ)
read_options atoi value [] = some value
read_options atoi value (linger_option optarg ∷ opts) = read_options atoi (some (atoi optarg)) opts
read_options atoi value (unknown ∷ opts) = none
