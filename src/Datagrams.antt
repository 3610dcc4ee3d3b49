-- ===== src/Datagrams.antt =====
-- udp/udp-client.c sends what it reads in datagrams, and udp/udp-server.c prints what it receives; each
-- datagram is a list of bytes. The calls that set the sockets up succeed.
pub mod Transfer
mod Tests
use unix_linux_prog_in_c_src.Base.{ℕ, Bool, true, false, List, [], ◌∷◌, ◌++◌, take, if◌then◌else◌}
use unix_linux_prog_in_c_src.Servers.{
  Got, bytes, eof, failed, Status, waiting, ended, error, Outcome, stop, printed_before,
}

-- A round of the loop of the client: what read() returns, and whether sendto() succeeds.
pub record Round : Type 0 where
  pub input : Got
  pub sends : Bool

pub record Sent : Type 0 where
  pub datagrams : List (List ℕ)
  pub status : Status

abbrev pub sent_before : List ℕ → Sent → Sent
sent_before d s = record { datagrams = d ∷ s.datagrams; status = s.status }

abbrev pub send : Got → (sends : Bool) → Sent → Sent
send (bytes b) sends later =
    if sends then sent_before b later else record { datagrams = []; status = error }
send eof sends later = record { datagrams = []; status = ended }
send failed sends later = record { datagrams = []; status = error }

-- The loop of udp-client.c, with the test behind it.
pub client : List Round → Sent
client [] = record { datagrams = []; status = waiting }
client (r ∷ rs) = send r.input r.sends (client rs)

-- BUF_LEN of udp-server.c; a datagram that is longer is cut.
abbrev pub buf_len : ℕ
buf_len = 1024

-- What recvfrom() returns.
pub data Received : Type 0 where
  datagram : (d : List ℕ) → Received
  fails : Received

abbrev pub is_empty : List ℕ → Bool
is_empty [] = true
is_empty (x ∷ xs) = false

-- The loop of udp-server.c, with the test behind it.
pub server : List Received → Outcome
server [] = stop waiting
server (datagram d ∷ rs) =
    let later = printed_before (take buf_len d) (server rs) in
    if is_empty (take buf_len d) then stop ended else later
server (fails ∷ rs) = stop error
