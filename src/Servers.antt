-- ===== src/Servers.antt =====
-- The programs that copy from a connection or from the standard input by a loop over read() and
-- write(): select/select.c, select/connect-only.c, tcp/tcp-sink-server.c,
-- tcp/trivial-tcp-echo-server.c and read/simple-cat.c. The calls that set the sockets up succeed, and
-- write() writes all of what it is given.
pub mod Unchecked
mod Tests
use unix_linux_prog_in_c_src.Base.{
  ℕ, Bool, true, false, Option, none, some, List, [], ◌∷◌, ◌++◌, ◌==◌, if◌then◌else◌,
}

-- What a call of read() returns: more than 0, 0, or -1.
pub data Got : Type 0 where
  bytes : (b : List ℕ) → Got
  eof : Got
  failed : Got

-- How a program, or the loop over a connection, stands: it waits for more, is at its end, has ended by
-- err(), or has called write() with a size of -1.
pub data Status : Type 0 where
  waiting ended error overrun : Status

pub record Outcome : Type 0 where
  pub out : List ℕ
  pub status : Status

abbrev pub stop : Status → Outcome
stop status = record { out = []; status = status }

abbrev pub printed_before : List ℕ → Outcome → Outcome
printed_before b o = record { out = b ++ o.out; status = o.status }

-- `while ((n = read(newsock, buf, 100)) > 0) write(1, buf, n);` and the test for -1.
pub serve : List Got → Outcome
serve [] = stop waiting
serve (bytes b ∷ gs) = printed_before b (serve gs)
serve (eof ∷ gs) = stop ended
serve (failed ∷ gs) = stop error

-- simple-cat.c: the same without the test.
pub simple_cat : List Got → Outcome
simple_cat [] = stop waiting
simple_cat (bytes b ∷ gs) = printed_before b (simple_cat gs)
simple_cat (eof ∷ gs) = stop ended
simple_cat (failed ∷ gs) = stop ended

-- What accept() returns: -1, or a connection, given by what is read from it.
pub data Accepted : Type 0 where
  refused : Accepted
  connection : (gs : List Got) → Accepted

-- What select() finds ready.
pub record Round : Type 0 where
  pub input : Option Got
  pub client : Option Accepted

abbrev pub is_ended : Status → Bool
is_ended ended = true
is_ended waiting = false
is_ended error = false
is_ended overrun = false

-- The loop over connections goes on behind one that has been read to its end.
abbrev pub behind : Outcome → Outcome → Outcome
behind o later = if is_ended o.status then printed_before o.out later else o

-- The two halves of a round of select.c. read() on a descriptor of -1 fails.
abbrev pub on_input : Option Got → Outcome → Outcome
on_input none later = later
on_input (some (bytes b)) later = printed_before b later
on_input (some eof) later = stop ended
on_input (some failed) later = stop error

abbrev pub on_client : Option Accepted → Outcome → Outcome
on_client none later = later
on_client (some refused) later = stop error
on_client (some (connection gs)) later = behind (serve gs) later

pub select_loop : List Round → Outcome
unfolding serve
select_loop [] = stop waiting
select_loop (r ∷ rs) = on_input r.input (on_client r.client (select_loop rs))

-- connect-only.c, from its interval on; -1 stands for none given.
pub connect_only : (no_interval : Bool) → List Got → Outcome
unfolding serve
connect_only true gs = stop waiting
connect_only false gs = serve gs

-- The loop over a connection in tcp-sink-server.c: `while ((n = read(newsock, buf, BUF_LEN)) != 0)`.
-- A failed read() is followed by a write() of -1 bytes.
pub sink : List Got → Outcome
sink [] = stop waiting
sink (bytes b ∷ gs) = printed_before b (sink gs)
sink (eof ∷ gs) = stop ended
sink (failed ∷ gs) = stop overrun

pub sink_server : List Accepted → Outcome
unfolding sink
sink_server [] = stop waiting
sink_server (refused ∷ rest) = stop error
sink_server (connection gs ∷ rest) = behind (sink gs) (sink_server rest)

-- The loop over a connection in trivial-tcp-echo-server.c, with what is sent back.
pub echo : List Got → Outcome × List ℕ
echo [] = (stop waiting, [])
echo (bytes b ∷ gs) = let (o, sent) = echo gs in (printed_before b o, b ++ sent)
echo (eof ∷ gs) = (stop ended, [])
echo (failed ∷ gs) = (stop overrun, [])

-- The loop over connections, with what each of them is sent back.
pub echo_server : List Accepted → Outcome × List (List ℕ)
unfolding echo
echo_server [] = (stop waiting, [])
echo_server (refused ∷ rest) = (stop error, [])
echo_server (connection gs ∷ rest) =
    let (o, sent) = echo gs in
    let (later, sents) = echo_server rest in
    (behind o later, sent ∷ (if is_ended o.status then sents else []))
