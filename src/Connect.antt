-- ===== src/Connect.antt =====
-- select/non-blocking-connect.c: connects to all addresses of all hosts without blocking, and then
-- waits by select() until each connect has succeeded or failed, ten seconds without news at most.
-- The environment gives the addresses of each host, what socket() and connect() do for each of them,
-- and which sockets get ready in each second. The calls that end the program when they fail do not
-- fail here, but select().
pub mod Setup
pub mod Check
pub mod Reports
pub mod Rounds
pub mod Faults
mod Tests
use unix_linux_prog_in_c_src.Base.{
  ℕ, zero, suc, ◌+◌, Bool, true, false, ◌&&◌, ◌||◌, Option, none, some, List, [], ◌∷◌, ltb, ◌==◌,
  if◌then◌else◌,
}
use unix_linux_prog_in_c_src.Base.Family.{put}

-- TIMEOUT and MAX_SOCKETS
abbrev pub timeout : ℕ
timeout = 10

abbrev pub max_sockets : ℕ
max_sockets = 3

pub data Outcome : Type 0 where
  in_progress connected_now : Outcome
  failed_now : (error : ℕ) → Outcome

-- An address from getaddrinfo.
pub data Address : Type 0 where
  other_family : Address  -- neither AF_INET nor AF_INET6
  no_socket : Address  -- socket() fails
  made : (o : Outcome) → Address

-- What is printed of a socket in the end.
pub data Report : Type 0 where
  connected : (fd : ℕ) → Report
  failed : (fd error : ℕ) → Report
  timed_out : (fd : ℕ) → Report

-- host_t, with `none` for a descriptor of -1.
pub record Host : Type 0 where
  pub sockets : List (Option ℕ)
  pub numsock : ℕ

-- The variables of the first loop. socket() returns the next descriptor, since none is closed.
pub record Init : Type 0 where
  pub next_fd : ℕ
  pub wrfds : ℕ → Bool
  pub n : ℕ
  pub num_sockets : ℕ
  pub printed : List Report  -- the last one first

-- connect() on the descriptor `next_fd`.
pub connect : Outcome → Init → Init
connect in_progress st = record st {
  next_fd = st.next_fd + 1;
  wrfds = put st.next_fd true st.wrfds;
  num_sockets = st.num_sockets + 1;
}
connect connected_now st = record st {
  next_fd = st.next_fd + 1;
  n = st.n + 1;
  num_sockets = st.num_sockets + 1;
  printed = connected st.next_fd ∷ st.printed;
}
connect (failed_now error) st = record st {
  next_fd = st.next_fd + 1;
  n = st.n + 1;
  num_sockets = st.num_sockets + 1;
  printed = failed st.next_fd error ∷ st.printed;
}

abbrev pub with_slot : Option ℕ → Host → Host
with_slot none h = record h { sockets = none ∷ h.sockets }
with_slot (some fd) h = record { sockets = some fd ∷ h.sockets; numsock = h.numsock + 1 }

-- Adds a slot before the ones of a result.
abbrev pub put_slot : Option ℕ → Option (Host × Init) → Option (Host × Init)
put_slot slot none = none
put_slot slot (some (h, st)) = some (with_slot slot h, st)

-- The loop over the addresses of a host, from the index `i` on; `none` is a write behind the array.
pub init_host : (i : ℕ) → List Address → Init → Option (Host × Init)
unfolding connect
init_host i [] st = some (record { sockets = []; numsock = 0 }, st)
init_host i (other_family ∷ addrs) st = put_slot none (init_host (i + 1) addrs st)
init_host i (no_socket ∷ addrs) st =
    if ltb i max_sockets then put_slot none (init_host (i + 1) addrs st) else none
init_host i (made o ∷ addrs) st =
    if ltb i max_sockets
    then put_slot (some st.next_fd) (init_host (i + 1) addrs (connect o st))
    else none

abbrev pub with_host : Host → Option (List Host × Init) → Option (List Host × Init)
with_host h none = none
with_host h (some (hs, st)) = some (h ∷ hs, st)

pub init_hosts : List (List Address) → Init → Option (List Host × Init)
init_hosts [] st = some ([], st)
init_hosts (addrs ∷ rest) st = elim (init_host 0 addrs st) [
  | none ↦ none
  | some (h, st') ↦ with_host h (init_hosts rest st')
]

abbrev pub no_fds : ℕ → Bool
no_fds fd = false

-- FD_ZERO and n = 0; 0, 1 and 2 are open.
abbrev pub before : Init
before = record { next_fd = 3; wrfds = no_fds; n = 0; num_sockets = 0; printed = [] }

pub record State : Type 0 where
  pub hosts : List Host
  pub next_fd : ℕ
  pub wrfds : ℕ → Bool
  pub wrfds_orig : ℕ → Bool
  pub n : ℕ
  pub num_sockets : ℕ
  pub timeouts : ℕ
  pub printed : List Report
  pub ended : Bool
  pub select_failed : Bool

abbrev pub select_from : List Host × Init → State
select_from (hs, st) = record {
  hosts = hs;
  next_fd = st.next_fd;
  wrfds = st.wrfds;
  wrfds_orig = st.wrfds;
  n = st.n;
  num_sockets = st.num_sockets;
  timeouts = 0;
  printed = st.printed;
  ended = false;
  select_failed = false;
}

-- Whether select() has found a descriptor below `bound`.
pub any_below : ℕ → (ℕ → Bool) → Bool
any_below zero f = false
any_below (suc bound) f = f bound || any_below bound f

-- What a check of the hosts changes.
pub record Progress : Type 0 where
  pub orig : ℕ → Bool
  pub finished : ℕ
  pub lines : List Report

abbrev pub verdict : (fd error : ℕ) → Report
verdict fd error = if error == 0 then connected fd else failed fd error

abbrev pub settle : (fd error : ℕ) → Progress → Progress
settle fd error p = record {
  orig = put fd false p.orig;
  finished = p.finished + 1;
  lines = verdict fd error ∷ p.lines;
}

-- The loop over the sockets of a host, with the rounds left; `error` is what getsockopt() gives.
-- FD_ISSET for -1, which is undefined, is taken to be false.
pub check_slots : (w : ℕ → Bool) (error : ℕ → ℕ) → ℕ → List (Option ℕ) → Progress → Progress
check_slots w error zero slots p = p
check_slots w error (suc left) [] p = p
check_slots w error (suc left) (none ∷ slots) p = check_slots w error left slots p
check_slots w error (suc left) (some fd ∷ slots) p =
    check_slots w error left slots (if w fd then settle fd (error fd) p else p)

pub check_hosts : (w : ℕ → Bool) (error : ℕ → ℕ) → List Host → Progress → Progress
check_hosts w error [] p = p
check_hosts w error (h ∷ hs) p = check_hosts w error hs (check_slots w error h.numsock h.sockets p)

-- The loop behind the one over select().
pub late_slots : (orig : ℕ → Bool) → ℕ → List (Option ℕ) → List Report → List Report
late_slots orig zero slots lines = lines
late_slots orig (suc left) [] lines = lines
late_slots orig (suc left) (none ∷ slots) lines = late_slots orig left slots lines
late_slots orig (suc left) (some fd ∷ slots) lines =
    late_slots orig left slots (if orig fd then timed_out fd ∷ lines else lines)

pub late_hosts : (orig : ℕ → Bool) → List Host → List Report → List Report
late_hosts orig [] lines = lines
late_hosts orig (h ∷ hs) lines = late_hosts orig hs (late_slots orig h.numsock h.sockets lines)

abbrev pub finish : State → State
finish s = record s { printed = late_hosts s.wrfds_orig s.hosts s.printed; ended = true }

-- select() has found descriptors; `w` is what it leaves in the set.
abbrev pub found : (w : ℕ → Bool) (error : ℕ → ℕ) → State → State
found w error s =
    let p =
      check_hosts w error s.hosts
        (record { orig = s.wrfds_orig; finished = s.n; lines = s.printed }) in
    record s { wrfds = p.orig; wrfds_orig = p.orig; n = p.finished; printed = p.lines }

-- select() has timed out, which empties the set.
abbrev pub passed : State → State
passed s =
    if s.timeouts + 1 == timeout
    then finish (record s { timeouts = s.timeouts + 1; wrfds = no_fds })
    else record s { timeouts = s.timeouts + 1; wrfds = no_fds }

pub data Event : Type 0 where
  -- Which sockets get ready within a second, and what getsockopt() says of each.
  second : (ready : ℕ → Bool) (error : ℕ → ℕ) → Event
  select_fails : Event

pub round : Event → State → State
unfolding any_below check_hosts late_hosts
round (second ready error) s =
    let w = λ (fd : ℕ). s.wrfds fd && ready fd in
    if any_below s.next_fd w then found w error s else passed s
round select_fails s = record s { ended = true; select_failed = true }

-- The loop over select().
pub step : Event → State → State
unfolding round
step e s = if s.ended then s else if s.n == s.num_sockets then finish s else round e s
