-- ===== src/Connect/Setup.antt =====
-- The state of non-blocking-connect.c when it starts to wait, where every address has got a socket.
use unix_linux_prog_in_c_src.Base.{
  ℕ, ◌+◌, ◌≤◌, ◌≡◌, refl, arith, Bool, true, false, ◌&&◌, Option, none, some, List, [], ◌∷◌, ltb,
  leb, subst, ◌==◌, length, All,
}
use unix_linux_prog_in_c_src.Base.Family.{weigh, weigh-beyond}
use unix_linux_prog_in_c_src.Connect.{
  Outcome, in_progress, connected_now, failed_now, Address, other_family, no_socket, made, Report,
  connected, failed, timed_out, Host, Init, connect, put_slot, init_host, with_host, init_hosts,
  before,
}

abbrev pub bit : Bool → ℕ
bit true = 1
bit false = 0

-- How often a descriptor is reported.
abbrev pub about : ℕ → Report → ℕ
about fd (connected k) = bit (k == fd)
about fd (failed k error) = bit (k == fd)
about fd (timed_out k) = bit (k == fd)

unfoldable pub mentions : ℕ → List Report → ℕ
mentions fd [] = 0
mentions fd (r ∷ rs) = about fd r + mentions fd rs

-- The slots hold the descriptors from `lo` up to `hi`, in order.
abbrev pub Consecutive : ℕ → List (Option ℕ) → ℕ → Type 0
Consecutive lo [] hi = lo ≡ hi
Consecutive lo (none ∷ slots) hi = ⊥
Consecutive lo (some fd ∷ slots) hi = (fd ≡ lo) × Consecutive (lo + 1) slots hi

abbrev pub HostsFrom : ℕ → List Host → ℕ → Type 0
HostsFrom lo [] hi = lo ≡ hi
HostsFrom lo (h ∷ hs) hi =
    (m : ℕ) × Consecutive lo h.sockets m × (h.numsock ≡ length h.sockets) × HostsFrom m hs hi

abbrev pub IsMade : Address → Type 0
IsMade other_family = ⊥
IsMade no_socket = ⊥
IsMade (made o) = Unit

-- Every address of a host has got a socket, and there are no more of them than the array has places.
abbrev pub Served : List Address → Type 0
Served addrs = All IsMade addrs × (length addrs ≤ 3)

-- What the first loop keeps: each descriptor so far is in the set, or has been reported once.
pub record Sound (st : Init) : Type 0 where
  pub once :
      (fd : ℕ) → mentions fd st.printed + bit (st.wrfds fd) ≡ bit (leb 3 fd && ltb fd st.next_fd)
  pub counted : st.n + weigh bit st.wrfds st.next_fd ≡ st.num_sockets
  pub total : st.next_fd ≡ 3 + st.num_sockets

connect-Sound : (o : Outcome) (st : Init) → Sound st → Sound (connect o st)
unfolding connect mentions weigh
connect-Sound in_progress st v = record {
  once = λ fd. ground (arith, v.once fd, v.total);
  counted = ground (arith, v.counted, weigh-beyond bit st.wrfds st.next_fd true st.next_fd);
  total = omega (arith, v.total);
}
connect-Sound connected_now st v = record {
  once = λ fd. ground (arith, v.once fd, v.total);
  counted = ground (arith, v.counted, v.once st.next_fd, v.total);
  total = omega (arith, v.total);
}
connect-Sound (failed_now error) st v = record {
  once = λ fd. ground (arith, v.once fd, v.total);
  counted = ground (arith, v.counted, v.once st.next_fd, v.total);
  total = omega (arith, v.total);
}

connect-next_fd : (o : Outcome) (st : Init) → (connect o st).next_fd ≡ st.next_fd + 1
unfolding connect
connect-next_fd in_progress st = refl
connect-next_fd connected_now st = refl
connect-next_fd (failed_now error) st = refl

-- What the first loop gives.
abbrev Filled : Init → Option (Host × Init) → Type 0
Filled st none = ⊥
Filled st (some (h, st')) =
    Sound st' × Consecutive st.next_fd h.sockets st'.next_fd × (h.numsock ≡ length h.sockets)

put_slot-Filled :
    (o : Outcome) (st : Init) (r : Option (Host × Init))
    → Filled (connect o st) r
    → Filled st (put_slot (some st.next_fd) r)
put_slot-Filled o st none f = f
put_slot-Filled o st (some (h, st')) (v, c, e) = (
  v,
  (refl, subst (λ k. Consecutive k h.sockets st'.next_fd) (connect-next_fd o st) c),
  omega (arith, e),
)

init_host-Filled :
    (i : ℕ) (addrs : List Address) (st : Init)
    → All IsMade addrs
    → i + length addrs ≤ 3
    → Sound st
    → Filled st (init_host i addrs st)
unfolding init_host
init_host-Filled i [] st m le v = (v, refl, refl)
init_host-Filled i (other_family ∷ addrs) st m le v = absurd m.0
init_host-Filled i (no_socket ∷ addrs) st m le v = absurd m.0
init_host-Filled i (made o ∷ addrs) st m le v =
    let t : ltb i 3 ≡ true = ground arith in
    rw t (
      put_slot-Filled o st (init_host (i + 1) addrs (connect o st)) (
        init_host-Filled (i + 1) addrs (connect o st) m.1 (omega (arith, le))
          (connect-Sound o st v)))

abbrev pub AllFilled : ℕ → Option (List Host × Init) → Type 0
AllFilled lo none = ⊥
AllFilled lo (some (hs, st)) = Sound st × HostsFrom lo hs st.next_fd

with_host-AllFilled :
    (lo : ℕ) (h : Host) (m : ℕ) (r : Option (List Host × Init))
    → Consecutive lo h.sockets m
    → h.numsock ≡ length h.sockets
    → AllFilled m r
    → AllFilled lo (with_host h r)
with_host-AllFilled lo h m none c e f = f
with_host-AllFilled lo h m (some (hs, st)) c e (v, from) = (v, (m, c, e, from))

init_hosts-AllFilled :
    (lists : List (List Address)) (st : Init)
    → All Served lists
    → Sound st
    → AllFilled st.next_fd (init_hosts lists st)
unfolding init_hosts
init_hosts-AllFilled [] st m v = (v, refl)
init_hosts-AllFilled (addrs ∷ rest) st m v =
    more (λ st' w. init_hosts-AllFilled rest st' m.1 w) (init_host 0 addrs st)
      (init_host-Filled 0 addrs st m.0.0 (omega (arith, m.0.1)) v)
  where
    more :
        ((st' : Init) → Sound st' → AllFilled st'.next_fd (init_hosts rest st'))
        → (r : Option (Host × Init)) → Filled st r
        → AllFilled st.next_fd
            (elim r [ none ↦ none | some (h, st') ↦ with_host h (init_hosts rest st') ])
    more ih none f = f
    more ih (some (h, st')) (w, c, e) =
        with_host-AllFilled st.next_fd h st'.next_fd (init_hosts rest st') c e (ih st' w)

before-Sound : Sound before
unfolding mentions weigh
before-Sound = record { once = λ fd. ground arith; counted = refl; total = refl }

-- The first loop ends, and fills the arrays without gaps.
pub set_up :
    (lists : List (List Address)) → All Served lists → AllFilled 3 (init_hosts lists before)
set_up lists m = init_hosts-AllFilled lists before m before-Sound
