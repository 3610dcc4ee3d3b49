-- ===== src/Connect/Faults.antt =====
-- Where non-blocking-connect.c does not do what it means to.
use unix_linux_prog_in_c_src.Base.{
  ℕ, zero, suc, ◌+◌, ◌≤◌, ◌<◌, ◌≡◌, inl, inr, refl, arith, Bool, true, false, ◌&&◌, none, some,
  List, [], ◌∷◌, ltb, ◌==◌, if◌then◌else◌, length, replicate, ap, Bool-cases, if-cases, run, All,
}
use unix_linux_prog_in_c_src.Base.Family.{put}
use unix_linux_prog_in_c_src.Connect.{
  Address, other_family, no_socket, made, in_progress, Host, Init, check_slots, State, select_from,
  any_below, finish, passed, connect, init_host, Event, second, select_fails, round, step,
  init_hosts, before,
}
use unix_linux_prog_in_c_src.Connect.Setup.{IsMade}

-- The set for select() is empty, and the rest is as in `s`.
record Deaf (s t : State) : Type 0 where
  empty : (fd : ℕ) → t.wrfds fd ≡ false
  same_n : t.n ≡ s.n
  same_orig : t.wrfds_orig ≡ s.wrfds_orig

any_below-empty : (b : ℕ) (w : ℕ → Bool) → ((fd : ℕ) → w fd ≡ false) → any_below b w ≡ false
unfolding any_below
any_below-empty zero w h = refl
any_below-empty (suc b) w h = ground (arith, h b, any_below-empty b w h)

finish-Deaf : (s t : State) → Deaf s t → Deaf s (finish t)
finish-Deaf s t d = record { empty = d.empty; same_n = d.same_n; same_orig = d.same_orig }

passed-Deaf : (s t : State) → t.n ≡ s.n → t.wrfds_orig ≡ s.wrfds_orig → Deaf s (passed t)
passed-Deaf s t n o =
    if-cases (Deaf s) (t.timeouts + 1 == 10)
      (finish (record t { timeouts = t.timeouts + 1; wrfds = λ fd. false }))
      (record t { timeouts = t.timeouts + 1; wrfds = λ fd. false })
      (λ e. record { empty = λ fd. refl; same_n = n; same_orig = o })
      (λ e. record { empty = λ fd. refl; same_n = n; same_orig = o })

round-Deaf : (e : Event) (s t : State) → Deaf s t → Deaf s (round e t)
unfolding round
round-Deaf (second ready error) s t d =
    let w : ℕ → Bool = λ fd. t.wrfds fd && ready fd in
    let e = any_below-empty t.next_fd w (λ fd. ground (arith, d.empty fd)) in
    rw e (passed-Deaf s t d.same_n d.same_orig)
round-Deaf select_fails s t d = record {
  empty = d.empty;
  same_n = d.same_n;
  same_orig = d.same_orig;
}

step-Deaf : (e : Event) (s t : State) → Deaf s t → Deaf s (step e t)
unfolding step
step-Deaf e s t d =
    if-cases (Deaf s) t.ended t (if t.n == t.num_sockets then finish t else round e t) (λ h. d)
      (λ going.
        if-cases (Deaf s) (t.n == t.num_sockets) (finish t) (round e t) (λ h. finish-Deaf s t d)
          (λ h. round-Deaf e s t d))

run-Deaf : (es : List Event) (s t : State) → Deaf s t → Deaf s (run step es t)
unfolding run
run-Deaf [] s t d = d
run-Deaf (e ∷ es) s t d = run-Deaf es s (step e t) (step-Deaf e s t d)

-- After one second without news, no connect is noticed any more, whatever gets ready later: the
-- sockets that are left stay the same until they are reported as timed out.
pub nothing_after_timeout :
    (s : State) (ready : ℕ → Bool) (error : ℕ → ℕ) (es : List Event)
    → any_below s.next_fd (λ fd. s.wrfds fd && ready fd) ≡ false
    → let t = run step es (round (second ready error) s) in
      (t.n ≡ s.n) × (t.wrfds_orig ≡ s.wrfds_orig)
unfolding round
nothing_after_timeout s ready error es quiet =
    let d = run-Deaf es s (passed s) (passed-Deaf s s refl refl) in rw quiet (d.same_n, d.same_orig)

-- One host with an address of another family before an address whose connect is in progress.
abbrev pub skipping : List (List Address)
skipping = (other_family ∷ made in_progress ∷ []) ∷ []

abbrev all_ready : ℕ → Bool
all_ready fd = true

skipped : List Host × Init
skipped = (
  record { sockets = none ∷ some 3 ∷ []; numsock = 1 } ∷ [],
  record { next_fd = 4; wrfds = put 3 true (λ fd. false); n = 0; num_sockets = 1; printed = [] },
)

skipping-skipped : init_hosts skipping before ≡ some skipped
unfolding init_hosts init_host skipped
skipping-skipped = refl

spin :
    (error : ℕ → ℕ) (k : ℕ)
    → run step (replicate k (second all_ready error)) (select_from skipped) ≡ select_from skipped
unfolding run step skipped check_slots
spin error zero = refl
spin error (suc k) = spin error k

-- With such a host the descriptor is beyond the ones that are checked: when it gets ready, select()
-- returns at once each time, and no number of rounds ends the waiting.
pub skipped_address_spins :
    (error : ℕ → ℕ) (k : ℕ)
    → (r : List Host × Init) × (init_hosts skipping before ≡ some r)
      × ((run step (replicate k (second (λ fd. true) error)) (select_from r)).ended ≡ false)
skipped_address_spins error k =
    (skipped, skipping-skipped, ap (λ (s : State). s.ended) (spin error k))

overrun_at :
    (i : ℕ) (addrs : List Address) (st : Init)
    → All IsMade addrs
    → 3 < i + length addrs
    → i ≤ 3
    → init_host i addrs st ≡ none
unfolding init_host
overrun_at i [] st m long le = absurd (omega (arith, long, le))
overrun_at i (other_family ∷ addrs) st m long le = absurd m.0
overrun_at i (no_socket ∷ addrs) st m long le = absurd m.0
overrun_at i (made o ∷ addrs) st m long le = elim (Bool-cases (ltb i 3)) [
  | inl t ↦
      rw (t, overrun_at (i + 1) addrs (connect o st) m.1 (omega (arith, long)) (ground (arith, t)))
        refl
  | inr t ↦ rw t refl
]

-- A host with more than three addresses that get sockets makes the first loop write behind the array
-- of the host.
pub many_addresses_overrun :
    (addrs : List Address) (rest : List (List Address)) (st : Init)
    → All IsMade addrs
    → 3 < length addrs
    → init_hosts (addrs ∷ rest) st ≡ none
unfolding init_hosts
many_addresses_overrun addrs rest st m long =
    rw (init_hosts, overrun_at 0 addrs st m (omega (arith, long)) (omega arith)) refl
