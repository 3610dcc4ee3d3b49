-- ===== src/Connect/Reports.antt =====
-- What non-blocking-connect.c prints of each socket, and its count of finished connects.
use unix_linux_prog_in_c_src.Base.{
  ℕ, zero, suc, ◌+◌, ◌≡◌, ◌⊎◌, inl, inr, refl, arith, Bool, true, false, not, ◌&&◌, Option, none,
  some, List, ltb, leb, ◌==◌, if◌then◌else◌, Bool-cases, if-cases, run, run-keeps, All,
}
use unix_linux_prog_in_c_src.Base.Family.{weigh}
use unix_linux_prog_in_c_src.Connect.{
  Address, Host, Init, Progress, check_hosts, State, select_from, any_below, finish, found, passed,
  no_fds, Event, second, select_fails, round, step, init_hosts, before,
}
use unix_linux_prog_in_c_src.Connect.Setup.{
  bit, mentions, HostsFrom, Served, Sound, AllFilled, set_up,
}
use unix_linux_prog_in_c_src.Connect.Check.{within, check_hosts-Effect, late_hosts-Late}

-- The waiting has ended as it should.
abbrev pub over : State → Bool
over s = s.ended && not s.select_failed

pub record Inv (s : State) : Type 0 where
  pub hosts_from : HostsFrom 3 s.hosts s.next_fd
  pub total : s.next_fd ≡ 3 + s.num_sockets
  pub subset : (fd : ℕ) → s.wrfds fd ≡ true → s.wrfds_orig fd ≡ true
  pub once :
      (fd : ℕ)
      → mentions fd s.printed + bit (s.wrfds_orig fd && not (over s)) ≡ bit (within 3 s.next_fd fd)
  pub inside : (fd : ℕ) → s.wrfds_orig fd ≡ true → within 3 s.next_fd fd ≡ true
  pub counted : s.n + weigh bit s.wrfds_orig s.next_fd ≡ s.num_sockets

-- A set that is split into two.
weigh-split :
    (f g h : ℕ → Bool) (b : ℕ)
    → ((fd : ℕ) → bit (f fd) + bit (g fd) ≡ bit (h fd))
    → weigh bit f b + weigh bit g b ≡ weigh bit h b
unfolding weigh
weigh-split f g h zero e = refl
weigh-split f g h (suc b) e = omega (arith, e b, weigh-split f g h b e)

-- 0, 1 and 2 are not among the sockets.
pub weigh-low :
    (w : ℕ → Bool) (hi : ℕ) → ((fd : ℕ) → w fd ≡ true → within 3 hi fd ≡ true) → weigh bit w 3 ≡ 0
unfolding weigh
weigh-low w hi h = ground (arith, h 0, h 1, h 2)

finish-Inv : (s : State) → s.ended ≡ false → s.select_failed ≡ false → Inv s → Inv (finish s)
finish-Inv s going quiet v =
    let l = late_hosts-Late s.wrfds_orig s.hosts 3 s.next_fd s.printed v.hosts_from in
    record {
      hosts_from = v.hosts_from;
      total = v.total;
      subset = v.subset;
      once = λ fd. ground (arith, l.told fd, v.once fd, v.inside fd, going, quiet);
      inside = v.inside;
      counted = v.counted;
    }

found-Inv :
    (s : State) (w : ℕ → Bool) (error : ℕ → ℕ)
    → ((fd : ℕ) → w fd ≡ true → s.wrfds fd ≡ true)
    → s.ended ≡ false
    → Inv s
    → Inv (found w error s)
found-Inv s w error sub going v =
    let p : Progress = record { orig = s.wrfds_orig; finished = s.n; lines = s.printed } in
    let q = check_hosts w error s.hosts p in
    let f = check_hosts-Effect w error s.hosts 3 s.next_fd p v.hosts_from in
    let both : (fd : ℕ) → bit (q.orig fd) + bit (w fd) ≡ bit (s.wrfds_orig fd) =
      λ fd. ground (arith, f.cleared fd, sub fd, v.subset fd, v.inside fd) in
    let low = weigh-low w s.next_fd (λ fd h. v.inside fd (v.subset fd (sub fd h))) in
    record {
      hosts_from = v.hosts_from;
      total = v.total;
      subset = λ fd h. h;
      once = λ fd. ground (arith, f.told fd, both fd, v.once fd, v.inside fd, going);
      inside = λ fd h. ground (arith, f.cleared fd, v.inside fd, h);
      counted =
          omega
            (arith, f.counted, low, v.counted, weigh-split q.orig w s.wrfds_orig s.next_fd both);
    }

passed-Inv : (s : State) → s.ended ≡ false → s.select_failed ≡ false → Inv s → Inv (passed s)
passed-Inv s going quiet v =
    let t : State = record s { timeouts = s.timeouts + 1; wrfds = no_fds } in
    let w : Inv t = record {
      hosts_from = v.hosts_from;
      total = v.total;
      subset = λ fd h. ground (arith, h);
      once = v.once;
      inside = v.inside;
      counted = v.counted;
    } in
    elim (Bool-cases (s.timeouts + 1 == 10)) [
      | inl e ↦ rw e (finish-Inv t going quiet w)
      | inr e ↦ rw e w
    ]

abbrev pub Quiet : State → Type 0
Quiet s = s.ended ≡ false → s.select_failed ≡ false

round-Inv :
    (e : Event) (s : State)
    → s.ended ≡ false
    → Quiet s
    → Inv s
    → Inv (round e s) × Quiet (round e s)
unfolding round
round-Inv (second ready error) s going quiet v =
    let w : ℕ → Bool = λ fd. s.wrfds fd && ready fd in
    elim (Bool-cases (any_below s.next_fd w)) [
      | inl e ↦ rw e (found-Inv s w error (λ fd h. ground (arith, h)) going v, quiet)
      | inr e ↦ rw e (passed-Inv s going (quiet going) v, passed-Quiet s quiet)
    ]
  where
    passed-Quiet : (s : State) → Quiet s → Quiet (passed s)
    passed-Quiet s q = elim (Bool-cases (s.timeouts + 1 == 10)) [
      | inl e ↦ rw e (λ h. ground (arith, h))
      | inr e ↦ rw e q
    ]
round-Inv select_fails s going quiet v = (
  record {
    hosts_from = v.hosts_from;
    total = v.total;
    subset = v.subset;
    once = λ fd. ground (arith, v.once fd, going);
    inside = v.inside;
    counted = v.counted;
  },
  λ h. ground (arith, h),
)

abbrev pub Good : State → Type 0
Good s = Inv s × Quiet s

pub step-Inv : (e : Event) (s : State) → Inv s × Quiet s → Inv (step e s) × Quiet (step e s)
unfolding step
step-Inv e s (v, quiet) =
    if-cases Good s.ended s (if s.n == s.num_sockets then finish s else round e s) (λ t. (v, quiet))
      (λ going.
        if-cases Good (s.n == s.num_sockets) (finish s) (round e s)
          (λ t. (finish-Inv s going (quiet going) v, λ h. ground (arith, h)))
          (λ t. round-Inv e s going quiet v))

select_from-Inv :
    (hs : List Host) (st : Init) → Sound st → HostsFrom 3 hs st.next_fd → Inv (select_from (hs, st))
select_from-Inv hs st v from = record {
  hosts_from = from;
  total = v.total;
  subset = λ fd h. h;
  once = λ fd. ground (arith, v.once fd);
  inside = λ fd h. ground (arith, v.once fd, h);
  counted = v.counted;
}

-- The first loop is done, and what follows keeps the invariant.
pub run-Inv :
    (lists : List (List Address)) (es : List Event)
    → All Served lists
    → (r : List Host × Init) × (init_hosts lists before ≡ some r)
      × Inv (run step es (select_from r))
      × Quiet (run step es (select_from r))
run-Inv lists es served = from (init_hosts lists before) refl (set_up lists served)
  where
    from :
        (o : Option (List Host × Init))
        → init_hosts lists before ≡ o
        → AllFilled 3 o
        → (r : List Host × Init) × (init_hosts lists before ≡ some r)
          × Inv (run step es (select_from r))
          × Quiet (run step es (select_from r))
    from none e f = absurd f
    from (some (hs, st)) e (v, w) =
        let i =
          run-keeps Good step step-Inv es (select_from (hs, st))
            (select_from-Inv hs st v w, λ h. refl) in
        ((hs, st), e, i.0, i.1)

-- Where every address gets a socket, at most three to a host: the first loop is done; at any time
-- the finished connects and the ones still waited for make all sockets; and when the waiting has
-- ended, unless by a failure of select(), every socket has been reported exactly once, and no other
-- descriptor.
pub reported_once :
    (lists : List (List Address)) (es : List Event) (fd : ℕ)
    → All Served lists
    → (r : List Host × Init) × (init_hosts lists before ≡ some r)
      × (let s = run step es (select_from r) in
          (s.n + weigh bit s.wrfds_orig s.next_fd ≡ s.num_sockets)
          × ((over s ≡ false)
              ⊎ (mentions fd s.printed ≡ bit (leb 3 fd && ltb fd (3 + s.num_sockets)))))
reported_once lists es fd served =
    let (r, e, v, quiet) = run-Inv lists es served in
    let s = run step es (select_from r) in
    (
      r,
      e,
      (
        v.counted,
        elim (Bool-cases (over s)) [
          | inl t ↦ inr (ground (arith, t, v.once fd, v.total))
          | inr t ↦ inl t
        ],
      ),
    )
