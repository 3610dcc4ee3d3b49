-- ===== src/Connect/Rounds.antt =====
-- The waiting of non-blocking-connect.c ends.
use unix_linux_prog_in_c_src.Base.{
  ℕ, zero, suc, ◌+◌, ◌≤◌, ◌<◌, ◌≡◌, ◌⊎◌, inl, inr, refl, arith, Bool, true, ◌&&◌, some, List, [],
  ◌∷◌, ◌==◌, if◌then◌else◌, length, subst, sym, ◌∙◌, if-cases, run, All,
}
use native.Mathlib.Decide.{dec_lt}
use unix_linux_prog_in_c_src.Base.Family.{weigh}
use unix_linux_prog_in_c_src.Connect.{
  Address, Host, Init, Progress, State, select_from, any_below, finish, found, passed, Event,
  second, select_fails, round, step, init_hosts, before,
}
use unix_linux_prog_in_c_src.Connect.Setup.{bit, Served}
use unix_linux_prog_in_c_src.Connect.Check.{check_hosts-Effect}
use unix_linux_prog_in_c_src.Connect.Reports.{Inv, Good, weigh-low, step-Inv, run-Inv}

-- Ended, or each round has finished a connect or counted a timeout.
abbrev Gone : ℕ → State → Type 0
Gone k s = (s.ended ≡ true) ⊎ ((k ≤ s.n + s.timeouts) × (s.timeouts < 10))

any_below-weigh : (b : ℕ) (w : ℕ → Bool) → any_below b w ≡ true → 0 < weigh bit w b
unfolding any_below weigh
any_below-weigh zero w h = ground (arith, h)
any_below-weigh (suc b) w h = ground (arith, any_below-weigh b w, h)

found-Gone :
    (k : ℕ) (s : State) (w : ℕ → Bool) (error : ℕ → ℕ)
    → ((fd : ℕ) → w fd ≡ true → s.wrfds fd ≡ true)
    → any_below s.next_fd w ≡ true
    → Inv s
    → (k ≤ s.n + s.timeouts) × (s.timeouts < 10)
    → Gone (k + 1) (found w error s)
found-Gone k s w error sub some_fd v g =
    let p : Progress = record { orig = s.wrfds_orig; finished = s.n; lines = s.printed } in
    let f = check_hosts-Effect w error s.hosts 3 s.next_fd p v.hosts_from in
    let low = weigh-low w s.next_fd (λ fd h. v.inside fd (v.subset fd (sub fd h))) in
    inr (omega (arith, f.counted, low, any_below-weigh s.next_fd w some_fd, g.0), g.1)

passed-Gone :
    (k : ℕ) (s : State) → (k ≤ s.n + s.timeouts) × (s.timeouts < 10) → Gone (k + 1) (passed s)
passed-Gone k s g = ground arith

round-Gone :
    (k : ℕ) (e : Event) (s : State)
    → Inv s
    → (k ≤ s.n + s.timeouts) × (s.timeouts < 10)
    → Gone (k + 1) (round e s)
unfolding round
round-Gone k (second ready error) s v g =
    let w : ℕ → Bool = λ fd. s.wrfds fd && ready fd in
    if-cases (Gone (k + 1)) (any_below s.next_fd w) (found w error s) (passed s)
      (λ t. found-Gone k s w error (λ fd h. ground (arith, h)) t v g) (λ t. passed-Gone k s g)
round-Gone k select_fails s v g = inl refl

step-Gone : (k : ℕ) (e : Event) (s : State) → Inv s → Gone k s → Gone (k + 1) (step e s)
unfolding step
step-Gone k e s v g =
    if-cases (Gone (k + 1)) s.ended s (if s.n == s.num_sockets then finish s else round e s)
      (λ t. inl t)
      (λ going.
        if-cases (Gone (k + 1)) (s.n == s.num_sockets) (finish s) (round e s) (λ t. inl refl)
          (λ t. elim g [
            | inl h ↦ absurd (ground (arith, h, going))
            | inr h ↦ round-Gone k e s v h
          ]))

run-Gone :
    (k : ℕ) (es : List Event) (s : State) → Good s → Gone k s → Gone (k + length es) (run step es s)
unfolding run
run-Gone k [] s v g = let e : k + 0 ≡ k = omega arith in rw e g
run-Gone k (e ∷ es) s v g =
    let a : k + suc (length es) ≡ k + 1 + length es = omega arith in
    rw a (run-Gone (k + 1) es (step e s) (step-Inv e s v) (step-Gone k e s v.0 g))

round-num_sockets : (e : Event) (s : State) → (round e s).num_sockets ≡ s.num_sockets
unfolding round
round-num_sockets (second ready error) s =
    let w : ℕ → Bool = λ fd. s.wrfds fd && ready fd in
    if-cases (λ (t : State). t.num_sockets ≡ s.num_sockets) (any_below s.next_fd w)
      (found w error s) (passed s) (λ t. refl) (λ t. ground arith)
round-num_sockets select_fails s = refl

step-num_sockets : (e : Event) (s : State) → (step e s).num_sockets ≡ s.num_sockets
unfolding step
step-num_sockets e s = ground (arith, round-num_sockets e s)

run-num_sockets : (es : List Event) (s : State) → (run step es s).num_sockets ≡ s.num_sockets
unfolding run
run-num_sockets [] s = refl
run-num_sockets (e ∷ es) s = run-num_sockets es (step e s) ∙ step-num_sockets e s

-- Where every address gets a socket, at most three to a host: the first loop is done, and whatever
-- select() does, the waiting has ended after as many rounds as there are sockets and ten more.
pub waiting_ends :
    (lists : List (List Address)) (es : List Event)
    → All Served lists
    → (r : List Host × Init) × (init_hosts lists before ≡ some r)
      × ((length es < r.1.num_sockets + 10) ⊎ ((run step es (select_from r)).ended ≡ true))
unfolding run
waiting_ends lists es served =
    let (r, e, v, quiet) = run-Inv lists [] served in
    let g = run-Gone 0 es (select_from r) (v, quiet) (inr (omega arith, omega arith)) in
    let (q, f, w, still) = run-Inv lists es served in
    let same : r ≡ q = ground (arith, e, f) in
    let v' = subst (λ x. Good (run step es (select_from x))) (sym same) (w, still) in
    (
      r,
      e,
      elim (dec_lt (length es) (r.1.num_sockets + 10)) [
        | yes short ↦ inl short
        | no long ↦ inr (elim g [
          | inl t ↦ t
          | inr h ↦
              absurd
                (omega (arith, h.0, h.1, long, v'.0.counted, run-num_sockets es (select_from r)))
        ])
      ],
    )
