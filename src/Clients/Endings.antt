-- ===== src/Clients/Endings.antt =====
-- How the loops of connect.c and linger.c end.
use unix_linux_prog_in_c_src.Base.{
  ℕ, zero, suc, ◌+◌, ◌≡◌, ◌⊎◌, inl, inr, refl, arith, Bool, true, false, List, [], ◌∷◌,
}
use unix_linux_prog_in_c_src.Servers.{Got, bytes, eof, failed, waiting, ended}
use unix_linux_prog_in_c_src.Clients.{Round, Outcome, connect_round, connect, linger}

-- Whether connect.c is through, and by a write() that failed.
abbrev pub Closed : Outcome → Type 0
Closed o = ((o.status ≡ ended) × (o.closes ≡ 1)) ⊎ ((o.status ≡ waiting) × (o.closes ≡ 0))

connect_round-Closed : (g : Got) (w : Bool) (o : Outcome) → Closed o → Closed (connect_round g w o)
connect_round-Closed (bytes b) true o h = h
connect_round-Closed (bytes b) false o h = inl (refl, refl)
connect_round-Closed eof w o h = inl (refl, refl)
connect_round-Closed failed w o h = inl (refl, refl)

-- Whatever read() and write() return, connect.c has closed the connection exactly once when it has
-- ended, and not at all before.
pub connect-Closed : (rs : List Round) → Closed (connect rs)
unfolding connect
connect-Closed [] = inr (refl, refl)
connect-Closed (r ∷ rs) = connect_round-Closed r.input r.writes (connect rs) (connect-Closed rs)

abbrev pub failing : ℕ → List Round → List Round
failing zero rs = rs
failing (suc n) rs = record { input = failed; writes = false } ∷ failing n rs

-- However often read() fails, linger.c goes on as if it had read something, each time with a write() of
-- the largest size.
pub linger-failing :
    (n : ℕ) (rs : List Round)
    → linger (failing n rs) ≡ record {
      sent = (linger rs).sent;
      overruns = (linger rs).overruns + n;
      status = (linger rs).status;
    }
unfolding linger
linger-failing zero rs =
    let e : (linger rs).overruns + 0 ≡ (linger rs).overruns = omega arith in rw e refl
linger-failing (suc n) rs =
    let e : (linger rs).overruns + suc n ≡ (linger rs).overruns + n + 1 = omega arith in
    rw (linger-failing n rs, e) refl
