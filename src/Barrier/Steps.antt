-- ===== src/Barrier/Steps.antt =====
-- Every step of a thread of implement-barrier-fixed.c keeps the invariant.
use unix_linux_prog_in_c_src.Base.{
  ℕ, ◌+◌, ◌*◌, ◌%◌, ◌<◌, ◌≡◌, ◌≢◌, ◌⊎◌, inl, inr, arith, ◌==◌, if◌then◌else◌, Bool-cases,
}
use unix_linux_prog_in_c_src.Base.Family.{weigh, le-weigh, weigh-two}
use unix_linux_prog_in_c_src.Barrier.{
  Pc, say, lock, arrive, test1, wait1, relock1, woken, test2, wait2, relock2, unlock, State,
  advance,
}
use unix_linux_prog_in_c_src.Barrier.Invariant.{
  holds, IsIn, first, second, owned, Fine, Filling, Draining, Inv, first-le, holds-wake, remainder,
  next_remainder, moved, woke, outside,
}

module _ (max : ℕ) (s : State) (v : Inv max s) (i : ℕ) (lt : i < max) where
  open v use {filled}

  -- The number of threads on the barrier of the round, after a step of the thread at `p`.
  pub next_filled : Pc → ℕ
  next_filled arrive = if (s.on_barrier + 1) % max == 0 then 0 else filled + 1
  next_filled say = filled
  next_filled lock = filled
  next_filled test1 = filled
  next_filled wait1 = filled
  next_filled relock1 = filled
  next_filled woken = filled
  next_filled test2 = filled
  next_filled wait2 = filled
  next_filled relock2 = filled
  next_filled unlock = filled

  pub next-below : (p : Pc) → next_filled p < max
  unfolding next_filled
  next-below arrive = ground (arith, next_remainder max s v i lt)
  next-below _ = v.below

  pub next-arrivals :
      (p : Pc) → let s' = advance max i p s in s'.on_barrier ≡ s'.newlines * max + next_filled p
  unfolding advance next_filled
  next-arrivals arrive = elim (Bool-cases ((s.on_barrier + 1) % max == 0)) [
    | inl full ↦
        let e : filled + 1 ≡ max = ground (arith, full, next_remainder max s v i lt) in
        rw full (omega (arith, v.arrivals, e))
    | inr more ↦ rw more (omega (arith, v.arrivals))
  ]
  next-arrivals _ = ground (arith, v.arrivals)

  pub next-owner-IsIn : (p : Pc) → IsIn max (advance max i p s).owner
  unfolding advance
  next-owner-IsIn arrive = ground (arith, v.owner_in)
  next-owner-IsIn _ = ground (arith, v.owner_in, lt)

  pub next-owns :
      (p : Pc)
      → s.pc i ≡ p
      → (j : ℕ) → j < max
      → let s' = advance max i p s in holds (s'.pc j) ≡ owned j s'.owner
  unfolding advance
  next-owns arrive e j l = ground (arith, v.owns j l, v.owns i lt, holds-wake (s.pc j))
  next-owns woken e j l = ground (arith, v.owns j l, v.owns i lt, holds-wake (s.pc j))
  next-owns _ e j l = ground (arith, v.owns j l, v.owns i lt)

  -- Who arrives, arrives while a round is being filled.
  arrives-Filling :
      s.pc i ≡ arrive
      → Filling max filled s.wokenup s.newlines (weigh first s.pc max) (weigh second s.pc max)
  arrives-Filling e = ground (arith, v.phase, outside max s v i lt, e)

  pub next-phase :
      (p : Pc)
      → s.pc i ≡ p
      → let s' = advance max i p s in
        Filling max
          (next_filled p)
          s'.wokenup
          s'.newlines
          (weigh first s'.pc max)
          (weigh second s'.pc max)
        ⊎ Draining max
            (next_filled p)
            s'.wokenup
            s'.newlines
            (weigh first s'.pc max)
            (weigh second s'.pc max)
  unfolding advance next_filled
  next-phase say e = ground (arith, v.phase, moved max s v i lt lock)
  next-phase lock e = ground (arith, v.phase, moved max s v i lt arrive)
  next-phase arrive e = ground (
    arith,
    arrives-Filling e,
    outside max s v i lt,
    next_remainder max s v i lt,
    moved max s v i lt test1,
    woke max s v i lt test2,
  )
  next-phase test1 e = ground (arith, v.phase, moved max s v i lt woken, moved max s v i lt wait1)
  next-phase wait1 e = v.phase
  next-phase relock1 e = ground (arith, v.phase, moved max s v i lt test1)
  next-phase woken e = ground (
    arith,
    v.phase,
    v.fine i lt,
    le-weigh first s.pc i max lt,
    moved max s v i lt test2,
    woke max s v i lt unlock,
  )
  next-phase test2 e = ground (
    arith,
    v.phase,
    le-weigh second s.pc i max lt,
    moved max s v i lt wait2,
    moved max s v i lt unlock,
  )
  next-phase wait2 e = v.phase
  next-phase relock2 e = ground (arith, v.phase, moved max s v i lt test2)
  next-phase unlock e = ground (arith, v.phase, moved max s v i lt say)

  -- Another thread, at the arrival that fills the round, has arrived before.
  others_arrived :
      (j : ℕ) → s.pc i ≡ arrive → filled + 1 ≡ max → j < max → i ≢ j → first (s.pc j) ≡ 1
  others_arrived j e full l d =
      ground
        (arith, arrives-Filling e, weigh-two first first-le s.pc i j max lt l d, first-le (s.pc j))

  -- A thread in the first loop, at the first arrival of a round.
  none_arrived : (j : ℕ) → s.pc i ≡ arrive → filled ≡ 0 → j < max → first (s.pc j) ≡ 0
  none_arrived j e z l = ground (arith, arrives-Filling e, le-weigh first s.pc j max l)

  arrive-Fine :
      s.pc i ≡ arrive
      → (j : ℕ) → j < max
      → let s' = advance max i arrive s in
        Fine max (next_filled arrive) s'.wokenup (s'.printed j) s'.newlines (s'.pc j)
  unfolding advance next_filled
  arrive-Fine e j l = ground (
    arith,
    v.fine i lt,
    v.fine j l,
    next_remainder max s v i lt,
    others_arrived j,
    none_arrived j,
  )

  pub next-Fine :
      (p : Pc)
      → s.pc i ≡ p
      → (j : ℕ) → j < max
      → let s' = advance max i p s in
        Fine max (next_filled p) s'.wokenup (s'.printed j) s'.newlines (s'.pc j)
  unfolding advance next_filled
  next-Fine arrive e j l = arrive-Fine e j l
  next-Fine test1 e j l = ground (arith, v.fine i lt, v.fine j l, remainder max s v i lt)
  next-Fine woken e j l = ground (arith, v.fine i lt, v.fine j l)
  next-Fine _ e j l = ground (arith, v.fine i lt, v.fine j l)
