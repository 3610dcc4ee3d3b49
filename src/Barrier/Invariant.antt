-- ===== src/Barrier/Invariant.antt =====
-- The invariant of implement-barrier-fixed.c: a round is filled, and then it is left, by all threads.
use unix_linux_prog_in_c_src.Base.{
  ℕ, ◌+◌, ◌*◌, ◌%◌, ◌≤◌, ◌<◌, ◌≡◌, ◌≢◌, ◌⊎◌, inl, inr, arith, Bool, true, false, Option, none, some,
  ◌==◌,
}
use native.Mathlib.Nat.{mul-add-mod_self_right, mul-mod_left, mod-eq_of_lt}
use native.Mathlib.Decide.{dec_lt}
use unix_linux_prog_in_c_src.Base.Family.{put, weigh, weigh-put, weigh-map, weigh-one, weigh-add}
use unix_linux_prog_in_c_src.Barrier.{
  Pc, say, lock, arrive, test1, wait1, relock1, woken, test2, wait2, relock2, unlock, State, wake,
}

abbrev pub holds : Pc → Bool
holds arrive = true
holds test1 = true
holds woken = true
holds test2 = true
holds unlock = true
holds say = false
holds lock = false
holds wait1 = false
holds relock1 = false
holds wait2 = false
holds relock2 = false

-- In the first loop: on the barrier, and not counted by `wokenup` yet.
abbrev pub first : Pc → ℕ
first test1 = 1
first wait1 = 1
first relock1 = 1
first woken = 1
first arrive = 0
first test2 = 0
first unlock = 0
first say = 0
first lock = 0
first wait2 = 0
first relock2 = 0

-- In the second loop.
abbrev pub second : Pc → ℕ
second test2 = 1
second wait2 = 1
second relock2 = 1
second test1 = 0
second wait1 = 0
second relock1 = 0
second woken = 0
second arrive = 0
second unlock = 0
second say = 0
second lock = 0

abbrev pub owned : ℕ → Option ℕ → Bool
owned i none = false
owned i (some j) = i == j

-- Only a thread owns the mutex.
abbrev pub IsIn : ℕ → Option ℕ → Type 0
IsIn max none = Unit
IsIn max (some j) = j < max

-- What a thread may rely on, with `f` threads on the barrier of the round that is being filled and
-- `w` threads that have been counted since the last one was full: why it waits, and how many numbers
-- it has printed, `p`, after `n` full rounds.
abbrev pub Fine : (max f w p n : ℕ) → Pc → Type 0
Fine max f w p n say = p ≡ n
Fine max f w p n lock = p ≡ n + 1
Fine max f w p n arrive = p ≡ n + 1
Fine max f w p n test1 = ((0 < f) × (p ≡ n + 1)) ⊎ ((f ≡ 0) × (p ≡ n))
Fine max f w p n wait1 = (0 < f) × (p ≡ n + 1)
Fine max f w p n relock1 = ((0 < f) × (p ≡ n + 1)) ⊎ ((f ≡ 0) × (p ≡ n))
Fine max f w p n woken = (f ≡ 0) × (p ≡ n)
Fine max f w p n test2 = p ≡ n
Fine max f w p n wait2 = (w < max) × (p ≡ n)
Fine max f w p n relock2 = p ≡ n
Fine max f w p n unlock = p ≡ n

-- A round is being filled, by threads that have left the one before, or the first one; ...
abbrev pub Filling : (max f w n a b : ℕ) → Type 0
Filling max f w n a b = (a ≡ f) × ((w ≡ max) ⊎ ((w ≡ 0) × (n ≡ 0) × (b ≡ 0)))

-- ... or all threads are on the barrier, and leave its first loop.
abbrev pub Draining : (max f w n a b : ℕ) → Type 0
Draining max f w n a b = (f ≡ 0) × (0 < w) × (w < max) × (a + w ≡ max) × (b ≡ w)

pub record Inv (max : ℕ) (s : State) : Type 0 where
  pub filled : ℕ
  pub below : filled < max
  pub arrivals : s.on_barrier ≡ s.newlines * max + filled
  pub phase :
      Filling max filled s.wokenup s.newlines (weigh first s.pc max) (weigh second s.pc max)
      ⊎ Draining max filled s.wokenup s.newlines (weigh first s.pc max) (weigh second s.pc max)
  pub owner_in : IsIn max s.owner
  pub owns : (j : ℕ) → j < max → holds (s.pc j) ≡ owned j s.owner
  pub fine : (j : ℕ) → j < max → Fine max filled s.wokenup (s.printed j) s.newlines (s.pc j)

pub both-le : (p : Pc) → first p + second p ≤ 1
both-le p = ground arith

pub first-le : (p : Pc) → first p ≤ 1
first-le p = ground arith

pub first-wake : (p : Pc) → first (wake p) ≡ first p
first-wake p = ground arith

pub second-wake : (p : Pc) → second (wake p) ≡ second p
second-wake p = ground arith

pub holds-wake : (p : Pc) → holds (wake p) ≡ holds p
holds-wake p = ground arith

-- What the invariant says of one thread `i`.
module _ (max : ℕ) (s : State) (v : Inv max s) (i : ℕ) (lt : i < max) where
  open v use {filled}

  pub remainder : s.on_barrier % max ≡ filled
  remainder = rw (v.arrivals, mul-add-mod_self_right, mod-eq_of_lt v.below)

  pub next_remainder :
      (((s.on_barrier + 1) % max ≡ 0) × (filled + 1 ≡ max))
      ⊎ (((s.on_barrier + 1) % max ≢ 0) × (filled + 1 < max))
  next_remainder = elim (dec_lt (filled + 1) max) [
    | yes h ↦
        let e : s.on_barrier + 1 ≡ s.newlines * max + (filled + 1) = omega (arith, v.arrivals) in
        let r : (s.on_barrier + 1) % max ≡ filled + 1 =
          rw (e, mul-add-mod_self_right, mod-eq_of_lt h) in
        inr (omega (arith, r), h)
    | no h ↦
        let e : s.on_barrier + 1 ≡ (s.newlines + 1) * max = omega (arith, v.arrivals, v.below) in
        inl (rw (e, mul-mod_left), omega (arith, v.below))
  ]

  -- The weights after a step of the thread to `p`, with or without a broadcast.
  pub moved :
      (p : Pc)
      → (weigh first (put i p s.pc) max + first (s.pc i) ≡ weigh first s.pc max + first p)
        × (weigh second (put i p s.pc) max + second (s.pc i) ≡ weigh second s.pc max + second p)
  moved p = (weigh-put first s.pc i p max lt, weigh-put second s.pc i p max lt)

  pub woke :
      (p : Pc)
      → let woken_pc : ℕ → Pc = λ j. wake (s.pc j) in
        (weigh first (put i p woken_pc) max + first (s.pc i) ≡ weigh first s.pc max + first p)
        × (weigh second (put i p woken_pc) max + second (s.pc i) ≡ weigh second s.pc max + second p)
  woke p = (
    omega (
      arith,
      weigh-put first (λ j. wake (s.pc j)) i p max lt,
      weigh-map first wake first-wake s.pc max,
      first-wake (s.pc i),
    ),
    omega (
      arith,
      weigh-put second (λ j. wake (s.pc j)) i p max lt,
      weigh-map second wake second-wake s.pc max,
      second-wake (s.pc i),
    ),
  )

  -- The other threads, where this one is in neither loop.
  pub outside :
      first (s.pc i) + second (s.pc i) ≡ 0 → weigh first s.pc max + weigh second s.pc max + 1 ≤ max
  outside e = omega (
    arith,
    weigh-one (λ p. first p + second p) both-le s.pc i max lt,
    weigh-add first second s.pc max,
  )
