-- ===== src/Counter/Sum.antt =====
-- The sum that a thread of atomic-add.c makes, and the one that `main` makes.
use unix_linux_prog_in_c_src.Base.{ℕ, zero, suc, ◌+◌, ◌-◌, ◌*◌, ◌%◌, ◌^◌, ◌≡◌, refl, arith}
use unix_linux_prog_in_c_src.Counter.{sum_loop, expected}

-- 0 + 1 + ... + (n - 1)
unfoldable pub sum_below : ℕ → ℕ
sum_below zero = 0
sum_below (suc n) = sum_below n + n

pub sum_below-add_one : (n : ℕ) → sum_below (n + 1) ≡ sum_below n + n
unfolding sum_below
sum_below-add_one n = let e : n + 1 ≡ suc n = omega arith in rw e

-- Gauss.
pub sum_below-closed : (n : ℕ) → 2 * sum_below n + n ≡ n * n
unfolding sum_below
sum_below-closed zero = omega arith
sum_below-closed (suc n) = omega (arith, sum_below-closed n)

sum_loop-eq :
    (rounds i x2 : ℕ)
    → sum_below i % 2 ^ 32 ≡ x2
    → sum_loop rounds i x2 ≡ sum_below (i + rounds) % 2 ^ 32
unfolding sum_loop
sum_loop-eq zero i x2 h = let e : i + 0 ≡ i = omega arith in rw (e, h)
sum_loop-eq (suc rounds) i x2 h =
    let e : i + suc rounds ≡ i + 1 + rounds = omega arith in
    rw e (sum_loop-eq rounds (i + 1) ((x2 + i) % 2 ^ 32) (omega (arith, sum_below-add_one i)))

sum_below-one : sum_below 1 % 2 ^ 32 ≡ 0
unfolding sum_below
sum_below-one = refl

sum_loop-from_one : (n : ℕ) → sum_loop n 1 0 ≡ sum_below (suc n) % 2 ^ 32
sum_loop-from_one n =
    let f : 1 + n ≡ suc n = omega arith in rw (← f) (sum_loop-eq n 1 0 sum_below-one)

-- What `main` expects is twice the sum, modulo 2^32.
pub expected-eq : (n : ℕ) → expected n ≡ 2 * sum_below n % 2 ^ 32
unfolding expected sum_below
expected-eq zero = omega arith
expected-eq (suc n) =
    let e : suc n - 1 ≡ n = omega arith in rw e (omega (arith, sum_loop-from_one n))
