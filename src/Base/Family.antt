-- ===== src/Base/Family.antt =====
-- Values of threads that are numbered from 0, and sums over the first `n` of them.
use Prim.Native.Nat.{ℕ, zero, suc, ◌+◌, ◌≤◌, ◌<◌}
use mathlib.Core.Path.{◌≡◌, refl}
use mathlib.Core.Logic.{◌≢◌, inl, inr}
use native.Mathlib.Decide.{dec_lt}
use native.Mathlib.Omega.{arith}
use unix_linux_prog_in_c_src.Base.Tests.{◌==◌, if◌then◌else◌, Bool-cases}

-- Thread `i` gets the value `a`.
abbrev pub put {ℓ} : {A : Type ℓ} → ℕ → A → (ℕ → A) → ℕ → A
put i a f j = if i == j then a else f j

module _ {ℓ} {A : Type ℓ} (w : A → ℕ) where
  unfoldable pub weigh : (ℕ → A) → ℕ → ℕ
  weigh f zero = 0
  weigh f (suc n) = w (f n) + weigh f n

  pub weigh-beyond : (f : ℕ → A) (i : ℕ) (a : A) (n : ℕ) → n ≤ i → weigh (put i a f) n ≡ weigh f n
  unfolding weigh
  weigh-beyond f i a zero h = refl
  weigh-beyond f i a (suc n) h = ground (arith, weigh-beyond f i a n)

  pub weigh-put :
      (f : ℕ → A) (i : ℕ) (a : A) (n : ℕ) → i < n → weigh (put i a f) n + w (f i) ≡ weigh f n + w a
  unfolding weigh
  weigh-put f i a zero h = elim h [ ]
  weigh-put f i a (suc n) h = ground (arith, weigh-beyond f i a n, weigh-put f i a n, dec_lt i n)

  pub le-weigh : (f : ℕ → A) (j n : ℕ) → j < n → w (f j) ≤ weigh f n
  unfolding weigh
  le-weigh f j zero h = elim h [ ]
  le-weigh f j (suc n) h = elim (dec_lt j n) [
    | yes below ↦ omega (arith, le-weigh f j n below)
    | no last ↦ let e : j ≡ n = omega arith in rw e (omega arith)
  ]

  -- A change of all values that leaves their weights alone.
  pub weigh-map :
      (g : A → A)
      → ((a : A) → w (g a) ≡ w a)
      → (f : ℕ → A) (n : ℕ) → weigh (λ j. g (f j)) n ≡ weigh f n
  unfolding weigh
  weigh-map g h f zero = refl
  weigh-map g h f (suc n) = omega (arith, weigh-map g h f n, h (f n))

  pub weigh-const : (a : A) (n : ℕ) → w a ≡ 0 → weigh (λ i. a) n ≡ 0
  unfolding weigh
  weigh-const a zero h = refl
  weigh-const a (suc n) h = omega (arith, weigh-const a n h, h)

  pub weigh-zero : (f : ℕ → A) (n : ℕ) → ((j : ℕ) → j < n → w (f j) ≡ 0) → weigh f n ≡ 0
  unfolding weigh
  weigh-zero f zero h = refl
  weigh-zero f (suc n) h =
      omega (arith, weigh-zero f n (λ j l. h j (omega (arith, l))), h n (omega arith))

  pub weigh_mono :
      (f g : ℕ → A) (n : ℕ) → ((j : ℕ) → j < n → w (f j) ≤ w (g j)) → weigh f n ≤ weigh g n
  unfolding weigh
  weigh_mono f g zero h = omega arith
  weigh_mono f g (suc n) h =
      omega (arith, weigh_mono f g n (λ j l. h j (omega (arith, l))), h n (omega arith))

  -- One thread has the weight.
  pub weigh-single :
      (f : ℕ → A) (i n : ℕ)
      → i < n
      → w (f i) ≡ 1
      → ((j : ℕ) → j < n → j ≢ i → w (f j) ≡ 0)
      → weigh f n ≡ 1
  unfolding weigh
  weigh-single f i zero l e h = elim l [ ]
  weigh-single f i (suc n) l e h = elim (dec_lt i n) [
    | yes below ↦ omega (
      arith,
      weigh-single f i n below e (λ j k. h j (omega (arith, k))),
      h n (omega arith) (λ t. absurd (omega (arith, t, below))),
    )
    | no last ↦
        let t : i ≡ n = omega arith in
        let only =
          weigh-zero f n (λ j k. h j (omega (arith, k)) (λ u. absurd (omega (arith, u, k, t)))) in
        let one : w (f n) ≡ 1 = rw⁻¹ t e in omega (arith, only, one)
  ]

  module _ (small : (a : A) → w a ≤ 1) where
    pub weigh-le : (f : ℕ → A) (n : ℕ) → weigh f n ≤ n
    unfolding weigh
    weigh-le f zero = omega arith
    weigh-le f (suc n) = omega (arith, small (f n), weigh-le f n)

    pub weigh-one : (f : ℕ → A) (j n : ℕ) → j < n → weigh f n + 1 ≤ n + w (f j)
    unfolding weigh
    weigh-one f j zero h = elim h [ ]
    weigh-one f j (suc n) h = elim (dec_lt j n) [
      | yes below ↦ omega (arith, weigh-one f j n below, small (f n))
      | no last ↦ let e : j ≡ n = omega arith in rw e (omega (arith, weigh-le f n))
    ]

    pub weigh-two :
        (f : ℕ → A) (i j n : ℕ) → i < n → j < n → i ≢ j → weigh f n + 2 ≤ n + w (f i) + w (f j)
    unfolding weigh
    weigh-two f i j zero h k d = elim h [ ]
    weigh-two f i j (suc n) h k d = elim (dec_lt i n) [
      | yes i_below ↦ elim (dec_lt j n) [
        | yes j_below ↦ omega (arith, weigh-two f i j n i_below j_below d, small (f n))
        | no last ↦ let e : j ≡ n = omega arith in rw e (omega (arith, weigh-one f i n i_below))
      ]
      | no last ↦ let e : i ≡ n = omega arith in rw e (omega (arith, weigh-one f j n (omega arith)))
    ]

    -- A thread without the weight, and one with it.
    pub find_light : (f : ℕ → A) (n : ℕ) → weigh f n < n → (j : ℕ) × (j < n) × (w (f j) ≡ 0)
    unfolding weigh
    find_light f zero h = elim h [ ]
    find_light f (suc n) h = elim (dec_lt (weigh f n) n) [
      | yes below ↦ let r = find_light f n below in (r.0, omega (arith, r.1), r.2)
      | no full ↦ (n, omega arith, omega (arith, weigh-le f n))
    ]

    pub find_heavy : (f : ℕ → A) (n : ℕ) → 0 < weigh f n → (j : ℕ) × (j < n) × (w (f j) ≡ 1)
    unfolding weigh
    find_heavy f zero h = elim h [ ]
    find_heavy f (suc n) h = elim (dec_lt 0 (weigh f n)) [
      | yes below ↦ let r = find_heavy f n below in (r.0, omega (arith, r.1), r.2)
      | no rest ↦ (n, omega arith, omega (arith, small (f n)))
    ]

-- Two weights at once.
pub weigh-add {ℓ} :
    {A : Type ℓ} (w u : A → ℕ) (f : ℕ → A) (n : ℕ)
    → weigh (λ a. w a + u a) f n ≡ weigh w f n + weigh u f n
unfolding weigh
weigh-add w u f zero = omega arith
weigh-add w u f (suc n) = omega (arith, weigh-add w u f n)

-- What holds of one new value and of all others holds of all.
pub put-all {ℓ κ} :
    {A : Type ℓ} (P : ℕ → A → Type κ) (n : ℕ) (f : ℕ → A) (i : ℕ) (a : A)
    → P i a
    → ((j : ℕ) → j < n → j ≢ i → P j (f j))
    → (j : ℕ) → j < n
    → P j (put i a f j)
put-all P n f i a own others j lt = elim (Bool-cases (i == j)) [
  | inl t ↦ let same : i ≡ j = ground (arith, t) in rw (t, ← same) own
  | inr t ↦ rw t (others j lt (ground (arith, t)))
]
