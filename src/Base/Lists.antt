-- ===== src/Base/Lists.antt =====
-- Lists measured by native numbers, and runs of a step function over a schedule.
use Prim.Native.Nat.{ℕ, zero, suc, ◌+◌, ◌-◌, ◌≤◌, ◌<◌}
use mathlib.Core.Path.{◌≡◌, refl, ap}
use mathlib.Core.Logic.{◌⊎◌, inl, inr}
use mathlib.Core.List.{List, [], ◌∷◌, ◌++◌}
use native.Mathlib.Omega.{arith}
use mathlib.Core.Bool.{Bool, true, false, ◌&&◌}
use unix_linux_prog_in_c_src.Base.Tests.{◌==◌}

module _ {ℓ} {A : Type ℓ} where
  abbrev pub length : List A → ℕ
  length [] = 0
  length (x ∷ xs) = suc (length xs)

  abbrev pub replicate : ℕ → A → List A
  replicate zero a = []
  replicate (suc n) a = a ∷ replicate n a

  pub length-append : (xs ys : List A) → length (xs ++ ys) ≡ length xs + length ys
  length-append [] ys = omega arith
  length-append (x ∷ xs) ys = omega (arith, length-append xs ys)

  pub length-replicate : (n : ℕ) (a : A) → length (replicate n a) ≡ n
  length-replicate zero a = refl
  length-replicate (suc n) a = ap suc (length-replicate n a)

-- The state after the events of a schedule, first event first.
unfoldable pub run {ℓ κ} : {E : Type ℓ} {S : Type κ} → (E → S → S) → List E → S → S
run step [] s = s
run step (e ∷ es) s = run step es (step e s)

-- What every step keeps, every run keeps.
pub run-keeps {ℓ κ μ} :
    {E : Type ℓ} {S : Type κ} (P : S → Type μ) (step : E → S → S)
    → ((e : E) (s : S) → P s → P (step e s))
    → (es : List E) (s : S) → P s
    → P (run step es s)
unfolding run
run-keeps P step keep [] s h = h
run-keeps P step keep (e ∷ es) s h = run-keeps P step keep es (step e s) (keep e s h)

-- Where each step from the state at a place leads to the state at the next place, so does each run.
pub run-at {ℓ κ μ} :
    {E : Type ℓ} {S : Type κ} {P : Type μ} (step : E → S → S) (next : E → P → P) (at : P → S)
    → ((e : E) (p : P) → step e (at p) ≡ at (next e p))
    → (es : List E) (p : P) → run step es (at p) ≡ at (run next es p)
unfolding run
run-at step next at same [] p = refl
run-at step next at same (e ∷ es) p = rw (same e p) (run-at step next at same es (next e p))

pub run-append {ℓ κ} :
    {E : Type ℓ} {S : Type κ} (step : E → S → S) (es fs : List E) (s : S)
    → run step (es ++ fs) s ≡ run step fs (run step es s)
unfolding run
run-append step [] fs s = refl
run-append step (e ∷ es) fs s = run-append step es fs (step e s)

abbrev pub All {ℓ κ} : {A : Type ℓ} → (A → Type κ) → List A → Type κ
All P [] = Unit
All P (x ∷ xs) = P x × All P xs

-- The same for schedules of which every event meets a condition.
pub run-keeps_of_all {ℓ κ μ ν} :
    {E : Type ℓ} {S : Type κ} (C : E → Type μ) (P : S → Type ν) (step : E → S → S)
    → ((e : E) (s : S) → C e → P s → P (step e s))
    → (es : List E) (s : S) → All C es
    → P s
    → P (run step es s)
unfolding run
run-keeps_of_all C P step keep [] s c h = h
run-keeps_of_all C P step keep (e ∷ es) s c h =
    run-keeps_of_all C P step keep es (step e s) c.1 (keep e s c.0 h)

-- Where, as long as the end is not reached, some event keeps the invariant and brings it nearer, there
-- is a schedule that leads to the end.
module _ {ℓ κ μ ν} {E : Type ℓ} {S : Type κ} (step : E → S → S) (Inv : S → Type μ)
    (Done : S → Type ν) (measure : S → ℕ)
    (next : (s : S)
      → Inv s
      → Done s ⊎ ((e : E) × Inv (step e s) × (measure (step e s) < measure s))) where
  pub run-ends :
      (k : ℕ) (s : S)
      → measure s ≤ k
      → Inv s
      → (fs : List E) × (length fs ≤ k) × Done (run step fs s)
  unfolding run
  run-ends zero s le v = elim (next s v) [
    | inl done ↦ ([], omega arith, done)
    | inr (e, w, less) ↦ absurd (omega (arith, less, le))
  ]
  run-ends (suc k) s le v = elim (next s v) [
    | inl done ↦ ([], omega arith, done)
    | inr (e, w, less) ↦
        let (fs, short, done) = run-ends k (step e s) (omega (arith, less, le)) w in
        (e ∷ fs, omega (arith, short), done)
  ]

-- Whether two strings, lists of codes, are the same: strcmp() returns 0.
abbrev pub strcmp : List ℕ → List ℕ → Bool
strcmp [] [] = true
strcmp [] (y ∷ ys) = false
strcmp (x ∷ xs) [] = false
strcmp (x ∷ xs) (y ∷ ys) = (x == y) && strcmp xs ys

module _ {ℓ} {A : Type ℓ} where
  abbrev pub take : ℕ → List A → List A
  take n [] = []
  take zero (x ∷ xs) = []
  take (suc n) (x ∷ xs) = x ∷ take n xs

  abbrev pub drop : ℕ → List A → List A
  drop n [] = []
  drop zero (x ∷ xs) = x ∷ xs
  drop (suc n) (x ∷ xs) = drop n xs

  pub take-append-drop : (n : ℕ) (xs : List A) → take n xs ++ drop n xs ≡ xs
  take-append-drop n [] = refl
  take-append-drop zero (x ∷ xs) = refl
  take-append-drop (suc n) (x ∷ xs) = ap (λ (ys : List A). x ∷ ys) (take-append-drop n xs)

  pub length-drop : (n : ℕ) (xs : List A) → length (drop n xs) ≡ length xs - n
  length-drop n [] = omega arith
  length-drop zero (x ∷ xs) = omega arith
  length-drop (suc n) (x ∷ xs) = omega (arith, length-drop n xs)
