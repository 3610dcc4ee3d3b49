-- ===== src/Descriptors/Tables.antt =====
-- What the operations on a table of descriptors do to each entry.
use unix_linux_prog_in_c_src.Base.{
  ℕ, zero, suc, ◌≡◌, refl, arith, true, none, some, [], ◌∷◌, ◌==◌, if◌then◌else◌,
}
use unix_linux_prog_in_c_src.Descriptors.{Handle, Table, lookup, lowest, install, close}

pub lookup-close :
    (k fd : ℕ) (t : Table) → lookup k (close fd t) ≡ (if fd == k then none else lookup k t)
unfolding close
lookup-close k fd [] = ground arith
lookup-close zero zero (h ∷ t) = ground arith
lookup-close (suc k) zero (h ∷ t) = ground arith
lookup-close zero (suc fd) (h ∷ t) = ground arith
lookup-close (suc k) (suc fd) (h ∷ t) = ground (arith, lookup-close k fd t)

pub lookup-install :
    (k : ℕ) (h : Handle) (t : Table)
    → lookup k (install h t) ≡ (if lowest t == k then some h else lookup k t)
unfolding install lowest
lookup-install zero h [] = ground arith
lookup-install (suc k) h [] = ground arith
lookup-install zero h (none ∷ t) = ground arith
lookup-install (suc k) h (none ∷ t) = ground arith
lookup-install zero h (some g ∷ t) = ground arith
lookup-install (suc k) h (some g ∷ t) = ground (arith, lookup-install k h t)

pub lookup-lowest : (t : Table) → lookup (lowest t) t ≡ none
unfolding lowest
lookup-lowest [] = refl
lookup-lowest (none ∷ t) = refl
lookup-lowest (some g ∷ t) = lookup-lowest t

pub lookup-install_self : (h : Handle) (t : Table) → lookup (lowest t) (install h t) ≡ some h
lookup-install_self h t = ground (arith, lookup-install (lowest t) h t)

pub lookup-free : (k : ℕ) (t : Table) → (lowest t == k) ≡ true → lookup k t ≡ none
lookup-free k t e = let same : lowest t ≡ k = ground (arith, e) in rw⁻¹ same (lookup-lowest t)

-- Giving back what was got.
pub lookup-close-install :
    (k : ℕ) (h : Handle) (t : Table) → lookup k (close (lowest t) (install h t)) ≡ lookup k t
lookup-close-install k h t = ground (
  arith,
  lookup-close k (lowest t) (install h t),
  lookup-install k h t,
  λ (e : (lowest t == k) ≡ true). lookup-free k t e,
)

-- The same with two.
pub lookup-close-install_two :
    (k : ℕ) (g h : Handle) (t : Table)
    → let u = install g t in
      lookup k (close (lowest u) (close (lowest t) (install h u))) ≡ lookup k t
lookup-close-install_two k g h t =
    let u = install g t in
    ground (
      arith,
      lookup-close k (lowest u) (close (lowest t) (install h u)),
      lookup-close k (lowest t) (install h u),
      lookup-install k h u,
      lookup-install k g t,
      λ (e : (lowest t == k) ≡ true). lookup-free k t e,
      λ (e : (lowest u == k) ≡ true). lookup-free k u e,
    )
