-- ===== src/Descriptors/Tests.antt =====
-- Runs of redirect.c, redirect2.c and pipe-and-fork.c, and the theorems there.
use unix_linux_prog_in_c_src.Base.{
  ℕ, zero, suc, ◌≡◌, ◌≢◌, ◌↔◌, refl, arith, true, false, none, some, List, [], ◌∷◌,
}
use unix_linux_prog_in_c_src.Descriptors.{
  Handle, reads, writes, read_end, write_end, other, Table, lookup, executes, fails, redirect,
  redirect2, pipe_and_fork,
}
use unix_linux_prog_in_c_src.Descriptors.Pipeline.{pipe_and_fork-ends}

-- The standard descriptors, and one that is open besides.
abbrev standard : Table
standard = some (other 7) ∷ some (other 8) ∷ some (other 9) ∷ none ∷ some (other 5) ∷ []

abbrev in_path : List ℕ
in_path = 105 ∷ []

abbrev out_path : List ℕ
out_path = 111 ∷ []

runs_result :
    (redirect true true in_path out_path standard
      ≡ executes (
          some (reads in_path)
          ∷ some (writes out_path)
          ∷ some (other 9)
          ∷ none
          ∷ some (other 5)
          ∷ []))
    × (redirect true false in_path out_path standard ≡ fails)
    × (redirect2 true out_path standard
        ≡ executes (
            some (other 7)
            ∷ some (writes out_path)
            ∷ some (writes out_path)
            ∷ none
            ∷ some (other 5)
            ∷ []))
    × (pipe_and_fork true standard
        ≡ executes
            (some (other 7) ∷ some write_end ∷ some (other 9) ∷ none ∷ some (other 5) ∷ none ∷ []))
unfolding redirect redirect2 pipe_and_fork
runs_result = (refl, refl, refl, refl)

abbrev bare : Table
bare = some (other 7) ∷ some (other 8) ∷ []

no_end : (h : Handle) → other 7 ≢ h → other 8 ≢ h → (k : ℕ) → lookup k bare ≢ some h
no_end h n m zero e = n (cc)
no_end h n m (suc zero) e = m (cc)
no_end h n m (suc (suc k)) e = ground (arith, e)

pipe_and_fork-ends_example :
    (c p : Table) × (pipe_and_fork true bare ≡ executes c)
    × (pipe_and_fork false bare ≡ executes p)
    × ((k : ℕ) → (lookup k c ≡ some write_end) ↔ (k ≡ 1))
    × ((k : ℕ) → lookup k c ≢ some read_end)
    × ((k : ℕ) → lookup k p ≢ some write_end)
    × ((k : ℕ) → (lookup k p ≡ some read_end) ↔ (k ≡ 0))
pipe_and_fork-ends_example =
    pipe_and_fork-ends (other 7) (other 8) []
      (no_end write_end (λ e. ground (arith, e)) (λ e. ground (arith, e)))
      (no_end read_end (λ e. ground (arith, e)) (λ e. ground (arith, e)))
