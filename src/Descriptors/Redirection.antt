-- ===== src/Descriptors/Redirection.antt =====
-- What the program that redirect.c or redirect2.c starts finds.
use unix_linux_prog_in_c_src.Base.{ℕ, suc, ◌≡◌, refl, true, Option, none, some, List, ◌∷◌}
use unix_linux_prog_in_c_src.Descriptors.{
  Handle, reads, writes, Table, lookup, lowest, install, close, executes, redirect, redirect2,
}
use unix_linux_prog_in_c_src.Descriptors.Tables.{lookup-close-install, lookup-install_self}

-- Where the descriptors 0 and 1 are open, redirect.c starts its program with the first file as the
-- descriptor 0, the second as 1, and all other descriptors as they were.
pub redirect_lem :
    (in_path out_path : List ℕ) (a b : Handle) (rest : Table)
    → let t = some a ∷ some b ∷ rest in
      (t' : Table) × (redirect true true in_path out_path t ≡ executes t')
      × (lookup 0 t' ≡ some (reads in_path))
      × (lookup 1 t' ≡ some (writes out_path))
      × ((k : ℕ) → lookup (suc (suc k)) t' ≡ lookup (suc (suc k)) t)
unfolding redirect
redirect_lem in_path out_path a b rest = (
  some (reads in_path)
      ∷ some (writes out_path)
      ∷ close (lowest rest) (install (reads in_path) rest),
  rw (lookup-install_self (reads in_path) rest) refl,
  refl,
  refl,
  λ k. lookup-close-install k (reads in_path) rest,
)

-- Where the descriptor 0 is closed and 1 is open, against what redirect.c assumes, its program has the
-- second file as the descriptor 0 and nothing as 1.
pub redirect_without_stdin :
    (in_path out_path : List ℕ) (b : Handle) (rest : Table)
    → redirect true true in_path out_path (none ∷ some b ∷ rest)
      ≡ executes (some (writes out_path) ∷ none ∷ rest)
unfolding redirect
redirect_without_stdin in_path out_path b rest = refl

-- Where the descriptor 0 is open, and whatever 1 and 2 were, redirect2.c starts its program with both
-- as the new file, and all other descriptors as they were.
pub redirect2_lem :
    (out_path : List ℕ) (a : Handle) (b c : Option Handle) (rest : Table)
    → redirect2 true out_path (some a ∷ b ∷ c ∷ rest)
      ≡ executes (some a ∷ some (writes out_path) ∷ some (writes out_path) ∷ rest)
unfolding redirect2
redirect2_lem out_path a b c rest = refl
