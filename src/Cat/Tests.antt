-- ===== src/Cat/Tests.antt =====
-- Runs of cat.c, and the theorems there.
use unix_linux_prog_in_c_src.Base.{
  ◌≡◌, refl, arith, true, false, some, [], ◌∷◌, ◌==◌, if◌then◌else◌,
}
use unix_linux_prog_in_c_src.Cat.{fails, gives, File, cat}
use unix_linux_prog_in_c_src.Cat.Output.{contents, IsReadable, cat-contents}

abbrev letters : File
letters = record { opens = true; content = 97 ∷ 98 ∷ 99 ∷ []; answer = λ k. gives k }

abbrev digits : File
digits = record { opens = true; content = 49 ∷ 50 ∷ []; answer = λ k. gives 7 }

abbrev missing : File
missing = record { opens = false; content = 49 ∷ []; answer = λ k. gives 7 }

-- The second call of read() fails.
abbrev broken : File
broken = record {
  opens = true;
  content = 97 ∷ 98 ∷ 99 ∷ [];
  answer = λ k. if k == 1 then fails else gives 0;
}

runs_result :
    (cat 2 (letters ∷ digits ∷ []) ≡ some (97 ∷ 98 ∷ 99 ∷ 49 ∷ 50 ∷ [], false))
    × (cat 2 (missing ∷ broken ∷ digits ∷ []) ≡ some (97 ∷ 49 ∷ 50 ∷ [], true))
    × (cat 0 (letters ∷ []) ≡ some ([], false))
unfolding cat
runs_result = (refl, refl, refl)

letters-IsReadable : IsReadable letters
letters-IsReadable = record { opened = refl; answered = λ call e. ground (arith, e) }

digits-IsReadable : IsReadable digits
digits-IsReadable = record { opened = refl; answered = λ call e. ground (arith, e) }

cat-contents_example :
    cat 2 (letters ∷ digits ∷ []) ≡ some (contents (letters ∷ digits ∷ []), false)
cat-contents_example =
    cat-contents 2 (letters ∷ digits ∷ []) (omega arith)
      (letters-IsReadable, (digits-IsReadable, tt))
