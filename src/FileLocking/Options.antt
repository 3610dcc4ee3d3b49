-- ===== src/FileLocking/Options.antt =====
-- The options of fcntl-locking.c: the loop over getopt() at the head of `main`.
use unix_linux_prog_in_c_src.Base.{
  ℕ, ◌≡◌, refl, Option, none, some, List, [], ◌∷◌, ◌++◌, ◌==◌, if◌then◌else◌, All,
}
use unix_linux_prog_in_c_src.FileLocking.{Locking, shared_fd, exclusive_fd}

-- What getopt returns: -l, -L, or an unknown option.
pub data Opt : Type 0 where
  opt_l opt_L unknown : Opt

-- The loop, from a value of `locking` on, and the test behind it of the number of operands; `none`
-- stands for usage().
unfoldable pub configure : (operands : ℕ) → Locking → List Opt → Option Locking
configure operands locking [] = if operands == 1 then some locking else none
configure operands locking (opt_l ∷ opts) = configure operands shared_fd opts
configure operands locking (opt_L ∷ opts) = configure operands exclusive_fd opts
configure operands locking (unknown ∷ opts) = none

abbrev pub Known : Opt → Type 0
Known opt_l = Unit
Known opt_L = Unit
Known unknown = ⊥

-- With one file name, the last option decides.
pub configure-append :
    (locking : Locking) (opts : List Opt)
    → All Known opts
    → (configure 1 locking (opts ++ opt_l ∷ []) ≡ some shared_fd)
      × (configure 1 locking (opts ++ opt_L ∷ []) ≡ some exclusive_fd)
unfolding configure
configure-append locking [] known = (refl, refl)
configure-append locking (opt_l ∷ opts) known = configure-append shared_fd opts known.1
configure-append locking (opt_L ∷ opts) known = configure-append exclusive_fd opts known.1
configure-append locking (unknown ∷ opts) known = absurd known.0
