-- ===== src/Getopt/Last.antt =====
-- The options of getopt.c and getopt_long.c, where all of them are known.
use unix_linux_prog_in_c_src.Base.{
  ℕ, ◌+◌, ◌-◌, ◌≡◌, refl, ap, subst, arith, Bool, true, false, ◌||◌, Option, none, some, List, [],
  ◌∷◌, ◌++◌, All,
}
use unix_linux_prog_in_c_src.Getopt.{
  Text, Opt, opt_c, first_param, done_reading, code_line, files_line, finish, read_options, main,
  LongOpt, buffy, fluoride, daggerset, other, LongLine, dagger_line, buffy_line, ended, long_line,
  read_long_options, main_long,
}

abbrev pub with_codes : List Text → List Opt
with_codes [] = []
with_codes (code ∷ codes) = opt_c code ∷ with_codes codes

-- The last of some codes, or `code` where there is none.
abbrev pub last_of : Option Text → List Text → Option Text
last_of code [] = code
last_of code (c ∷ codes) = last_of (some c) codes

read_options-finish :
    (code : Option Text) (codes files : List Text)
    → read_options code (with_codes codes) files ≡ finish (last_of code codes) files
unfolding read_options
read_options-finish code [] files = refl
read_options-finish code (c ∷ codes) files = read_options-finish (some c) codes files

-- With a command, and options -c that each have an argument: the command is printed, the last argument
-- of -c, where there is one, and the files, or that there are none; the status is 0.
pub main_codes :
    (command : Text) (codes files : List Text)
    → main (some command) (with_codes codes) files ≡ record {
      lines =
          first_param command ∷ done_reading ∷ code_line (last_of none codes)
          ++ files_line files ∷ [];
      status = 0;
    }
unfolding main
main_codes command codes files = rw (read_options-finish none codes files) refl

-- An option that is known, and whose file opens.
abbrev pub Fine : LongOpt → Type 0
Fine buffy = Unit
Fine (fluoride true) = Unit
Fine (fluoride false) = ⊥
Fine daggerset = Unit
Fine other = ⊥

abbrev pub has_buffy : List LongOpt → Bool
has_buffy [] = false
has_buffy (buffy ∷ opts) = true
has_buffy (fluoride opens ∷ opts) = has_buffy opts
has_buffy (daggerset ∷ opts) = has_buffy opts
has_buffy (other ∷ opts) = has_buffy opts

abbrev pub files_of : List LongOpt → ℕ
files_of [] = 0
files_of (buffy ∷ opts) = files_of opts
files_of (fluoride opens ∷ opts) = files_of opts + 1
files_of (daggerset ∷ opts) = files_of opts
files_of (other ∷ opts) = files_of opts

abbrev pub daggers : List LongOpt → List LongLine
daggers [] = []
daggers (buffy ∷ opts) = daggers opts
daggers (fluoride opens ∷ opts) = daggers opts
daggers (daggerset ∷ opts) = dagger_line ∷ daggers opts
daggers (other ∷ opts) = daggers opts

abbrev pub buffy_lines : Bool → List LongLine
buffy_lines true = buffy_line ∷ []
buffy_lines false = []

read_long_options_lem :
    (bflag : Bool) (opened : ℕ) (opts : List LongOpt)
    → All Fine opts
    → read_long_options bflag opened opts ≡ record {
      lines = daggers opts ++ buffy_lines (bflag || has_buffy opts);
      open_files = opened + files_of opts - 1;
      ending = ended;
    }
unfolding read_long_options
read_long_options_lem true opened [] fine =
    let same : opened + 0 ≡ opened = omega arith in rw same refl
read_long_options_lem false opened [] fine =
    let same : opened + 0 ≡ opened = omega arith in rw same refl
read_long_options_lem true opened (buffy ∷ opts) fine =
    read_long_options_lem true opened opts fine.1
read_long_options_lem false opened (buffy ∷ opts) fine =
    read_long_options_lem true opened opts fine.1
read_long_options_lem bflag opened (fluoride true ∷ opts) fine =
    let one_more : opened + (files_of opts + 1) ≡ opened + 1 + files_of opts = omega arith in
    rw one_more (read_long_options_lem bflag (opened + 1) opts fine.1)
read_long_options_lem bflag opened (fluoride false ∷ opts) fine = absurd fine.0
read_long_options_lem bflag opened (daggerset ∷ opts) fine =
    ap (long_line dagger_line) (read_long_options_lem bflag opened opts fine.1)
read_long_options_lem bflag opened (other ∷ opts) fine = absurd fine.0

-- With known options, whose files open: the line of --daggerset is printed once for each, and that of
-- -b once, at the end, where it is there; of the files of -f, all but the last one stay open.
pub main_long_lem :
    (opts : List LongOpt)
    → All Fine opts
    → main_long opts ≡ record {
      lines = daggers opts ++ buffy_lines (has_buffy opts);
      open_files = files_of opts - 1;
      ending = ended;
    }
unfolding main_long
main_long_lem opts fine =
    let same : 0 + files_of opts ≡ files_of opts = omega arith in
    subst
      (λ n. read_long_options false 0 opts ≡ record {
        lines = daggers opts ++ buffy_lines (has_buffy opts);
        open_files = n - 1;
        ending = ended;
      })
      same (read_long_options_lem false 0 opts fine)
