-- ===== src/Getopt.antt =====
-- getopt/getopt.c and getopt/getopt_long.c: what the programs do with the results of getopt() and
-- getopt_long(), which are lists here, with the operands that are left.
pub mod Last
mod Tests
use unix_linux_prog_in_c_src.Base.{
  ℕ, ◌+◌, ◌-◌, Bool, true, false, Option, none, some, List, [], ◌∷◌, ◌++◌, if◌then◌else◌,
}

abbrev pub Text : Type 0
Text = List ℕ

-- getopt.c: -c with its argument; -c without one; an unknown option.
pub data Opt : Type 0 where
  opt_c : (optarg : Text) → Opt
  missing : (optopt : ℕ) → Opt
  unknown : (optopt : ℕ) → Opt

-- What is printed.
pub data Line : Type 0 where
  first_param : Text → Line
  missing_value unknown_option : (optopt : ℕ) → Line
  usage_line : Line
  done_reading : Line
  code_set : Text → Line
  no_filenames : Line
  filenames : List Text → Line

pub record Outcome : Type 0 where
  pub lines : List Line
  pub status : ℕ

abbrev pub prints : List Line → Outcome → Outcome
prints lines o = record { lines = lines ++ o.lines; status = o.status }

abbrev pub usage : Outcome
usage = record { lines = usage_line ∷ []; status = 1 }

abbrev pub files_line : List Text → Line
files_line [] = no_filenames
files_line (f ∷ files) = filenames (f ∷ files)

abbrev pub code_line : Option Text → List Line
code_line none = []
code_line (some code) = code_set code ∷ []

-- Behind the options.
abbrev pub finish : (code : Option Text) → (files : List Text) → Outcome
finish code files = record {
  lines = done_reading ∷ code_line code ++ files_line files ∷ [];
  status = 0;
}

-- The loop over getopt(), with the value of `code`.
pub read_options : (code : Option Text) → List Opt → (files : List Text) → Outcome
read_options code [] files = finish code files
read_options code (opt_c optarg ∷ opts) files = read_options (some optarg) opts files
read_options code (missing optopt ∷ opts) files = prints (missing_value optopt ∷ []) usage
read_options code (unknown optopt ∷ opts) files = prints (unknown_option optopt ∷ []) usage

-- `main` of getopt.c; the first argument is the command, which may be missing.
pub main : (command : Option Text) → List Opt → (files : List Text) → Outcome
unfolding read_options
main none opts files = usage
main (some command) opts files = prints (first_param command ∷ []) (read_options none opts files)

-- getopt_long.c: what getopt_long() returns; at 0 it has set `daggerset`. Whether the file of -f opens
-- is part of the option.
pub data LongOpt : Type 0 where
  buffy : LongOpt
  fluoride : (opens : Bool) → LongOpt
  daggerset : LongOpt
  other : LongOpt

pub data LongLine : Type 0 where
  dagger_line buffy_line : LongLine

pub data Ending : Type 0 where
  ended : Ending
  open_failed : Ending
  bad_usage : Ending

-- `open_files` are the descriptors that the program has open at its end.
pub record LongOutcome : Type 0 where
  pub lines : List LongLine
  pub open_files : ℕ
  pub ending : Ending

abbrev pub long_line : LongLine → LongOutcome → LongOutcome
long_line l o = record o { lines = l ∷ o.lines }

abbrev pub long_stop : ℕ → Ending → LongOutcome
long_stop open_files e = record { lines = []; open_files = open_files; ending = e }

-- Behind the loop: only the last descriptor is closed.
abbrev pub closed : ℕ → ℕ
closed opened = opened - 1

abbrev pub long_finish : (bflag : Bool) → (opened : ℕ) → LongOutcome
long_finish true opened = long_line buffy_line (long_stop (closed opened) ended)
long_finish false opened = long_stop (closed opened) ended

-- The loop over getopt_long(), with the value of `bflag` and how many files have been opened; `fd` is
-- the descriptor of the last one.
pub read_long_options : (bflag : Bool) → (opened : ℕ) → List LongOpt → LongOutcome
read_long_options bflag opened [] = long_finish bflag opened
read_long_options bflag opened (buffy ∷ opts) = read_long_options true opened opts
read_long_options bflag opened (fluoride true ∷ opts) = read_long_options bflag (opened + 1) opts
read_long_options bflag opened (fluoride false ∷ opts) = long_stop opened open_failed
read_long_options bflag opened (daggerset ∷ opts) =
    long_line dagger_line (read_long_options bflag opened opts)
read_long_options bflag opened (other ∷ opts) = long_stop opened bad_usage

-- `main` of getopt_long.c.
pub main_long : List LongOpt → LongOutcome
unfolding read_long_options
main_long opts = read_long_options false 0 opts
