-- ===== src/Resolver.antt =====
-- reentrant/gethostbyname.c: gethostbyname() returns a pointer to a structure of the library, which the
-- next call overwrites. What names stand for is a parameter.
pub mod Overwritten
mod Tests
use unix_linux_prog_in_c_src.Base.{
  ℕ, zero, suc, ◌+◌, Bool, true, false, Option, none, some, List, [], ◌∷◌, ◌++◌, ◌&&◌, not, length,
  strcmp, ◌==◌, ◌||◌, if◌then◌else◌,
}

pub record Hostent : Type 0 where
  pub h_name : List ℕ
  pub h_addr_list : List ℕ

-- What print_hp prints: a heading for host1 or host2, 1 or 2, and a line for an address, with the name.
pub data Line : Type 0 where
  heading : (comment : ℕ) → Line
  host : (address : ℕ) → (name : List ℕ) → Line

pub data Ending : Type 0 where
  usage same_hosts unresolved crashed done : Ending

pub record Outcome : Type 0 where
  pub lines : List Line
  pub ending : Ending

-- The loop of print_hp.
abbrev pub print_addresses : (name : List ℕ) → List ℕ → List Line
print_addresses name [] = []
print_addresses name (a ∷ rest) = host a name ∷ print_addresses name rest

abbrev pub print_hp : (comment : ℕ) → Hostent → List Line
print_hp comment hp = heading comment ∷ print_addresses hp.h_name hp.h_addr_list

-- The structure of the library behind a call of gethostbyname(), where the call succeeds. The call
-- returns a pointer to it, the same one each time: `hp1` and `hp2` are equal.
abbrev pub gethostbyname : (List ℕ → Option Hostent) → List ℕ → Option Hostent
gethostbyname resolve name = resolve name

abbrev pub stop : Ending → Outcome
stop e = record { lines = []; ending = e }

-- What is printed when both calls are done; `first` is what the first call has left in the structure,
-- and `static` what is there now.
abbrev pub print_both : (seq : Bool) (first static : Hostent) → Outcome
print_both true first static = record {
  lines = print_hp 1 first ++ print_hp 2 static;
  ending = done;
}
print_both false first static = record {
  lines = print_hp 1 static ++ print_hp 2 static;
  ending = done;
}

-- Behind the first call.
abbrev pub second_call : (seq : Bool) → Hostent → Option Hostent → Outcome
second_call true first none = record { lines = print_hp 1 first; ending = unresolved }
second_call false first none = stop unresolved
second_call seq first (some static) = print_both seq first static

abbrev pub first_call : (seq : Bool) → Option Hostent → Option Hostent → Outcome
first_call seq none second = stop unresolved
first_call seq (some first) second = second_call seq first second

-- Behind the options, with argv[optidx] and argv[optidx + 1]; a NULL pointer makes strcmp() crash.
abbrev pub look_up : (List ℕ → Option Hostent) → (seq : Bool) → List (List ℕ) → Outcome
look_up resolve seq (host1 ∷ host2 ∷ rest) =
    if strcmp host1 host2
    then stop same_hosts
    else first_call seq (gethostbyname resolve host1) (gethostbyname resolve host2)
look_up resolve seq _ = stop crashed

-- "-s"
abbrev pub dash_s : List ℕ
dash_s = 45 ∷ 115 ∷ []

abbrev pub options : (List ℕ → Option Hostent) → List (List ℕ) → Outcome
options resolve [] = stop usage
options resolve (arg ∷ args) =
    if strcmp arg dash_s then look_up resolve true args else look_up resolve false (arg ∷ args)

-- `main`, with the arguments behind the name of the program.
pub main : (List ℕ → Option Hostent) → (args : List (List ℕ)) → Outcome
main resolve args =
    if length args == 2 || length args == 3 then options resolve args else stop usage
