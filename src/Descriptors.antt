-- ===== src/Descriptors.antt =====
-- Programs that rearrange their file descriptors before they start another program: read/redirect.c,
-- read/redirect2.c and pipe/pipe-and-fork.c.
pub mod Tables
pub mod Redirection
pub mod Pipeline
mod Tests
use unix_linux_prog_in_c_src.Base.{
  ℕ, zero, suc, ◌+◌, Bool, true, false, Option, none, some, List, [], ◌∷◌, if◌then◌else◌,
}

-- What a descriptor stands for.
pub data Handle : Type 0 where
  reads : (path : List ℕ) → Handle  -- an open file, by its path
  writes : (path : List ℕ) → Handle
  read_end write_end : Handle  -- the ends of the pipe
  other : (n : ℕ) → Handle  -- anything that was there before

-- The descriptors of a process, from 0 on; those behind the end are free.
abbrev pub Table : Type 0
Table = List (Option Handle)

abbrev pub lookup : ℕ → Table → Option Handle
lookup fd [] = none
lookup zero (h ∷ t) = h
lookup (suc fd) (h ∷ t) = lookup fd t

-- The system gives the lowest free descriptor.
pub lowest : Table → ℕ
lowest [] = 0
lowest (none ∷ t) = 0
lowest (some h ∷ t) = suc (lowest t)

pub install : Handle → Table → Table
install h [] = some h ∷ []
install h (none ∷ t) = some h ∷ t
install h (some g ∷ t) = some g ∷ install h t

pub close : ℕ → Table → Table
close fd [] = []
close zero (h ∷ t) = none ∷ t
close (suc fd) (h ∷ t) = h ∷ close fd t

abbrev pub install_if : Option Handle → Table → Table
install_if none t = t
install_if (some h) t = install h t

-- A descriptor that is not open cannot be duplicated; the programs do not look at the result.
pub dup : ℕ → Table → Table
unfolding install
dup fd t = install_if (lookup fd t) t

-- A process: the program goes on, has started another one, or has ended by err().
pub data Process {ℓ} (A : Type ℓ) : Type ℓ where
  goes_on : A → Table → Process A
  executes : Table → Process A
  fails : Process A

abbrev pub Action {ℓ} : Type ℓ → Type ℓ
Action A = Table → Process A

infixl 5 ◌>>=◌ ◌>>◌
abbrev pub ◌>>=◌ {ℓ} : {A B : Type ℓ} → Action A → (A → Action B) → Action B
◌>>=◌ m f t = elim (m t) [ goes_on a u ↦ f a u | executes u ↦ executes u | fails ↦ fails ]

abbrev pub ◌>>◌ {ℓ} : {A B : Type ℓ} → Action A → Action B → Action B
m >> k = m >>= λ _. k

abbrev pub does : (Table → Table) → Action (Unit {0})
does f t = goes_on tt (f t)

-- open() or creat(), and the call of err() where it fails.
abbrev pub opens : Bool → Handle → Action ℕ
opens true h t = goes_on (lowest t) (install h t)
opens false h t = fails

abbrev pub execl : Action (Unit {0})
execl t = executes t

-- `main` of redirect.c; the flags say whether the two files can be opened. The program that is started
-- is there.
pub redirect : (opens_in opens_out : Bool) (in_path out_path : List ℕ) → Action (Unit {0})
unfolding close dup lowest install
redirect opens_in opens_out in_path out_path = do
  fd ← opens opens_in (reads in_path)
  does (close 0)
  does (dup fd)
  does (close fd)
  does (close 1)
  opens opens_out (writes out_path)
  execl

-- `main` of redirect2.c.
pub redirect2 : (creates : Bool) (out_path : List ℕ) → Action (Unit {0})
unfolding close dup lowest install
redirect2 creates out_path = do
  does (close 1)
  opens creates (writes out_path)
  does (close 2)
  does (dup 1)
  execl

-- The descriptors that pipe() fills in.
pub record Pipe : Type 0 where
  pub p0 : ℕ
  pub p1 : ℕ

pub pipe : Action Pipe
unfolding lowest install
pipe t =
    let u = install read_end t in
    goes_on (record { p0 = lowest t; p1 = lowest u }) (install write_end u)

-- pipe-and-fork.c behind the fork, in the child and in the parent.
pub producer : Pipe → Action (Unit {0})
unfolding close dup
producer pd = do does (close 1); does (dup pd.p1); does (close pd.p0); does (close pd.p1); execl

pub consumer : Pipe → Action (Unit {0})
unfolding close dup
consumer pd = do does (close 0); does (dup pd.p0); does (close pd.p0); does (close pd.p1); execl

-- The whole of it, seen from one of the two processes: each has a copy of the table at the fork.
pub pipe_and_fork : (is_child : Bool) → Action (Unit {0})
unfolding pipe producer consumer
pipe_and_fork is_child = do pd ← pipe; if is_child then producer pd else consumer pd
