-- ===== src/Mutexes.antt =====
-- mutexes/race.c and mutexes/race-fixed.c: two threads write their numbers to both members of a
-- structure, and print a mark where they find the members unequal; the second program does so under a
-- mutex.
pub mod Silent
mod Tests
use unix_linux_prog_in_c_src.Base.{
  ℕ, ◌+◌, Bool, true, false, Option, none, some, List, [], ◌∷◌, ltb, ◌==◌, if◌then◌else◌,
}
use unix_linux_prog_in_c_src.Base.Family.{put}

pub data Pc : Type 0 where
  lock : Pc
  load_a : Pc
  load_b : (a : ℕ) → Pc  -- and the comparison
  store_a : Pc
  store_b : Pc
  unlock : Pc

pub record State : Type 0 where
  pub a : ℕ
  pub b : ℕ
  pub mutex : Option ℕ
  pub pc : ℕ → Pc
  pub marks : List ℕ  -- what has been printed, as the numbers of the threads

abbrev pub head : (fixed : Bool) → Pc
head true = lock
head false = load_a

pub start : (fixed : Bool) → State
start fixed = record { a = 0; b = 0; mutex = none; pc = λ i. head fixed; marks = [] }

abbrev pub is_free : Option ℕ → Bool
is_free none = true
is_free (some i) = false

abbrev pub go : ℕ → Pc → State → State
go i p s = record s { pc = put i p s.pc }

-- A step of `thread` with the argument `i`; the flag says that it is the one of race-fixed.c.
pub advance : (fixed : Bool) → ℕ → Pc → State → State
advance fixed i lock s = if is_free s.mutex then go i load_a (record s { mutex = some i }) else s
advance fixed i load_a s = go i (load_b s.a) s
advance fixed i (load_b v) s =
    if v == s.b then go i store_a s else go i store_a (record s { marks = i ∷ s.marks })
advance fixed i store_a s = go i store_b (record s { a = i })
advance fixed i store_b s = go i (if fixed then unlock else load_a) (record s { b = i })
advance fixed i unlock s = go i lock (record s { mutex = none })

-- The event is the number of the thread that goes on.
pub step : (fixed : Bool) → ℕ → State → State
unfolding advance
step fixed i s = if ltb i 2 then advance fixed i (s.pc i) s else s
