-- ===== src/LockFile.antt =====
-- file-locking/lock-unlock.c: a lock that is a file, taken by creating it; and the loop of a worker that
-- uses it, the script file-locking/run.sh.
pub mod Exclusion
mod Tests
use unix_linux_prog_in_c_src.Base.{
  ℕ, Bool, true, false, List, [], ◌∷◌, ◌&&◌, strcmp, ◌==◌, if◌then◌else◌,
}
use unix_linux_prog_in_c_src.Base.Family.{put}

-- OPL and OPUNL, as the codes of their letters.
abbrev pub opl : List ℕ
opl = 108 ∷ 111 ∷ 99 ∷ 107 ∷ []

abbrev pub opunl : List ℕ
opunl = 117 ∷ 110 ∷ 108 ∷ 111 ∷ 99 ∷ 107 ∷ []

-- The status of a call of the program, and whether the file exists behind it.
pub record Result : Type 0 where
  pub status : ℕ
  pub exists : Bool

-- open() with O_EXCL and O_CREAT; the flag says that it fails, though not because the file exists.
pub lock : (fails exists : Bool) → Result
lock true exists = record { status = 2; exists = exists }
lock false false = record { status = 0; exists = true }
lock false true = record { status = 1; exists = true }

pub unlock : (fails exists : Bool) → Result
unlock true exists = record { status = 2; exists = exists }
unlock false false = record { status = 2; exists = false }
unlock false true = record { status = 0; exists = false }

-- `main`, with the arguments behind the name of the program.
pub lock_unlock : (args : List (List ℕ)) → (fails exists : Bool) → Result
unfolding lock unlock
lock_unlock (filename ∷ op ∷ []) fails exists =
    if strcmp op opl
    then lock fails exists
    else if strcmp op opunl
    then unlock fails exists
    else record { status = 1; exists = exists }
lock_unlock _ fails exists = record { status = 1; exists = exists }

-- Where a worker stands: it tries to get the lock, has it and works, or has ended.
pub data Pc : Type 0 where
  trying working gone : Pc

pub record State : Type 0 where
  pub exists : Bool
  pub pc : ℕ → Pc

pub start : State
start = record { exists = false; pc = λ i. trying }

abbrev pub filename : List ℕ
filename = 120 ∷ []

abbrev pub behind_lock : ℕ → Pc
behind_lock status = if status == 0 then working else trying

-- A worker calls the program. A status of 2 does not end it: its `return` is outside of any function.
-- The status of `unlock` is not looked at.
pub worker : (fails : Bool) → ℕ → Pc → State → State
unfolding lock_unlock
worker fails i trying s =
    let r = lock_unlock (filename ∷ opl ∷ []) fails s.exists in
    record { exists = r.exists; pc = put i (behind_lock r.status) s.pc }
worker fails i working s =
    let r = lock_unlock (filename ∷ opunl ∷ []) fails s.exists in
    record { exists = r.exists; pc = put i trying s.pc }
worker fails i gone s = s

pub data Event : Type 0 where
  runs : (i : ℕ) (fails : Bool) → Event
  crashes : (i : ℕ) → Event  -- it ends without its trap, as by SIGKILL
  killed : (i : ℕ) → Event  -- SIGINT or SIGTERM: the trap removes the file

pub step : Event → State → State
unfolding worker
step (runs i fails) s = worker fails i (s.pc i) s
step (crashes i) s = record s { pc = put i gone s.pc }
step (killed i) s = record { exists = false; pc = put i gone s.pc }
