-- ===== src/Counter.antt =====
-- race/atomic-add.c: two threads add 1, 2, ..., n - 1 to a shared 32-bit number, by atomic additions,
-- under a mutex, or with no protection, and `main` compares the result with twice the sum.
-- The shared number is its bit pattern; an access to it is one step.
pub mod Options
pub mod Sum
pub mod Protected
pub mod Termination
pub mod Lost
mod Tests
use unix_linux_prog_in_c_src.Base.{
  ℕ, zero, suc, ◌+◌, ◌-◌, ◌*◌, ◌%◌, ◌^◌, Bool, true, false, Option, none, some, List, [], ◌∷◌, ltb,
  ◌==◌, if◌then◌else◌,
}

-- How `count` adds: the flag `atomic` goes before the flag `mutex`.
pub data Mode : Type 0 where
  atomic mutexed plain : Mode

pub record Flags : Type 0 where
  pub atomic_flag : ℕ
  pub mutex_flag : ℕ

-- The loop over getopt(3): the list holds what its calls return before the end. `none` is an exit
-- with the usage.
options : Flags → List ℕ → Option Flags
options f [] = some f
options f (c ∷ cs) =
    let set_atomic = options (record f { atomic_flag = 1 }) cs in
    let set_mutex = options (record f { mutex_flag = 1 }) cs in
    if c == b'a' then set_atomic else if c == b'm' then set_mutex else none

mode_of : Flags → Mode
mode_of f = if f.atomic_flag == 0 then (if f.mutex_flag == 0 then plain else mutexed) else atomic

-- The test behind the loop: `operands` is `argc - optind`. `none` is an exit with the usage.
select : Flags → ℕ → Option Mode
unfolding mode_of
select f operands =
    if f.atomic_flag + f.mutex_flag == 2
    then none
    else if operands == 1
    then some (mode_of f)
    else none

-- `main` before it creates the threads.
pub configure : List ℕ → ℕ → Option Mode
unfolding options select
configure cs operands = elim (options (record { atomic_flag = 0; mutex_flag = 0 }) cs) [
  | none ↦ none
  | some f ↦ select f operands
]

-- Where a thread stands, with the variable `i` of its loop.
pub data Pc : Type 0 where
  head : (i : ℕ) → Pc  -- the test of the loop
  add : (i : ℕ) → Pc  -- ATOMIC_ADD
  lock : (i : ℕ) → Pc  -- pthread_mutex_lock
  load : (i : ℕ) → Pc  -- `x = x + i`, before the load of x
  store : (i v : ℕ) → Pc  -- and before the store, with `v` loaded
  unlock : (i : ℕ) → Pc  -- pthread_mutex_unlock
  finished : Pc

pub record Local : Type 0 where
  pub x : ℕ
  pub locked : Bool
  pub pc : Pc

-- `i < n` in `count`, where the bit pattern `n` is read as an int and `i` is positive.
abbrev pub below_int : ℕ → ℕ → Bool
below_int i n = if ltb n (2 ^ 31) then ltb i n else false

abbrev first_of_round : Mode → ℕ → Pc
first_of_round atomic i = add i
first_of_round mutexed i = lock i
first_of_round plain i = load i

abbrev behind_store : Mode → ℕ → Pc
behind_store atomic i = head (i + 1)
behind_store mutexed i = unlock i
behind_store plain i = head (i + 1)

-- A step of `count`.
pub count : Mode → ℕ → Pc → Local → Local
count mode n (head i) l = record l {
  pc = if below_int i n then first_of_round mode i else finished;
}
count mode n (add i) l = record l { x = (l.x + i) % 2 ^ 32; pc = head (i + 1) }
count mode n (lock i) l = if l.locked then l else record l { locked = true; pc = load i }
count mode n (load i) l = record l { pc = store i l.x }
count mode n (store i v) l = record l { x = (v + i) % 2 ^ 32; pc = behind_store mode i }
count mode n (unlock i) l = record l { locked = false; pc = head (i + 1) }
count mode n finished l = l

pub record State : Type 0 where
  pub x : ℕ
  pub locked : Bool
  pub t1 : Pc
  pub t2 : Pc

pub start : State
start = record { x = 0; locked = false; t1 = head 1; t2 = head 1 }

pub data Event : Type 0 where
  first second : Event

pub step : Mode → ℕ → Event → State → State
unfolding count
step mode n first s =
    let l = count mode n s.t1 (record { x = s.x; locked = s.locked; pc = s.t1 }) in
    record s { x = l.x; locked = l.locked; t1 = l.pc }
step mode n second s =
    let l = count mode n s.t2 (record { x = s.x; locked = s.locked; pc = s.t2 }) in
    record s { x = l.x; locked = l.locked; t2 = l.pc }

-- `for (i = 1, x2 = 0; i < n1; ++i) x2 = x2 + i` over unsigned numbers, with the rounds left.
pub sum_loop : ℕ → ℕ → ℕ → ℕ
sum_loop zero i x2 = x2
sum_loop (suc rounds) i x2 = sum_loop rounds (i + 1) ((x2 + i) % 2 ^ 32)

-- The loop makes n1 - 1 rounds, or none at 0.
pub expected : ℕ → ℕ
unfolding sum_loop
expected n1 = 2 * sum_loop (n1 - 1) 1 0 % 2 ^ 32

pub data Verdict : Type 0 where
  race_detected everything_ok : Verdict

-- What `main` prints when both threads have ended.
pub verdict : ℕ → ℕ → Verdict
verdict x n1 = if x == expected n1 then everything_ok else race_detected
