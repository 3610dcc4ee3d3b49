-- ===== src/Stages.antt =====
-- pthreads/pthread-barrier.c: eight threads loop for some time in each of three stages, and meet at a
-- barrier of the pthreads library at the end of each.
pub mod Together
pub mod Last
pub mod Progress
mod Tests
use unix_linux_prog_in_c_src.Base.{
  ℕ, zero, suc, ◌+◌, ◌%◌, Bool, true, false, List, [], ◌∷◌, ltb, ◌==◌, if◌then◌else◌,
}
use unix_linux_prog_in_c_src.Base.Family.{put}

abbrev pub num_threads : ℕ
num_threads = 8

abbrev pub num_stages : ℕ
num_stages = 3

-- Where a thread stands in the stage `j`.
pub data Pc : Type 0 where
  choose : (j : ℕ) → Pc  -- random()
  loop : (j left : ℕ) → Pc
  reach : (j : ℕ) → Pc
  waiting : (j : ℕ) → Pc  -- in pthread_barrier_wait
  passed : (j : ℕ) (last : Bool) → Pc  -- behind it
  finished : Pc

-- What is printed behind the barrier.
pub record Line : Type 0 where
  pub stage : ℕ
  pub id : ℕ
  pub last : Bool

pub record State : Type 0 where
  pub blocked : ℕ  -- the threads in the barrier
  pub pc : ℕ → Pc
  pub printed : List Line

pub start : State
start = record { blocked = 0; pc = λ i. choose 0; printed = [] }

abbrev pub go : ℕ → Pc → State → State
go i p s = record s { pc = put i p s.pc }

-- The barrier lets a thread go; the thread `serial` gets PTHREAD_BARRIER_SERIAL_THREAD.
abbrev pub let_go : (serial k : ℕ) → Pc → Pc
let_go serial k (waiting j) = passed j (serial == k)
let_go serial k (choose j) = choose j
let_go serial k (loop j left) = loop j left
let_go serial k (reach j) = reach j
let_go serial k (passed j last) = passed j last
let_go serial k finished = finished

-- pthread_barrier_wait(): the last thread of the number that the barrier was set up with frees all.
abbrev pub barrier_wait : (serial i j : ℕ) → State → State
barrier_wait serial i j s =
    if s.blocked + 1 == num_threads
    then record s { blocked = 0; pc = λ k. let_go serial k (put i (waiting j) s.pc k) }
    else go i (waiting j) (record s { blocked = s.blocked + 1 })

-- The head of the loop over the stages.
abbrev pub head : ℕ → Pc
head j = if ltb j num_stages then choose j else finished

-- A step of the thread `i`; `r` is what random() returns.
pub worker : (r serial i : ℕ) → Pc → State → State
worker r serial i (choose j) s = go i (loop j (r % 5)) s
worker r serial i (loop j zero) s = go i (reach j) s
worker r serial i (loop j (suc left)) s = go i (loop j left) s
worker r serial i (reach j) s = barrier_wait serial i j s
worker r serial i (waiting j) s = s
worker r serial i (passed j last) s =
    go i (head (j + 1))
      (record s { printed = record { stage = j; id = i; last = last } ∷ s.printed })
worker r serial i finished s = s

-- Which thread goes on, what random() returns, and which thread the barrier chooses if it is full.
pub record Event : Type 0 where
  pub thread : ℕ
  pub random : ℕ
  pub chosen : ℕ

pub step : Event → State → State
unfolding worker
step e s =
    if ltb e.thread num_threads
    then worker e.random (e.chosen % num_threads) e.thread (s.pc e.thread) s
    else s
