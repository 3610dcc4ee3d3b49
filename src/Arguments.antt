-- ===== src/Arguments.antt =====
-- pthreads/correct-use-of-args.c and pthreads/wrong-use-of-arg.c: `main` creates five threads, each with
-- a pointer to a number of its own, or all with a pointer to the loop variable. The return from `main`
-- ends the threads that are left.
pub mod Own
pub mod End
pub mod Shared
mod Tests
use unix_linux_prog_in_c_src.Base.{
  ℕ, zero, suc, ◌+◌, Bool, true, false, List, [], ◌∷◌, ltb, ◌==◌, if◌then◌else◌,
}
use unix_linux_prog_in_c_src.Base.Family.{put}

abbrev pub num_threads : ℕ
num_threads = 5

abbrev pub num_loops : ℕ
num_loops = 3

pub data Thread : Type 0 where
  unborn : Thread
  running : (i : ℕ) → Thread  -- the head of its loop
  finished : Thread

pub data MainPc : Type 0 where
  head : MainPc  -- of the first loop
  increment : MainPc
  joining : (j : ℕ) → MainPc
  ended : MainPc

-- What a thread prints: which thread it is, the number that its argument points to, its loop variable.
pub record Line : Type 0 where
  pub thread : ℕ
  pub value : ℕ
  pub round : ℕ

pub record State : Type 0 where
  pub main_pc : MainPc
  pub i : ℕ  -- of main
  pub id : ℕ → ℕ  -- not there in the wrong program
  pub t : ℕ  -- the thread created last, in the wrong program
  pub thread : ℕ → Thread
  pub printed : List Line

-- The array is not initialized; here its members are 99.
pub start : State
start = record { main_pc = head; i = 0; id = λ k. 99; t = 0; thread = λ k. unborn; printed = [] }

abbrev pub is_finished : Thread → Bool
is_finished unborn = false
is_finished (running i) = false
is_finished finished = true

-- The thread that is joined in a round of the last loop. Joining a thread that has been joined before
-- is undefined, and taken to return.
abbrev pub join_target : (own : Bool) (j : ℕ) → State → ℕ
join_target true j s = j
join_target false j s = s.t

-- A step of `main`; the flag says that it is the correct program.
pub main_step : (own : Bool) → MainPc → State → State
main_step own head s =
    if ltb s.i num_threads
    then record s {
      main_pc = increment;
      id = if own then put s.i s.i s.id else s.id;
      t = s.i;
      thread = put s.i (running 0) s.thread;
    }
    else record s { main_pc = joining 0 }
main_step own increment s = record s { main_pc = head; i = s.i + 1 }
main_step own (joining j) s =
    if ltb j num_threads
    then if is_finished (s.thread (join_target own j s))
      then record s { main_pc = joining (j + 1) }
      else s
    else record s { main_pc = ended }
main_step own ended s = s

-- The number that the argument of a thread points to.
abbrev pub pointed : (own : Bool) (k : ℕ) → State → ℕ
pointed true k s = s.id k
pointed false k s = s.i

-- A step of the function `thread`.
pub thread_step : (own : Bool) (k : ℕ) → Thread → State → State
thread_step own k unborn s = s
thread_step own k (running i) s =
    if ltb i num_loops
    then record s {
      thread = put k (running (i + 1)) s.thread;
      printed = record { thread = k; value = pointed own k s; round = i } ∷ s.printed;
    }
    else record s { thread = put k finished s.thread }
thread_step own k finished s = s

pub data Event : Type 0 where
  main_runs : Event
  thread_runs : (k : ℕ) → Event

abbrev pub is_ended : MainPc → Bool
is_ended head = false
is_ended increment = false
is_ended (joining j) = false
is_ended ended = true

pub step : (own : Bool) → Event → State → State
unfolding main_step thread_step
step own main_runs s = main_step own s.main_pc s
step own (thread_runs k) s = if is_ended s.main_pc then s else thread_step own k (s.thread k) s
