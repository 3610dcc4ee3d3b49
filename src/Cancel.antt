-- ===== src/Cancel.antt =====
-- pthreads/pthread-setcanceltype.c: a thread spins for some seconds, then opens a fifo, and `main`
-- cancels it; with the option -a the thread allows this at any time.
pub mod Deferred
pub mod Success
mod Tests
use unix_linux_prog_in_c_src.Base.{
  ℕ, Bool, true, false, List, [], ◌∷◌, ◌||◌, ◌&&◌, strcmp, ◌==◌, if◌then◌else◌,
}

-- Where the thread stands.
pub data Place : Type 0 where
  set_type : Place
  say_start : Place
  spin : Place
  say_passed : Place
  open_fifo : Place
  say_error : Place

pub data Pc : Type 0 where
  running : (at : Place) → Pc
  canceled : (at : Place) → Pc
  returned : Pc

pub data MainPc : Type 0 where
  wait : MainPc  -- the call of poll
  cancel : MainPc
  join : MainPc
  ended : (status : ℕ) → MainPc

pub record State : Type 0 where
  pub asynchronous : Bool  -- the type of cancellation of the thread
  pub requested : Bool
  pub pc : Pc
  pub main_pc : MainPc

pub start : State
start = record { asynchronous = false; requested = false; pc = running set_type; main_pc = wait }

-- What is not in the hands of the program: whether a request that may be acted upon is acted upon
-- now, whether the time has passed, whether somebody has the fifo open for writing, and whether the
-- call of open() fails (the fifo is not there, or may not be read).
pub record Choice : Type 0 where
  pub acts : Bool
  pub passed : Bool
  pub writer : Bool
  pub fails : Bool

-- Whether a request for cancellation ends the thread at this place. Without asynchronous cancellation,
-- open() does so, printf() and fprintf() may do so, and the loop does not.
abbrev pub stops : Place → (asynchronous acts : Bool) → Bool
stops set_type asynchronous acts = asynchronous && acts
stops say_start asynchronous acts = acts
stops spin asynchronous acts = asynchronous && acts
stops say_passed asynchronous acts = acts
stops open_fifo asynchronous acts = true
stops say_error asynchronous acts = acts

-- What the thread does at a place where it goes on; the flag says -a.
pub proceed : (async : Bool) → Choice → Place → State → State
proceed async ch set_type s = record s { asynchronous = async; pc = running say_start }
proceed async ch say_start s = record s { pc = running spin }
proceed async ch spin s = if ch.passed then record s { pc = running say_passed } else s
proceed async ch say_passed s = record s { pc = running open_fifo }
proceed async ch open_fifo s =
    if ch.writer || ch.fails then record s { pc = running say_error } else s
proceed async ch say_error s = record s { pc = returned }

-- A step of `mythread`.
pub mythread : (async : Bool) → Choice → Pc → State → State
unfolding proceed
mythread async ch (running p) s =
    if s.requested && stops p s.asynchronous ch.acts
    then record s { pc = canceled p }
    else proceed async ch p s
mythread async ch (canceled p) s = s
mythread async ch returned s = s

-- Of a thread that has returned, pthread_cancel() may say that there is no such thread.
abbrev pub cancel_result : (reported : Bool) → Pc → State → State
cancel_result reported (running p) s = record s { requested = true; main_pc = join }
cancel_result reported (canceled p) s = record s { requested = true; main_pc = join }
cancel_result true returned s = record s { main_pc = ended 1 }
cancel_result false returned s = record s { requested = true; main_pc = join }

-- pthread_join(), and the comparison with PTHREAD_CANCELED.
abbrev pub joined : Pc → State → State
joined (running p) s = s
joined (canceled p) s = record s { main_pc = ended 0 }
joined returned s = record s { main_pc = ended 1 }

-- A step of `main`.
pub main_step : (reported : Bool) → MainPc → State → State
main_step reported wait s = record s { main_pc = cancel }
main_step reported cancel s = cancel_result reported s.pc s
main_step reported join s = joined s.pc s
main_step reported (ended status) s = s

pub data Event : Type 0 where
  thread_runs : (ch : Choice) → Event
  main_runs : (reported : Bool) → Event

pub step : (async : Bool) → Event → State → State
unfolding mythread main_step
step async (thread_runs ch) s = mythread async ch s.pc s
step async (main_runs reported) s = main_step reported s.main_pc s

abbrev pub dash_a : List ℕ
dash_a = 45 ∷ 97 ∷ []

-- The value of `async`, from the arguments behind the name of the program.
pub configure : List (List ℕ) → Bool
configure [] = false
configure (arg ∷ rest) = strcmp arg dash_a
