-- ===== src/TalkingHeads.antt =====
-- semaphores/talking-heads.c: children that share a semaphore talk while they hold it; the parent
-- waits for all of them. A blocked sem_wait or wait can be interrupted by SIGINT, whose handler does
-- not restart calls; the program does not look at what they return. The numbers that atoi returns are
-- taken not to be negative.
pub mod Talk
pub mod Limit
pub mod Parent
mod Tests
use unix_linux_prog_in_c_src.Base.{
  ℕ, zero, suc, ◌+◌, ◌-◌, ◌%◌, Bool, true, false, Option, none, some, List, [], ◌∷◌, ◌++◌, ltb,
  ◌==◌, if◌then◌else◌, ◌&&◌,
}
use unix_linux_prog_in_c_src.Base.Family.{put}

abbrev pub max_secs : ℕ
max_secs = 7

-- What a child prints each second: its number, in parentheses if it is the last time.
pub data Word : Type 0 where
  said : (id : ℕ) → Word
  last_said : (id : ℕ) → Word

-- How long a child talks, at a value `r` of rand().
pub seconds : ℕ → ℕ
seconds r = r % (max_secs - 1) + 1

-- The word of a second, with so many seconds left behind it.
abbrev pub word : ℕ → ℕ → Word
word id zero = last_said id
word id (suc left) = said id

-- The loop of `talk`, with the rounds left.
pub talk_loop : ℕ → ℕ → List Word
talk_loop id zero = []
talk_loop id (suc left) = word id left ∷ talk_loop id left

pub talk : ℕ → ℕ → List Word
unfolding seconds talk_loop
talk id r = talk_loop id (seconds r)

-- The checks of `main`: `none` is an exit with status 1.
pub configure : (argc nproc sinit : ℕ) → Option (ℕ × ℕ)
configure argc nproc sinit =
    if argc == 3
    then (if ltb 10 nproc then none else if ltb nproc sinit then none else some (nproc, sinit))
    else none

-- Where a child stands.
pub data Pc : Type 0 where
  head : Pc  -- the test of `run`
  acquire : Pc  -- sem_wait
  talking : (left : ℕ) → Pc  -- in the loop of `talk`
  release : Pc  -- sem_post, and the sleep behind it
  done : Pc

pub record State : Type 0 where
  pub sem : ℕ
  pub running : ℕ → Bool
  pub pc : ℕ → Pc
  pub output : List Word  -- the last word first
  pub ended : ℕ  -- children that have ended
  pub reaped : ℕ  -- children that the parent has waited for
  pub waits : ℕ  -- rounds left in the last loop of the parent
  pub unlinked : Bool  -- the parent has removed the semaphore and ended

-- `main` after its loop over fork.
pub start : (nproc sinit : ℕ) → State
start nproc sinit = record {
  sem = sinit;
  running = λ i. true;
  pc = λ i. head;
  output = [];
  ended = 0;
  reaped = 0;
  waits = nproc;
  unlinked = false;
}

-- A step of the child with the number `i`, which stands at the third argument; `r` is what rand()
-- returns.
pub advance : ℕ → ℕ → Pc → State → State
unfolding seconds
advance i r head s =
    if s.running i
    then record s { pc = put i acquire s.pc }
    else record s { pc = put i done s.pc; ended = s.ended + 1 }
advance i r acquire s = elim (s.sem) [
  | zero ↦ s
  | suc n ↦ record s { sem = n; pc = put i (talking (seconds r)) s.pc }
]
advance i r (talking zero) s = record s { pc = put i release s.pc }
advance i r (talking (suc left)) s = record s {
  output = word (i + 1) left ∷ s.output;
  pc = put i (talking left) s.pc;
}
advance i r release s = record s { sem = s.sem + 1; pc = put i head s.pc }
advance i r done s = s

-- sem_wait returns with nothing taken, because a signal has come while it was blocked.
pub interrupt : ℕ → ℕ → Pc → State → State
unfolding seconds
interrupt i r acquire s = elim (s.sem) [
  | zero ↦ record s { running = put i false s.running; pc = put i (talking (seconds r)) s.pc }
  | suc n ↦ s
]
interrupt i r head s = s
interrupt i r (talking left) s = s
interrupt i r release s = s
interrupt i r done s = s

-- A round of the last loop of the parent: a child that has ended is waited for, or, where the flag
-- says so, the blocked call is interrupted. Behind the loop the parent cleans up.
pub parent : Bool → ℕ → State → State
parent interrupted zero s = record s { unlinked = true }
parent interrupted (suc waits) s =
    if ltb s.reaped s.ended
    then record s { waits = waits; reaped = s.reaped + 1 }
    else if interrupted
    then record s { waits = waits }
    else s

pub data Event : Type 0 where
  child_runs : (i r : ℕ) → Event
  sigint : (i : ℕ) → Event
  child_interrupted : (i r : ℕ) → Event
  parent_runs : Event
  parent_interrupted : Event

-- The children have the numbers below `nproc` here; they print them plus one.
pub step : (nproc : ℕ) → Event → State → State
unfolding advance interrupt parent
step nproc (child_runs i r) s = if ltb i nproc then advance i r (s.pc i) s else s
step nproc (sigint i) s = record s { running = put i false s.running }
step nproc (child_interrupted i r) s = if ltb i nproc then interrupt i r (s.pc i) s else s
step nproc parent_runs s = parent false s.waits s
step nproc parent_interrupted s = parent true s.waits s
