-- ===== src/Waiting.antt =====
-- wait/wait.c: the parent reports what becomes of its child, a sleep that anybody may stop, continue or
-- kill, until the child is gone. The system keeps only the last change for the parent.
pub mod Reports
mod Tests
use unix_linux_prog_in_c_src.Base.{ℕ, Bool, true, false, Option, none, some, List, [], ◌∷◌}

-- What the macros tell of a status, which is what the parent prints.
pub data Report : Type 0 where
  exited : (code : ℕ) → Report
  signaled : (sig : ℕ) → Report
  was_stopped : Report
  was_continued : Report

pub data Child : Type 0 where
  running : Child
  stopped : Child
  gone : (how : Report) → Child

pub data ParentPc : Type 0 where
  waiting ended : ParentPc

pub record State : Type 0 where
  pub child : Child
  pub change : Option Report  -- not collected yet
  pub parent_pc : ParentPc
  pub printed : List Report  -- the latest first

pub start : State
start = record { child = running; change = none; parent_pc = waiting; printed = [] }

-- What happens to the child; `runs_out` is its end, with a code.
pub data Event : Type 0 where
  parent_runs : Event
  stop : Event
  continue : Event
  kill : (sig : ℕ) → Event
  runs_out : (code : ℕ) → Event

abbrev pub becomes : Child → Report → State → State
becomes c r s = record s { child = c; change = some r }

pub stop_child : Child → State → State
stop_child running s = becomes stopped was_stopped s
stop_child stopped s = s
stop_child (gone how) s = s

pub continue_child : Child → State → State
continue_child running s = s
continue_child stopped s = becomes running was_continued s
continue_child (gone how) s = s

pub kill_child : ℕ → Child → State → State
kill_child sig running s = becomes (gone (signaled sig)) (signaled sig) s
kill_child sig stopped s = becomes (gone (signaled sig)) (signaled sig) s
kill_child sig (gone how) s = s

-- A stopped child does not run out.
pub end_child : ℕ → Child → State → State
end_child code running s = becomes (gone (exited code)) (exited code) s
end_child code stopped s = s
end_child code (gone how) s = s

-- Whether the loop ends.
abbrev pub is_final : Report → Bool
is_final (exited code) = true
is_final (signaled sig) = true
is_final was_stopped = false
is_final was_continued = false

abbrev pub behind : Bool → ParentPc
behind true = ended
behind false = waiting

-- waitpid() blocks as long as nothing has changed; else a round of the loop.
abbrev pub collect : Option Report → State → State
collect none s = s
collect (some r) s = record s {
  change = none;
  printed = r ∷ s.printed;
  parent_pc = behind (is_final r);
}

pub parent_step : ParentPc → State → State
parent_step waiting s = collect s.change s
parent_step ended s = s

pub step : Event → State → State
unfolding stop_child continue_child kill_child end_child parent_step
step parent_runs s = parent_step s.parent_pc s
step stop s = stop_child s.child s
step continue s = continue_child s.child s
step (kill sig) s = kill_child sig s.child s
step (runs_out code) s = end_child code s.child s
