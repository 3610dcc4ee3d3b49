-- ===== src/FileLocking/Group.antt =====
-- The processes of fcntl-locking.c when some of them end: by SIGINT, whose handler calls _exit() (its
-- kill() has its arguments swapped and does nothing), or by err() where a lock or an open fails. The
-- system releases the record locks of a process that ends.
use unix_linux_prog_in_c_src.Base.{ℕ, Bool, true, false, Option, none, some, ◌==◌, if◌then◌else◌}
use unix_linux_prog_in_c_src.Base.Family.{put}
use unix_linux_prog_in_c_src.FileLocking.{
  Locking, State, start, Event, child_runs, parent_runs, step,
}

pub record Group : Type 0 where
  pub state : State
  pub child_gone : ℕ → Bool
  pub parent_gone : Bool

unfoldable pub group_start : Locking → Group
group_start locking = record { state = start locking; child_gone = λ i. false; parent_gone = false }

pub data GroupEvent : Type 0 where
  goes : (e : Event) → GroupEvent
  child_ends : (i : ℕ) → GroupEvent
  parent_ends : GroupEvent

-- Whether the process that an event is of has ended.
abbrev pub is_gone : Group → Event → Bool
is_gone g (child_runs i) = g.child_gone i
is_gone g parent_runs = g.parent_gone

abbrev pub released : ℕ → Option ℕ → Option ℕ
released i none = none
released i (some j) = if i == j then none else some j

-- The end of a child; `sigint_handler`, or err().
abbrev pub end_child : ℕ → Group → Group
end_child i g = record g {
  child_gone = put i true g.child_gone;
  state = record (g.state) { writer = released i g.state.writer };
}

abbrev pub end_parent : Group → Group
end_parent g = record g { parent_gone = true; state = record (g.state) { reading = false } }

unfoldable pub group_step : Locking → GroupEvent → Group → Group
group_step locking (goes e) g =
    if is_gone g e then g else record g { state = step locking e g.state }
group_step locking (child_ends i) g = end_child i g
group_step locking parent_ends g = end_parent g
