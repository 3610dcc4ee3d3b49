-- ===== src/Race/Plain.antt =====
-- race/race.c: the body of the loop with no lock.
pub mod Races
mod Tests
use unix_linux_prog_in_c_src.Base.{ℕ, ◌+◌, Bool, true, false, Option, none, some, if◌then◌else◌}
use unix_linux_prog_in_c_src.Race.{
  Who, parent, child, Bytes, Pc, loop, acquire, check, release, bump, reap, done, load0, Proc,
  forked, View, examine, head, count_loop, finish, is_done, mark,
}

-- What the process prints as it ends: the races and the loops that it counted.
pub record Local : Type 0 where
  pub mem : Bytes
  pub stats : Option (ℕ × ℕ)
  pub proc : Proc

abbrev exit : Local → Local
exit l = record l {
  stats = some (l.proc.races, l.proc.loops);
  proc = record (l.proc) { pc = done 0 };
}

-- A step of the loop of `main`, and of what stands behind it; no process is ever at `acquire` or
-- `release`. The flag says that the other process has ended, which the parent waits for.
pub advance : Who → Bool → Pc → Local → Local
unfolding examine
advance who other_done loop l = record l { proc = head (check load0) (l.proc) }
advance who other_done (check b) l =
    let w = examine (mark who) bump b (record { mem = l.mem; proc = l.proc }) in
    record l { mem = w.mem; proc = w.proc }
advance who other_done bump l = record l { proc = count_loop (l.proc) }
advance parent other_done reap l = if other_done then exit l else l
advance child other_done reap l = exit l
advance who other_done acquire l = l
advance who other_done release l = l
advance who other_done (done status) l = l

pub record State : Type 0 where
  pub mem : Bytes
  pub stats : Option (ℕ × ℕ)
  pub first : Proc  -- the parent
  pub second : Proc  -- the child

-- `main` after the fork.
pub start : State
start = record { mem = record { b0 = 0; b1 = 0 }; stats = none; first = forked; second = forked }

pub data Event : Type 0 where
  turn : Who → Event
  sigint : Who → Event

pub step : Event → State → State
unfolding advance
step (turn parent) s =
    let l =
      advance parent (is_done s.second.pc) s.first.pc
        (record { mem = s.mem; stats = s.stats; proc = s.first }) in
    record s { mem = l.mem; stats = l.stats; first = l.proc }
step (turn child) s =
    let l =
      advance child (is_done s.first.pc) s.second.pc
        (record { mem = s.mem; stats = s.stats; proc = s.second }) in
    record s { mem = l.mem; stats = l.stats; second = l.proc }
step (sigint parent) s = record s { first = finish s.first }
step (sigint child) s = record s { second = finish s.second }
