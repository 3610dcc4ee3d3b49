-- ===== src/Race/PosixSem.antt =====
-- race/posix-sem-fixed-race.c: the body of the loop between sem_wait and sem_post on the named
-- semaphore "/mysem". sem_open with O_CREAT makes a semaphore at 1 only where there is none of the
-- name; else it opens the one that is there, at its value. A sem_wait that is blocked can be
-- interrupted by a signal, and then returns with nothing taken; the program does not look at what
-- sem_wait returns. sem_unlink removes the name, not the semaphore that is in use.
pub mod Uninterrupted
pub mod Interrupted
mod Tests
use unix_linux_prog_in_c_src.Base.{
  ℕ, zero, suc, ◌+◌, Bool, true, false, Option, none, some, if◌then◌else◌,
}
use unix_linux_prog_in_c_src.Race.{
  Who, parent, child, Bytes, Pc, loop, acquire, check, release, bump, reap, done, load0, Proc,
  forked, examine, head, count_loop, finish, is_done, mark,
}

pub record Shared : Type 0 where
  pub mem : Bytes
  pub sem : ℕ
  pub unlinked : Bool
  pub stats : Option (ℕ × ℕ)

pub record Local : Type 0 where
  pub shared : Shared
  pub proc : Proc

abbrev print_stats : Local → Local
print_stats l = record l {
  shared = record (l.shared) { stats = some (l.proc.races, l.proc.loops) };
}

-- The parent removes the name of the semaphore.
abbrev cleanup : Who → Local → Local
cleanup parent l = record l { shared = record (l.shared) { unlinked = true } }
cleanup child l = l

abbrev exit : ℕ → Local → Local
exit status l = record l { proc = record (l.proc) { pc = done status } }

-- A sem_wait that is not interrupted.
sem_wait : Local → Local
sem_wait l = elim (l.shared.sem) [
  | zero ↦ l
  | suc n ↦ record {
    shared = record (l.shared) { sem = n };
    proc = record (l.proc) { pc = check load0 };
  }
]

sem_post : Local → Local
sem_post l = record {
  shared = record (l.shared) { sem = l.shared.sem + 1 };
  proc = record (l.proc) { pc = bump };
}

-- A step of the loop of the child or the parent, and of what stands behind it. The flag says that
-- the other process has ended, which the parent waits for.
pub advance : Who → Bool → Pc → Local → Local
unfolding examine sem_wait sem_post
advance who other_done loop l = record l { proc = head acquire (l.proc) }
advance who other_done acquire l = sem_wait l
advance who other_done (check b) l =
    let w = examine (mark who) release b (record { mem = l.shared.mem; proc = l.proc }) in
    record { shared = record (l.shared) { mem = w.mem }; proc = w.proc }
advance who other_done release l = sem_post l
advance who other_done bump l = record l { proc = count_loop (l.proc) }
advance parent other_done reap l = if other_done then exit 0 (cleanup parent (print_stats l)) else l
advance child other_done reap l = exit 0 (cleanup child (print_stats l))
advance who other_done (done status) l = l

-- The status of a process whose assertion failed.
abbrev aborted : ℕ
aborted = 134

-- A signal that interrupts a blocked call: sem_wait returns, and the body of the loop runs; waitpid
-- returns -1, and the assertion behind it fails.
pub interrupt : Who → Bool → Pc → Local → Local
interrupt who other_done acquire l = elim (l.shared.sem) [
  | zero ↦ record l { proc = record (l.proc) { pc = check load0 } }
  | suc n ↦ l
]
interrupt parent other_done reap l = if other_done then l else exit aborted l
interrupt child other_done reap l = l
interrupt who other_done loop l = l
interrupt who other_done (check b) l = l
interrupt who other_done release l = l
interrupt who other_done bump l = l
interrupt who other_done (done status) l = l

pub record State : Type 0 where
  pub shared : Shared
  pub first : Proc  -- the parent
  pub second : Proc  -- the child

-- `main` after the fork; `existing` is the value of a semaphore that was there before.
pub start : Option ℕ → State
start existing = record {
  shared = record {
    mem = record { b0 = 0; b1 = 0 };
    sem = elim existing [ none ↦ 1 | some v ↦ v ];
    unlinked = false;
    stats = none;
  };
  first = forked;
  second = forked;
}

pub data Event : Type 0 where
  turn : Who → Event
  sigint : Who → Event  -- the handler of SIGINT runs; ...
  interrupted : Who → Event  -- ... and it has interrupted a blocked call

pub step : Event → State → State
unfolding advance interrupt
step (turn parent) s =
    let l =
      advance parent (is_done s.second.pc) s.first.pc
        (record { shared = s.shared; proc = s.first }) in
    record s { shared = l.shared; first = l.proc }
step (turn child) s =
    let l =
      advance child (is_done s.first.pc) s.second.pc
        (record { shared = s.shared; proc = s.second }) in
    record s { shared = l.shared; second = l.proc }
step (sigint parent) s = record s { first = finish s.first }
step (sigint child) s = record s { second = finish s.second }
step (interrupted parent) s =
    let l =
      interrupt parent (is_done s.second.pc) s.first.pc
        (record { shared = s.shared; proc = finish s.first }) in
    record s { shared = l.shared; first = l.proc }
step (interrupted child) s =
    let l =
      interrupt child (is_done s.first.pc) s.second.pc
        (record { shared = s.shared; proc = finish s.second }) in
    record s { shared = l.shared; second = l.proc }
