-- ===== src/Race/SysvSem.antt =====
-- race/sem-fixed-race.c: the body of the loop under a System V semaphore. semop(2) takes one from a
-- semaphore that is not 0, and blocks at 0; it fails at a removed semaphore, and the environment
-- may make any call fail (a signal, say). A failed call ends the process.
pub mod NoRace
pub mod Progress
mod Tests
use unix_linux_prog_in_c_src.Base.{
  ℕ, zero, suc, ◌+◌, Bool, true, false, Option, none, some, if◌then◌else◌,
}
use unix_linux_prog_in_c_src.Race.{
  Who, parent, child, Bytes, Body, Pc, loop, acquire, check, release, bump, reap, done, load0, Proc,
  forked, View, examine, head, count_loop, finish, is_done, mark,
}

pub data Dir : Type 0 where
  up down : Dir

-- The semaphore, and what the process prints as it ends: the races and the loops that it counted.
pub record Shared : Type 0 where
  pub mem : Bytes
  pub sem : ℕ
  pub removed : Bool
  pub stats : Option (ℕ × ℕ)

pub record Local : Type 0 where
  pub shared : Shared
  pub proc : Proc

abbrev print_stats : Local → Local
print_stats l = record l {
  shared = record (l.shared) { stats = some (l.proc.races, l.proc.loops) };
}

-- The parent removes the semaphore.
abbrev cleanup : Who → Local → Local
cleanup parent l = record l { shared = record (l.shared) { removed = true } }
cleanup child l = l

abbrev exit : ℕ → Local → Local
exit status l = record l { proc = record (l.proc) { pc = done status } }

-- semop failed; the flag says that errno is EINTR.
abbrev fail : Who → Bool → Local → Local
fail who eintr l = exit 1 (cleanup who (if eintr then print_stats l else l))

-- `up_down` where semop does not fail by the will of the environment: `next` is what follows.
up_down : Who → Dir → Pc → Local → Local
up_down who up next l = if l.shared.removed then fail who false l else record {
  shared = record (l.shared) { sem = l.shared.sem + 1 };
  proc = record (l.proc) { pc = next };
}
up_down who down next l = if l.shared.removed then fail who false l else elim (l.shared.sem) [
  | zero ↦ l
  | suc n ↦ record { shared = record (l.shared) { sem = n }; proc = record (l.proc) { pc = next } }
]

-- A step of the loop of `main`, and of what stands behind it. The flag says that the other process
-- has ended, which the parent waits for.
pub advance : Who → Bool → Pc → Local → Local
unfolding examine up_down
advance who other_done loop l = record l { proc = head acquire (l.proc) }
advance who other_done acquire l = up_down who down (check load0) l
advance who other_done (check b) l =
    let w = examine (mark who) release b (record { mem = l.shared.mem; proc = l.proc }) in
    record { shared = record (l.shared) { mem = w.mem }; proc = w.proc }
advance who other_done release l = up_down who up bump l
advance who other_done bump l = record l { proc = count_loop (l.proc) }
advance parent other_done reap l = if other_done then exit 0 (cleanup parent (print_stats l)) else l
advance child other_done reap l = exit 0 (cleanup child (print_stats l))
advance who other_done (done status) l = l

-- A call of semop that fails by the will of the environment.
pub refuse : Who → Bool → Pc → Local → Local
refuse who eintr acquire l = fail who eintr l
refuse who eintr release l = fail who eintr l
refuse who eintr loop l = l
refuse who eintr (check b) l = l
refuse who eintr bump l = l
refuse who eintr reap l = l
refuse who eintr (done status) l = l

pub record State : Type 0 where
  pub shared : Shared
  pub first : Proc  -- the parent
  pub second : Proc  -- the child

-- `main` after the fork: the semaphore is set to 1 and the bytes are 0.
pub start : State
start = record {
  shared = record { mem = record { b0 = 0; b1 = 0 }; sem = 1; removed = false; stats = none };
  first = forked;
  second = forked;
}

pub data Event : Type 0 where
  turn : Who → Event
  refused : Who → Bool → Event
  sigint : Who → Event

pub step : Event → State → State
unfolding advance refuse
step (turn parent) s =
    let l =
      advance parent (is_done s.second.pc) s.first.pc
        (record { shared = s.shared; proc = s.first }) in
    record s { shared = l.shared; first = l.proc }
step (turn child) s =
    let l =
      advance child (is_done s.first.pc) s.second.pc
        (record { shared = s.shared; proc = s.second }) in
    record s { shared = l.shared; second = l.proc }
step (refused parent eintr) s =
    let l = refuse parent eintr s.first.pc (record { shared = s.shared; proc = s.first }) in
    record s { shared = l.shared; first = l.proc }
step (refused child eintr) s =
    let l = refuse child eintr s.second.pc (record { shared = s.shared; proc = s.second }) in
    record s { shared = l.shared; second = l.proc }
step (sigint parent) s = record s { first = finish s.first }
step (sigint child) s = record s { second = finish s.second }
