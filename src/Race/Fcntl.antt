-- ===== src/Race/Fcntl.antt =====
-- race/fcntl-fixed-race.c: the body of the loop under a write lock on the file. A call of fcntl(2)
-- with F_SETLKW takes the lock if the other process does not hold it, and blocks if it does;
-- F_UNLCK never blocks. The environment may make any call fail; a failed call ends the process,
-- and a process that ends, or closes the file, loses the lock.
pub mod NoRace
pub mod Progress
mod Tests
use unix_linux_prog_in_c_src.Base.{ℕ, Bool, true, false, Option, none, some, if◌then◌else◌}
use unix_linux_prog_in_c_src.Race.{
  Who, parent, child, Bytes, Pc, loop, acquire, check, release, bump, reap, done, load0, Proc,
  forked, examine, head, count_loop, finish, is_done, mark,
}

-- `l_type`, as lock_unlock sets it for its argument -1 or 1.
pub data LockType : Type 0 where
  f_wrlck f_unlck : LockType

pub record Shared : Type 0 where
  pub mem : Bytes
  pub owner : Option Who
  pub stats : Option (ℕ × ℕ)

pub record Local : Type 0 where
  pub shared : Shared
  pub proc : Proc

abbrev owned_by_parent : Option Who → Bool
owned_by_parent none = false
owned_by_parent (some parent) = true
owned_by_parent (some child) = false

abbrev owned_by_child : Option Who → Bool
owned_by_child none = false
owned_by_child (some parent) = false
owned_by_child (some child) = true

abbrev pub owned_by : Who → Option Who → Bool
owned_by parent o = owned_by_parent o
owned_by child o = owned_by_child o

abbrev pub other_of : Who → Who
other_of parent = child
other_of child = parent

-- What is left of the lock when a process gives up its own.
abbrev drop_lock : Who → Option Who → Option Who
drop_lock who o = if owned_by who o then none else o

abbrev print_stats : Local → Local
print_stats l = record l {
  shared = record (l.shared) { stats = some (l.proc.races, l.proc.loops) };
}

abbrev exit : Who → ℕ → Local → Local
exit who status l = record {
  shared = record (l.shared) { owner = drop_lock who l.shared.owner };
  proc = record (l.proc) { pc = done status };
}

-- `lock_unlock` where fcntl does not fail: `next` is what follows.
lock_unlock : Who → LockType → Pc → Local → Local
lock_unlock who f_wrlck next l = if owned_by (other_of who) l.shared.owner then l else record {
  shared = record (l.shared) { owner = some who };
  proc = record (l.proc) { pc = next };
}
lock_unlock who f_unlck next l = record {
  shared = record (l.shared) { owner = drop_lock who l.shared.owner };
  proc = record (l.proc) { pc = next };
}

-- A step of the loop of `main`, and of what stands behind it. The flag says that the other process
-- has ended, which the parent waits for.
pub advance : Who → Bool → Pc → Local → Local
unfolding examine lock_unlock
advance who other_done loop l = record l { proc = head acquire (l.proc) }
advance who other_done acquire l = lock_unlock who f_wrlck (check load0) l
advance who other_done (check b) l =
    let w = examine (mark who) release b (record { mem = l.shared.mem; proc = l.proc }) in
    record { shared = record (l.shared) { mem = w.mem }; proc = w.proc }
advance who other_done release l = lock_unlock who f_unlck bump l
advance who other_done bump l = record l { proc = count_loop (l.proc) }
advance parent other_done reap l = if other_done then exit parent 0 (print_stats l) else l
advance child other_done reap l = exit child 0 (print_stats l)
advance who other_done (done status) l = l

-- A call of fcntl that fails; the flag says that errno is EINTR.
pub refuse : Who → Bool → Pc → Local → Local
refuse who eintr acquire l = exit who 1 (if eintr then print_stats l else l)
refuse who eintr release l = exit who 1 (if eintr then print_stats l else l)
refuse who eintr loop l = l
refuse who eintr (check b) l = l
refuse who eintr bump l = l
refuse who eintr reap l = l
refuse who eintr (done status) l = l

pub record State : Type 0 where
  pub shared : Shared
  pub first : Proc  -- the parent
  pub second : Proc  -- the child

-- `main` after the fork.
pub start : State
start = record {
  shared = record { mem = record { b0 = 0; b1 = 0 }; owner = none; stats = none };
  first = forked;
  second = forked;
}

pub data Event : Type 0 where
  turn : Who → Event
  refused : Who → Bool → Event
  sigint : Who → Event

pub step : Event → State → State
unfolding advance refuse
step (turn parent) s =
    let l =
      advance parent (is_done s.second.pc) s.first.pc
        (record { shared = s.shared; proc = s.first }) in
    record s { shared = l.shared; first = l.proc }
step (turn child) s =
    let l =
      advance child (is_done s.first.pc) s.second.pc
        (record { shared = s.shared; proc = s.second }) in
    record s { shared = l.shared; second = l.proc }
step (refused parent eintr) s =
    let l = refuse parent eintr s.first.pc (record { shared = s.shared; proc = s.first }) in
    record s { shared = l.shared; first = l.proc }
step (refused child eintr) s =
    let l = refuse child eintr s.second.pc (record { shared = s.shared; proc = s.second }) in
    record s { shared = l.shared; second = l.proc }
step (sigint parent) s = record s { first = finish s.first }
step (sigint child) s = record s { second = finish s.second }
