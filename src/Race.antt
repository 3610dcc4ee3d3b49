-- ===== src/Race.antt =====
-- race/: two processes share two bytes of memory. Each compares the bytes, counts a race if they
-- differ, and writes its mark into both; race.c does so with no lock, the other programs under one.
-- This file has what the four programs have in common: the state of a process, and the body of the
-- loop, one access to the shared memory at a time, in the order of the source (`addr[1]` is
-- assigned before `addr[0]`). The diagnostic output of the body changes nothing and is left out.
pub mod Inside
pub mod Plain
pub mod SysvSem
pub mod PosixSem
pub mod Fcntl
use unix_linux_prog_in_c_src.Base.{ℕ, ◌+◌, ◌%◌, ◌^◌, Bool, true, false, ◌==◌, if◌then◌else◌}

pub data Who : Type 0 where
  parent child : Who

-- The two bytes of test.dat that both processes map.
pub record Bytes : Type 0 where
  pub b0 : ℕ
  pub b1 : ℕ

-- Where a process stands in the body: before the load of addr[0], with `v` loaded before the load
-- of addr[1], before the count, and before the store to addr[1] and to addr[0].
pub data Body : Type 0 where
  load0 : Body
  load1 : (v : ℕ) → Body
  tally : Body
  store1 : Body
  store0 : Body

pub data Pc : Type 0 where
  loop : Pc  -- the test of `run`
  acquire : Pc  -- the call that takes the lock
  check : Body → Pc
  release : Pc  -- the call that gives the lock back
  bump : Pc  -- ++i
  reap : Pc  -- behind the loop: the parent waits for the child
  done : (status : ℕ) → Pc

-- The private variables of a process.
pub record Proc : Type 0 where
  pub pc : Pc
  pub running : Bool
  pub loops : ℕ  -- unsigned long
  pub races : ℕ  -- unsigned int

abbrev pub forked : Proc
forked = record { pc = loop; running = true; loops = 0; races = 0 }

-- The value that a process writes.
abbrev pub mark : Who → ℕ
mark parent = 1
mark child = 2

-- What a step of a process can change but for a lock.
pub record View : Type 0 where
  pub mem : Bytes
  pub proc : Proc

-- A step of the body by the process with the mark `mark`; `next` is what stands behind the body.
unfoldable pub examine : ℕ → Pc → Body → View → View
examine mark next load0 w = record w { proc = record (w.proc) { pc = check (load1 w.mem.b0) } }
examine mark next (load1 v) w = record w {
  proc = record (w.proc) { pc = if v == w.mem.b1 then check store1 else check tally };
}
examine mark next tally w = record w {
  proc = record (w.proc) { pc = check store1; races = (w.proc.races + 1) % 2 ^ 32 };
}
examine mark next store1 w = record {
  mem = record (w.mem) { b1 = mark };
  proc = record (w.proc) { pc = check store0 };
}
examine mark next store0 w = record {
  mem = record (w.mem) { b0 = mark };
  proc = record (w.proc) { pc = next };
}

-- `while (run)`: `first` is the first step of the loop's body.
abbrev pub head : Pc → Proc → Proc
head first p = record p { pc = if p.running then first else reap }

-- `++i`
abbrev pub count_loop : Proc → Proc
count_loop p = record p { pc = loop; loops = (p.loops + 1) % 2 ^ 64 }

-- The handler of SIGINT.
abbrev pub finish : Proc → Proc
finish p = record p { running = false }

abbrev pub is_done : Pc → Bool
is_done loop = false
is_done acquire = false
is_done (check b) = false
is_done release = false
is_done bump = false
is_done reap = false
is_done (done status) = true
