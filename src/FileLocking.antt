-- ===== src/FileLocking.antt =====
-- file-locking/fcntl-locking.c: five children write their characters into a file of 70 bytes, the
-- second half of it under a write lock, and the parent dumps the file under a read lock. A seek and
-- the write behind it are two steps; the offset belongs to the open file, which the children share
-- unless each of them has opened it (-L).
-- The calls succeed here, and no process is killed.
pub mod Halves
pub mod Uniform
pub mod Size
pub mod Options
pub mod Group
pub mod Holders
pub mod Ends
mod Tests
use unix_linux_prog_in_c_src.Base.{
  ℕ, zero, suc, ◌+◌, Bool, true, false, Option, none, some, ltb, ◌==◌, if◌then◌else◌,
}
use unix_linux_prog_in_c_src.Base.Family.{put}

abbrev pub file_len : ℕ
file_len = 70

abbrev pub nproc : ℕ
nproc = 5

-- FILE_LEN / 2
abbrev pub middle : ℕ
middle = 35

-- The characters of the children: / _ # + .
pub c : ℕ → ℕ
c i = if i == 0 then 47 else if i == 1 then 95 else if i == 2 then 35 else if i == 3 then 43 else 46

-- The character that marks the middle.
abbrev pub bar : ℕ
bar = 124

pub data Locking : Type 0 where
  no_lock shared_fd exclusive_fd : Locking

abbrev pub locks : Locking → Bool
locks no_lock = false
locks shared_fd = true
locks exclusive_fd = true

-- Which open file a child writes to.
abbrev pub open_file : Locking → ℕ → ℕ
open_file no_lock i = 0
open_file shared_fd i = 0
open_file exclusive_fd i = i

-- Where a child stands, with the value of its variable `j`.
pub data Pc : Type 0 where
  top : (j : ℕ) → Pc  -- the test for the middle
  lock_half : Pc
  mark_seek : Pc
  mark_write : Pc
  seek : (j : ℕ) → Pc  -- lseek, and ++j
  put_char : (j : ℕ) → Pc  -- write, and the test for the end
  unlock_half : Pc

-- Where the parent stands in dump_file.
pub data ParentPc : Type 0 where
  lockr dump unlockr : ParentPc

pub record State : Type 0 where
  pub file : ℕ → ℕ  -- 0 where nothing is written yet
  pub size : ℕ
  pub offset : ℕ → ℕ  -- of each open file
  pub writer : Option ℕ  -- the child that has the write lock
  pub reading : Bool  -- the parent has the read lock
  pub pc : ℕ → Pc
  pub parent_pc : ParentPc
  pub shown : ℕ → ℕ  -- the buffer of the parent

-- With -L the descriptor is closed when `main` extends the file, so nothing happens there. Otherwise
-- the arguments of lseek are swapped, so that it fails, and one byte is written at the start.
pub start : Locking → State
start locking = record {
  file = λ k. 0;
  size = elim locking [ no_lock ↦ 1 | shared_fd ↦ 1 | exclusive_fd ↦ 0 ];
  offset = λ k. elim locking [ no_lock ↦ 1 | shared_fd ↦ 1 | exclusive_fd ↦ 0 ];
  writer = none;
  reading = false;
  pc = λ i. top 0;
  parent_pc = lockr;
  shown = λ k. 0;
}

abbrev max_size : ℕ → ℕ → ℕ
max_size m n = if ltb m n then n else m

-- write of one byte: at the offset, which it moves.
abbrev write : (fd byte : ℕ) → State → State
write fd byte s = record s {
  file = put (s.offset fd) byte s.file;
  size = max_size s.size (s.offset fd + 1);
  offset = put fd (s.offset fd + 1) s.offset;
}

abbrev lseek : (fd at : ℕ) → State → State
lseek fd at s = record s { offset = put fd at s.offset }

abbrev go : ℕ → Pc → State → State
go i p s = record s { pc = put i p s.pc }

-- Whether no lock is held that excludes a write lock, and a read lock, on the second half.
abbrev pub can_write : (writer : Option ℕ) (reading : Bool) → Bool
can_write none false = true
can_write none true = false
can_write (some i) reading = false

abbrev pub can_read : (writer : Option ℕ) → Bool
can_read none = true
can_read (some i) = false

abbrev pub behind_top : Locking → ℕ → Pc
behind_top locking j =
    if j == middle then if locks locking then lock_half else mark_seek else seek j

abbrev pub behind_char : Locking → ℕ → Pc
behind_char locking j =
    if j == file_len then if locks locking then unlock_half else top 0 else top j

-- A step of the child `i`, which stands at the third argument.
pub advance : Locking → ℕ → Pc → State → State
advance locking i (top j) s = go i (behind_top locking j) s
advance locking i lock_half s =
    if can_write s.writer s.reading then go i mark_seek (record s { writer = some i }) else s
advance locking i mark_seek s = go i mark_write (lseek (open_file locking i) middle s)
advance locking i mark_write s = go i (seek (middle + 1)) (write (open_file locking i) bar s)
advance locking i (seek j) s = go i (put_char (j + 1)) (lseek (open_file locking i) j s)
advance locking i (put_char j) s =
    go i (behind_char locking j) (write (open_file locking i) (c i) s)
advance locking i unlock_half s = go i (top 0) (record s { writer = none })

-- A step of the parent in dump_file, which has opened the file for itself.
pub dump_file : Locking → ParentPc → State → State
dump_file locking lockr s =
    if locks locking
    then if can_read s.writer then record s { reading = true; parent_pc = dump } else s
    else record s { parent_pc = dump }
dump_file locking dump s = record s { shown = s.file; parent_pc = unlockr }
dump_file locking unlockr s = record s { reading = false; parent_pc = lockr }

pub data Event : Type 0 where
  child_runs : (i : ℕ) → Event
  parent_runs : Event

pub step : Locking → Event → State → State
unfolding advance dump_file
step locking (child_runs i) s = if ltb i nproc then advance locking i (s.pc i) s else s
step locking parent_runs s = dump_file locking s.parent_pc s
