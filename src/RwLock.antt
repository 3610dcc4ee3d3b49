-- ===== src/RwLock.antt =====
-- pthreads/pthread-rwlock.c: an array of properties behind a read-write lock, with 32 threads: every
-- fourth one writes once, the others read a hundred times.
pub mod Invariant
pub mod Steps
pub mod Values
pub mod Progress
mod Tests
use unix_linux_prog_in_c_src.Base.{
  ℕ, zero, suc, ◌+◌, ◌-◌, ◌%◌, Bool, true, false, Option, none, some, List, [], ◌∷◌, ltb, ◌==◌,
  if◌then◌else◌,
}
use unix_linux_prog_in_c_src.Base.Family.{put}

abbrev pub max_props : ℕ
max_props = 64

abbrev pub max_iter : ℕ
max_iter = 100

abbrev pub numthreads : ℕ
numthreads = 32

-- Where a thread stands; `left` counts the rounds of a reader that are left behind this one.
pub data Pc : Type 0 where
  choose : Pc  -- writer_thread takes its random index
  set_lock : (idx : ℕ) → Pc
  set : (idx : ℕ) → Pc
  set_unlock : Pc
  top : (left : ℕ) → Pc  -- the loop of reader_thread
  get_lock : (left idx : ℕ) → Pc
  get : (left idx : ℕ) → Pc
  get_unlock : (left idx : ℕ) (val : Option ℕ) → Pc
  show : (left idx : ℕ) (val : Option ℕ) → Pc
  finished : Pc

pub record State : Type 0 where
  pub properties : ℕ → Option ℕ  -- `some i` is the pointer `vals + i`
  pub writer : Option ℕ  -- who has the lock for writing
  pub readers : ℕ  -- how many have it for reading
  pub pc : ℕ → Pc
  pub output : List (ℕ × Option ℕ)  -- what readers have printed, the last first
  pub exited : Bool

abbrev pub is_writer : ℕ → Bool
is_writer i = i % 4 == 0

pub start : State
start = record {
  properties = λ idx. none;
  writer = none;
  readers = 0;
  pc = λ i. if is_writer i then choose else top max_iter;
  output = [];
  exited = false;
}

abbrev pub go : ℕ → Pc → State → State
go i p s = record s { pc = put i p s.pc }

abbrev pub can_write : Option ℕ → ℕ → Bool
can_write none readers = readers == 0
can_write (some i) readers = false

abbrev pub can_read : Option ℕ → Bool
can_read none = true
can_read (some i) = false

-- A step of the thread `i`, which stands at the last argument but one; `r` is what random() returns.
pub advance : (i r : ℕ) → Pc → State → State
advance i r choose s = go i (set_lock (r % max_props)) s
advance i r (set_lock idx) s =
    if can_write s.writer s.readers then go i (set idx) (record s { writer = some i }) else s
advance i r (set idx) s = go i set_unlock (record s { properties = put idx (some i) s.properties })
advance i r set_unlock s = go i finished (record s { writer = none })
advance i r (top zero) s = go i finished s
advance i r (top (suc left)) s = go i (get_lock left (r % max_props)) s
advance i r (get_lock left idx) s =
    if can_read s.writer then go i (get left idx) (record s { readers = s.readers + 1 }) else s
advance i r (get left idx) s = go i (get_unlock left idx (s.properties idx)) s
advance i r (get_unlock left idx val) s =
    go i (show left idx val) (record s { readers = s.readers - 1 })
advance i r (show left idx val) s = go i (top left) (record s { output = (idx, val) ∷ s.output })
advance i r finished s = s

-- A call for the lock fails, which ends the program.
pub refuse : Pc → State → State
refuse (set_lock idx) s = record s { exited = true }
refuse (get_lock left idx) s = record s { exited = true }
refuse choose s = s
refuse (set idx) s = s
refuse set_unlock s = s
refuse (top left) s = s
refuse (get left idx) s = s
refuse (get_unlock left idx val) s = s
refuse (show left idx val) s = s
refuse finished s = s

pub data Event : Type 0 where
  runs : (i r : ℕ) → Event
  fails : (i : ℕ) → Event

pub step : Event → State → State
unfolding advance refuse
step (runs i r) s = if s.exited then s else if ltb i numthreads then advance i r (s.pc i) s else s
step (fails i) s = if s.exited then s else if ltb i numthreads then refuse (s.pc i) s else s
