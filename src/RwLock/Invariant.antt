-- ===== src/RwLock/Invariant.antt =====
-- What the threads of pthread-rwlock.c keep.
use unix_linux_prog_in_c_src.Base.{
  ℕ, ◌%◌, ◌<◌, ◌≡◌, ◌≢◌, ◌⊎◌, inl, inr, refl, arith, Bool, true, false, Option, none, some, List,
  [], ◌∷◌, ◌==◌,
}
use unix_linux_prog_in_c_src.Base.Family.{put, put-all, weigh, le-weigh}
use unix_linux_prog_in_c_src.RwLock.{
  Pc, choose, set_lock, set, set_unlock, top, get_lock, get, get_unlock, show, finished, State,
  can_write, can_read,
}

-- The thread has the lock for reading.
abbrev pub reads : Pc → ℕ
reads (get left idx) = 1
reads (get_unlock left idx val) = 1
reads choose = 0
reads (set_lock idx) = 0
reads (set idx) = 0
reads set_unlock = 0
reads (top left) = 0
reads (get_lock left idx) = 0
reads (show left idx val) = 0
reads finished = 0

-- It has the lock for writing.
abbrev pub writes : Pc → Bool
writes (set idx) = true
writes set_unlock = true
writes choose = false
writes (set_lock idx) = false
writes (top left) = false
writes (get_lock left idx) = false
writes (get left idx) = false
writes (get_unlock left idx val) = false
writes (show left idx val) = false
writes finished = false

abbrev pub holds : ℕ → Option ℕ → Bool
holds i none = false
holds i (some j) = i == j

-- A value is null or the pointer of a writer.
abbrev pub Written : Option ℕ → Type 0
Written none = Unit
Written (some i) = (i < 32) × (i % 4 ≡ 0)

-- What a thread has read before it gives up the lock is still there.
abbrev pub Current : (ℕ → Option ℕ) → Pc → Type 0
Current f (get_unlock left idx val) = f idx ≡ val
Current f (show left idx val) = Written val
Current f (set_lock idx) = Unit
Current f (set idx) = Unit
Current f set_unlock = Unit
Current f choose = Unit
Current f (top left) = Unit
Current f (get_lock left idx) = Unit
Current f (get left idx) = Unit
Current f finished = Unit

-- Writers are the threads that main has made so.
abbrev pub Role : ℕ → Pc → Type 0
Role i choose = i % 4 ≡ 0
Role i (set_lock idx) = i % 4 ≡ 0
Role i (set idx) = i % 4 ≡ 0
Role i set_unlock = i % 4 ≡ 0
Role i (top left) = Unit
Role i (get_lock left idx) = Unit
Role i (get left idx) = Unit
Role i (get_unlock left idx val) = Unit
Role i (show left idx val) = Unit
Role i finished = Unit

abbrev pub Fits : (ℕ → Option ℕ) → Option ℕ → ℕ → Pc → Type 0
Fits f w i p = (writes p ≡ holds i w) × Current f p × Role i p

abbrev pub AllWritten : List (ℕ × Option ℕ) → Type 0
AllWritten [] = Unit
AllWritten (o ∷ os) = Written o.1 × AllWritten os

abbrev pub Held : Option ℕ → Type 0
Held none = Unit
Held (some i) = i < 32

pub record Inv (s : State) : Type 0 where
  pub counted : weigh reads s.pc 32 ≡ s.readers
  pub fits : (i : ℕ) → i < 32 → Fits s.properties s.writer i (s.pc i)
  pub alone : (s.writer ≡ none) ⊎ (s.readers ≡ 0)
  pub written : (idx : ℕ) → Written (s.properties idx)
  pub printed : AllWritten s.output
  pub holder : Held s.writer

-- One thread has moved.
pub Fits-but :
    (pc : ℕ → Pc) (f : ℕ → Option ℕ) (w : Option ℕ) (i : ℕ) (p : Pc)
    → Fits f w i p
    → ((j : ℕ) → j < 32 → j ≢ i → Fits f w j (pc j))
    → (j : ℕ) → j < 32
    → Fits f w j (put i p pc j)
Fits-but pc f w i p own others = put-all (Fits f w) 32 pc i p own others

pub unlocked-write : (w : Option ℕ) (n : ℕ) → can_write w n ≡ true → (w ≡ none) × (n ≡ 0)
unlocked-write none n h = (refl, ground (arith, h))
unlocked-write (some i) n h = ground (arith, h)

pub unlocked-read : (w : Option ℕ) → can_read w ≡ true → w ≡ none
unlocked-read none h = refl
unlocked-read (some i) h = ground (arith, h)

pub Current-any : (f g : ℕ → Option ℕ) (p : Pc) → reads p ≡ 0 → Current f p → Current g p
Current-any f g (get_unlock left idx val) h c = absurd (omega (arith, h))
Current-any f g (show left idx val) h c = c
Current-any f g choose h c = c
Current-any f g (set_lock idx) h c = c
Current-any f g (set idx) h c = c
Current-any f g set_unlock h c = c
Current-any f g (top left) h c = c
Current-any f g (get_lock left idx) h c = c
Current-any f g (get left idx) h c = c
Current-any f g finished h c = c

pub holds-other : (i j : ℕ) (w : Option ℕ) → holds i w ≡ true → j ≢ i → holds j w ≡ false
holds-other i j none h n = refl
holds-other i j (some k) h n = ground arith

pub holds-some : (i : ℕ) (w : Option ℕ) → holds i w ≡ true → w ≢ none
holds-some i none h e = ground (arith, h)
holds-some i (some k) h e = ground (arith, e)

pub no_readers :
    (i : ℕ) (s : State) → holds i s.writer ≡ true → Inv s → (j : ℕ) → j < 32 → reads (s.pc j) ≡ 0
no_readers i s h v j lt =
    let none_read : s.readers ≡ 0 = elim (v.alone) [
      | inl e ↦ absurd (holds-some i s.writer h e)
      | inr e ↦ e
    ] in
    omega (arith, le-weigh reads s.pc j 32 lt, v.counted, none_read)
