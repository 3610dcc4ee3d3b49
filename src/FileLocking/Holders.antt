-- ===== src/FileLocking/Holders.antt =====
-- Which child of fcntl-locking.c has the write lock.
use unix_linux_prog_in_c_src.Base.{
  ℕ, ◌+◌, ◌≡◌, ◌⊎◌, refl, sym, ap, ◌∙◌, subst, arith, Bool, true, false, not, ◌&&◌, Bool-cases, inl,
  inr, Option, none, some, ltb, ◌==◌, if-cases,
}
use unix_linux_prog_in_c_src.Base.Family.{put}
use unix_linux_prog_in_c_src.FileLocking.{
  Locking, locks, middle, file_len, Pc, top, lock_half, mark_seek, mark_write, seek, put_char,
  unlock_half, State, can_write, behind_top, behind_char, advance,
}

-- The child is behind its lock() and has not come to the end of its unlock().
abbrev pub inside : Pc → Bool
inside (top j) = ltb middle j
inside lock_half = false
inside mark_seek = true
inside mark_write = true
inside (seek j) = ltb middle j
inside (put_char j) = ltb (middle + 1) j
inside unlock_half = true

abbrev pub has_lock : Option ℕ → ℕ → Bool
has_lock none i = false
has_lock (some j) i = j == i

-- The middle is marked first.
abbrev Marked : Pc → Type 0
Marked (seek j) = (j == middle) ≡ false
Marked (put_char j) = (j == middle + 1) ≡ false
Marked (top j) = Unit
Marked lock_half = Unit
Marked mark_seek = Unit
Marked mark_write = Unit
Marked unlock_half = Unit

abbrev AllMarked : (ℕ → Pc) → Type 0
AllMarked pc = (i : ℕ) → Marked (pc i)

abbrev pub Held : Option ℕ → (pc : ℕ → Pc) → (gone : ℕ → Bool) → Type 0
Held writer pc gone = (i : ℕ) → has_lock writer i ≡ (inside (pc i) && not (gone i))

abbrev pub Apart : Option ℕ → (reading : Bool) → Type 0
Apart writer reading = (writer ≡ none) ⊎ (reading ≡ false)

-- What a step of a child keeps.
abbrev pub Children : (gone : ℕ → Bool) → State → Type 0
Children gone s = AllMarked s.pc × Held s.writer s.pc gone × Apart s.writer s.reading

put-AllMarked : (i : ℕ) (q : Pc) (pc : ℕ → Pc) → Marked q → AllMarked pc → AllMarked (put i q pc)
put-AllMarked i q pc m v k = if-cases Marked (i == k) q (pc k) (λ t. m) (λ t. v k)

-- A child moves, and is inside as before.
put-Held :
    (i : ℕ) (q : Pc) (writer : Option ℕ) (pc : ℕ → Pc) (gone : ℕ → Bool)
    → inside q ≡ inside (pc i)
    → Held writer pc gone
    → Held writer (put i q pc) gone
put-Held i q writer pc gone e v k = elim (Bool-cases (i == k)) [
  | inl t ↦
      let same : i ≡ k = ground (arith, t) in
      rw t (v k ∙ ap (λ b. b && not (gone k)) (subst (λ j. inside (pc j) ≡ inside q) same (sym e)))
  | inr t ↦ rw t (v k)
]

moved-Children :
    (gone : ℕ → Bool) (i : ℕ) (q : Pc) (s : State)
    → Marked q
    → inside q ≡ inside (s.pc i)
    → Children gone s
    → Children gone (record s { pc = put i q s.pc })
moved-Children gone i q s m e v =
    (put-AllMarked i q s.pc m v.0, put-Held i q s.writer s.pc gone e v.1, v.2)

-- A child takes a lock that nobody has.
locked-Held :
    (i : ℕ) (pc : ℕ → Pc) (gone : ℕ → Bool)
    → gone i ≡ false
    → Held none pc gone
    → Held (some i) (put i mark_seek pc) gone
locked-Held i pc gone alive v k = elim (Bool-cases (i == k)) [
  | inl t ↦
      let same : i ≡ k = ground (arith, t) in rw (t, subst (λ j. gone j ≡ false) same alive) refl
  | inr t ↦ rw t (v k)
]

can_write-lem :
    (writer : Option ℕ) (reading : Bool)
    → can_write writer reading ≡ true
    → (writer ≡ none) × (reading ≡ false)
can_write-lem none false t = (refl, refl)
can_write-lem none true t = ground (arith, t)
can_write-lem (some j) reading t = ground (arith, t)

-- The child that has the lock gives it up.
unlocked-Held :
    (i : ℕ) (writer : Option ℕ) (pc : ℕ → Pc) (gone : ℕ → Bool)
    → has_lock writer i ≡ true
    → Held writer pc gone
    → Held none (put i (top 0) pc) gone
unlocked-Held i none pc gone t v k = ground (arith, t)
unlocked-Held i (some j) pc gone t v k = elim (Bool-cases (i == k)) [
  | inl u ↦ rw u refl
  | inr u ↦
      let same : j ≡ i = ground (arith, t) in
      let other : (j == k) ≡ false = ground (arith, same, u) in rw u (sym other ∙ v k)
]

behind_top-inside :
    (locking : Locking) (j : ℕ)
    → locks locking ≡ true
    → Marked (behind_top locking j) × (inside (behind_top locking j) ≡ inside (top j))
behind_top-inside locking j a = elim (Bool-cases (j == middle)) [
  | inl t ↦ let outside : inside (top j) ≡ false = ground (arith, t) in rw (t, a) (tt, sym outside)
  | inr t ↦ rw t (t, refl)
]

behind_char-inside :
    (locking : Locking) (j : ℕ)
    → locks locking ≡ true
    → (j == middle + 1) ≡ false
    → Marked (behind_char locking j) × (inside (behind_char locking j) ≡ inside (put_char j))
behind_char-inside locking j a m = elim (Bool-cases (j == file_len)) [
  | inl t ↦ let last : inside (put_char j) ≡ true = ground (arith, t) in rw (t, a) (tt, sym last)
  | inr t ↦ let same : inside (top j) ≡ inside (put_char j) = ground (arith, m) in rw t (tt, same)
]

pub advance-Children :
    (locking : Locking) (gone : ℕ → Bool) (i : ℕ) (p : Pc) (s : State)
    → locks locking ≡ true
    → gone i ≡ false
    → s.pc i ≡ p
    → Children gone s
    → Children gone (advance locking i p s)
unfolding advance
advance-Children locking gone i (top j) s a h e v =
    let (m, same) = behind_top-inside locking j a in
    moved-Children gone i (behind_top locking j) s m (same ∙ sym (ap inside e)) v
advance-Children locking gone i lock_half s a h e v =
    if-cases (Children gone) (can_write s.writer s.reading) _ s
      (λ t.
        let (none_there, no_reader) = can_write-lem s.writer s.reading t in
        let before : Held none s.pc gone = subst (λ w. Held w s.pc gone) none_there v.1 in
        (put-AllMarked i mark_seek s.pc tt v.0, locked-Held i s.pc gone h before, inr no_reader))
      (λ t. v)
advance-Children locking gone i mark_seek s a h e v =
    moved-Children gone i mark_write s tt (sym (ap inside e)) v
advance-Children locking gone i mark_write s a h e v =
    moved-Children gone i (seek (middle + 1)) s refl (sym (ap inside e)) v
advance-Children locking gone i (seek j) s a h e v =
    let marked : (j == middle) ≡ false = subst Marked e (v.0 i) in
    let next_marked : (j + 1 == middle + 1) ≡ false = ground (arith, marked) in
    let same : ltb (middle + 1) (j + 1) ≡ ltb middle j = ground arith in
    moved-Children gone i (put_char (j + 1)) s next_marked (same ∙ sym (ap inside e)) v
advance-Children locking gone i (put_char j) s a h e v =
    let (m, same) = behind_char-inside locking j a (subst Marked e (v.0 i)) in
    moved-Children gone i (behind_char locking j) s m (same ∙ sym (ap inside e)) v
advance-Children locking gone i unlock_half s a h e v =
    let has : has_lock s.writer i ≡ true = v.1 i ∙ rw (e, h) refl in
    (put-AllMarked i (top 0) s.pc tt v.0, unlocked-Held i s.writer s.pc gone has v.1, inl refl)
