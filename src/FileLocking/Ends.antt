-- ===== src/FileLocking/Ends.antt =====
-- Who has the locks of fcntl-locking.c when processes end.
use unix_linux_prog_in_c_src.Base.{
  ℕ, ◌≡◌, ◌⊎◌, refl, sym, ◌∙◌, arith, Bool, true, false, not, ◌&&◌, Bool-cases, inl, inr, Option,
  none, some, ltb, ◌==◌, List, run, run-keeps,
}
use unix_linux_prog_in_c_src.Base.Family.{put}
use unix_linux_prog_in_c_src.FileLocking.{
  Locking, locks, Pc, top, lock_half, mark_seek, mark_write, seek, put_char, unlock_half, ParentPc,
  lockr, dump, unlockr, State, start, can_read, nproc, advance, dump_file, Event, child_runs,
  parent_runs, step,
}
use unix_linux_prog_in_c_src.FileLocking.Group.{
  Group, group_start, GroupEvent, goes, child_ends, parent_ends, is_gone, released, group_step,
}
use unix_linux_prog_in_c_src.FileLocking.Holders.{
  inside, has_lock, Held, Apart, Children, advance-Children,
}

-- The parent is behind its lockr() and has not come to the end of its unlock().
abbrev pub reads : ParentPc → Bool
reads lockr = false
reads dump = true
reads unlockr = true

-- The parent has its lock where it reads, and changes nothing of the children.
abbrev Inv : Group → Type 0
Inv g =
    Children g.child_gone g.state
    × (g.state.reading ≡ (reads g.state.parent_pc && not g.parent_gone))

can_read-lem : (writer : Option ℕ) → can_read writer ≡ true → writer ≡ none
can_read-lem none t = refl
can_read-lem (some j) t = ground (arith, t)

dump_file-Inv :
    (locking : Locking) (p : ParentPc) (g : Group)
    → locks locking ≡ true
    → g.parent_gone ≡ false
    → g.state.parent_pc ≡ p
    → Inv g
    → Inv (record g { state = dump_file locking p g.state })
unfolding dump_file
dump_file-Inv locking lockr g a h e v = elim (Bool-cases (can_read g.state.writer)) [
  | inl t ↦ rw (a, t, h) ((v.0.0, v.0.1, inl (can_read-lem g.state.writer t)), refl)
  | inr t ↦ rw (a, t) v
]
dump_file-Inv locking dump g a h e v = (v.0, v.1 ∙ rw e refl)
dump_file-Inv locking unlockr g a h e v = ((v.0.0, v.0.1, inr refl), refl)

advance-reading :
    (locking : Locking) (i : ℕ) (p : Pc) (s : State)
    → ((advance locking i p s).reading ≡ s.reading)
      × ((advance locking i p s).parent_pc ≡ s.parent_pc)
unfolding advance
advance-reading locking i lock_half s = ground arith
advance-reading locking i (top j) s = (refl, refl)
advance-reading locking i mark_seek s = (refl, refl)
advance-reading locking i mark_write s = (refl, refl)
advance-reading locking i (seek j) s = (refl, refl)
advance-reading locking i (put_char j) s = (refl, refl)
advance-reading locking i unlock_half s = (refl, refl)

goes-Inv :
    (locking : Locking) (e : Event) (g : Group)
    → locks locking ≡ true
    → is_gone g e ≡ false
    → Inv g
    → Inv (record g { state = step locking e g.state })
unfolding step
goes-Inv locking (child_runs i) g a h v = elim (Bool-cases (ltb i nproc)) [
  | inl t ↦
      let (r, q) = advance-reading locking i (g.state.pc i) g.state in
      rw t
        (advance-Children locking g.child_gone i (g.state.pc i) g.state a h refl v.0, rw (r, q) v.1)
  | inr t ↦ rw t v
]
goes-Inv locking parent_runs g a h v = dump_file-Inv locking g.state.parent_pc g a h refl v

-- A child that has ended has no lock, and the others have what they had.
released-Held :
    (i : ℕ) (writer : Option ℕ) (pc : ℕ → Pc) (gone : ℕ → Bool)
    → Held writer pc gone
    → Held (released i writer) pc (put i true gone)
released-Held i none pc gone v k = elim (Bool-cases (i == k)) [
  | inl t ↦ rw t (ground arith)
  | inr t ↦ rw t (v k)
]
released-Held i (some j) pc gone v k = elim (Bool-cases (i == j)) [
  | inl t ↦ elim (Bool-cases (i == k)) [
    | inl u ↦ rw (t, u) (ground arith)
    | inr u ↦ let other : (j == k) ≡ false = ground (arith, t, u) in rw (t, u) (sym other ∙ v k)
  ]
  | inr t ↦ elim (Bool-cases (i == k)) [
    | inl u ↦ let other : (j == k) ≡ false = ground (arith, t, u) in rw (t, u, other) (ground arith)
    | inr u ↦ rw (t, u) (v k)
  ]
]

released-Apart :
    (i : ℕ) (writer : Option ℕ) (reading : Bool)
    → Apart writer reading
    → Apart (released i writer) reading
released-Apart i none reading v = inl refl
released-Apart i (some j) reading (inl t) = ground (arith, t)
released-Apart i (some j) reading (inr t) = inr t

step-Inv :
    (locking : Locking)
    → locks locking ≡ true
    → (e : GroupEvent) (g : Group) → Inv g
    → Inv (group_step locking e g)
unfolding group_step
step-Inv locking a (goes e) g v = elim (Bool-cases (is_gone g e)) [
  | inl t ↦ rw t v
  | inr t ↦ rw t (goes-Inv locking e g a t v)
]
step-Inv locking a (child_ends i) g v = (
  (
    v.0.0,
    released-Held i g.state.writer g.state.pc g.child_gone v.0.1,
    released-Apart i g.state.writer g.state.reading v.0.2,
  ),
  v.1,
)
step-Inv locking a parent_ends g v = ((v.0.0, v.0.1, inr refl), ground arith)

start-Inv : (locking : Locking) → Inv (group_start locking)
unfolding group_start start
start-Inv locking = ((λ i. tt, λ i. refl, inl refl), refl)

-- With locking, by -l or -L, after any schedule of steps and of ends of processes: a child has the write
-- lock exactly if it has not ended and is between its lock() and its unlock(); the parent has the read
-- lock exactly if it has not ended and is between its lockr() and its unlock(); and there are not both a
-- write lock and a read lock.
pub locks_of_live :
    (locking : Locking) (es : List GroupEvent)
    → locks locking ≡ true
    → let g = run (group_step locking) es (group_start locking) in
      ((i : ℕ) → has_lock g.state.writer i ≡ (inside (g.state.pc i) && not (g.child_gone i)))
      × (g.state.reading ≡ (reads g.state.parent_pc && not g.parent_gone))
      × ((g.state.writer ≡ none) ⊎ (g.state.reading ≡ false))
locks_of_live locking es a =
    let v =
      run-keeps Inv (group_step locking) (step-Inv locking a) es (group_start locking)
        (start-Inv locking) in
    (v.0.1, v.1, v.0.2)
