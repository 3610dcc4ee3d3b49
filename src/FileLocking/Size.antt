-- ===== src/FileLocking/Size.antt =====
-- How large the file of fcntl-locking.c gets under -L.
use unix_linux_prog_in_c_src.Base.{
  ℕ, ◌+◌, ◌≤◌, ◌≡◌, inl, inr, arith, true, false, ltb, Bool-cases, List, run, run-keeps,
}
use native.Mathlib.Decide.{dec_lt}
use unix_linux_prog_in_c_src.FileLocking.{
  c, file_len, max_size, Pc, top, lock_half, mark_seek, mark_write, seek, put_char, unlock_half,
  ParentPc, lockr, dump, unlockr, exclusive_fd, State, start, can_write, can_read, advance,
  dump_file, Event, child_runs, parent_runs, step,
}
use unix_linux_prog_in_c_src.FileLocking.Halves.{Fine}
use unix_linux_prog_in_c_src.FileLocking.Uniform.{Inv, has_lock, step-Inv, start-Inv}

max_size-le : (m n : ℕ) → m ≤ 70 → n ≤ 70 → max_size m n ≤ 70
max_size-le m n h k = ground arith

advance-size :
    (i : ℕ) (p : Pc) (s : State)
    → Fine (c i) p (s.offset i) s.file (has_lock i s.writer)
    → s.size ≤ 70
    → (advance exclusive_fd i p s).size ≤ 70
unfolding advance
advance-size i (top j) s own h = h
advance-size i lock_half s own h = elim (Bool-cases (can_write s.writer s.reading)) [
  | inl t ↦ rw t h
  | inr t ↦ rw t h
]
advance-size i mark_seek s own h = h
advance-size i mark_write s own h = max_size-le s.size (s.offset i + 1) h (omega (arith, own.1))
advance-size i (seek j) s own h = h
advance-size i (put_char j) s own h = max_size-le s.size (s.offset i + 1) h (omega (arith, own.0))
advance-size i unlock_half s own h = h

dump_file-size : (p : ParentPc) (s : State) → s.size ≤ 70 → (dump_file exclusive_fd p s).size ≤ 70
unfolding dump_file
dump_file-size lockr s h = elim (Bool-cases (can_read s.writer)) [ inl t ↦ rw t h | inr t ↦ rw t h ]
dump_file-size dump s h = h
dump_file-size unlockr s h = h

step-size : (e : Event) (s : State) → Inv s → s.size ≤ 70 → (step exclusive_fd e s).size ≤ 70
unfolding step
step-size (child_runs i) s v h = elim (dec_lt i 5) [
  | yes lt ↦
      let t : ltb i 5 ≡ true = ground arith in rw t (advance-size i (s.pc i) s (v.fine i lt) h)
  | no out ↦ let t : ltb i 5 ≡ false = ground arith in rw t h
]
step-size parent_runs s v h = dump_file-size s.parent_pc s h

-- Under -L, after any schedule, the file is not larger than FILE_LEN.
pub size-le : (es : List Event) → (run (step exclusive_fd) es (start exclusive_fd)).size ≤ file_len
size-le es =
    let both =
      run-keeps (λ s. Inv s × (s.size ≤ 70)) (step exclusive_fd)
        (λ e s v. (step-Inv e s (v.0), step-size e s (v.0) (v.1))) es (start exclusive_fd)
        (start-Inv, (unfold start in omega arith)) in
    both.1
