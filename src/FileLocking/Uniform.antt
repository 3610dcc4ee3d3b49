-- ===== src/FileLocking/Uniform.antt =====
-- The second half of the file of fcntl-locking.c under -L, as the parent dumps it.
use unix_linux_prog_in_c_src.Base.{
  Option-cases, ◌⊎◌, ℕ, ◌+◌, ◌<◌, ◌≡◌, ◌≢◌, inl, inr, refl, arith, Bool, true, false, Option, none,
  some, ltb, ◌==◌, Bool-cases, List, run, run-keeps, subst, sym, ◌∙◌,
}
use native.Mathlib.Decide.{dec_lt}
use unix_linux_prog_in_c_src.Base.Family.{put, put-all}
use unix_linux_prog_in_c_src.FileLocking.{
  c, bar, Pc, top, lock_half, mark_seek, mark_write, seek, put_char, unlock_half, ParentPc, lockr,
  dump, unlockr, exclusive_fd, State, start, can_write, can_read, behind_top, behind_char, advance,
  dump_file, Event, child_runs, parent_runs, step,
}
use unix_linux_prog_in_c_src.FileLocking.Halves.{
  Filled, Filled-put, Fine, Fine-put, top-Fine, mark-Fine, seek-Fine, char-Fine,
}

abbrev pub has_lock : ℕ → Option ℕ → Bool
has_lock i none = false
has_lock i (some j) = i == j

-- All bytes behind the mark are the same.
abbrev pub Uniform : (ℕ → ℕ) → Type 0
Uniform f = (ch : ℕ) × Filled ch f 70

abbrev pub FineAt : State → ℕ → Type 0
FineAt s i = Fine (c i) (s.pc i) (s.offset i) s.file (has_lock i s.writer)

-- The parent reads only with the lock.
abbrev Reads : ParentPc → Bool → Type 0
Reads lockr reading = reading ≡ false
Reads dump reading = reading ≡ true
Reads unlockr reading = reading ≡ true

pub record Inv (s : State) : Type 0 where
  pub fine : (i : ℕ) → i < 5 → FineAt s i
  whole : s.writer ≡ none → Uniform s.file
  reads : Reads s.parent_pc s.reading
  no_writer : s.reading ≡ true → s.writer ≡ none
  shown_whole : Uniform s.shown

-- A step of the child `i` changes its own offset and place.
replace-Fine :
    (s : State) (i : ℕ) (p : Pc) (o : ℕ) (f : ℕ → ℕ) (w : Option ℕ)
    → Fine (c i) p o f (has_lock i w)
    → ((j : ℕ) → j < 5 → j ≢ i → Fine (c j) (s.pc j) (s.offset j) f (has_lock j w))
    → (j : ℕ) → j < 5
    → Fine (c j) (put i p s.pc j) (put i o s.offset j) f (has_lock j w)
replace-Fine s i p o f w own others j lt = elim (Bool-cases (i == j)) [
  | inl t ↦ let same : i ≡ j = ground (arith, t) in rw (t, ← same) own
  | inr t ↦ rw t (others j lt (ground (arith, t)))
]

move-Fine :
    (s : State) (i : ℕ) (p : Pc) (f : ℕ → ℕ) (w : Option ℕ)
    → Fine (c i) p (s.offset i) f (has_lock i w)
    → ((j : ℕ) → j < 5 → j ≢ i → Fine (c j) (s.pc j) (s.offset j) f (has_lock j w))
    → (j : ℕ) → j < 5
    → Fine (c j) (put i p s.pc j) (s.offset j) f (has_lock j w)
move-Fine s i p f w own others =
    put-all (λ (k : ℕ) (q : Pc). Fine (c k) q (s.offset k) f (has_lock k w)) 5 s.pc i p own others

other_lock : (i j : ℕ) (w : Option ℕ) → has_lock i w ≡ true → j ≢ i → has_lock j w ≡ false
other_lock i j none h n = refl
other_lock i j (some k) h n = ground arith

locked-some : (i : ℕ) (w : Option ℕ) → has_lock i w ≡ true → w ≢ none
locked-some i none h e = ground arith
locked-some i (some k) h e = ground arith

Fine-lock :
    (ch : ℕ) (p : Pc) (o : ℕ) (f : ℕ → ℕ) (has had : Bool)
    → had ≡ false
    → has ≡ false
    → Fine ch p o f had
    → Fine ch p o f has
Fine-lock ch p o f has had e h fine = subst (Fine ch p o f) (e ∙ sym h) fine

unlocked : (w : Option ℕ) (r : Bool) → can_write w r ≡ true → (w ≡ none) × (r ≡ false)
unlocked none false t = (refl, refl)
unlocked none true t = ground arith
unlocked (some i) r t = ground arith

readable : (w : Option ℕ) → can_read w ≡ true → w ≡ none
readable none t = refl
readable (some i) t = ground arith

advance-Inv :
    (i : ℕ) (p : Pc) (s : State)
    → Fine (c i) p (s.offset i) s.file (has_lock i s.writer)
    → Inv s
    → Inv (advance exclusive_fd i p s)
unfolding advance
advance-Inv i (top j) s own v = record {
  fine =
      move-Fine s i (behind_top exclusive_fd j) s.file s.writer
        (top-Fine (c i) j (s.offset i) s.file (has_lock i s.writer) own) (λ k lt n. v.fine k lt);
  whole = v.whole;
  reads = v.reads;
  no_writer = v.no_writer;
  shown_whole = v.shown_whole;
}
advance-Inv i lock_half s own v = elim (Bool-cases (can_write s.writer s.reading)) [
  | inl t ↦
      let (free, quiet) = unlocked s.writer s.reading t in
      rw t (record {
        fine = move-Fine s i mark_seek s.file (some i) (ground arith) (λ k lt n.
            Fine-lock (c k) (s.pc k) (s.offset k) s.file (k == i) (has_lock k s.writer)
              (rw free refl) (ground arith) (v.fine k lt));
        whole = λ e. ground arith;
        reads = v.reads;
        no_writer = λ e. ground arith;
        shown_whole = v.shown_whole;
      })
  | inr t ↦ rw t v
]
advance-Inv i mark_seek s own v = record {
  fine = replace-Fine s i mark_write 35 s.file s.writer (own, refl) (λ k lt n. v.fine k lt);
  whole = v.whole;
  reads = v.reads;
  no_writer = v.no_writer;
  shown_whole = v.shown_whole;
}
advance-Inv i mark_write s own v = record {
  fine =
      replace-Fine s i (seek 36) (s.offset i + 1) (put (s.offset i) bar s.file) s.writer
        (rw (own.0, own.1) (mark-Fine (c i) s.file))
        (λ k lt n.
          Fine-put (c k) (s.offset i) bar (s.pc k) (s.offset k) s.file (has_lock k s.writer)
            (inr (other_lock i k s.writer own.0 n)) (v.fine k lt));
  whole = λ e. absurd (locked-some i s.writer own.0 e);
  reads = v.reads;
  no_writer = v.no_writer;
  shown_whole = v.shown_whole;
}
advance-Inv i (seek j) s own v = record {
  fine =
      replace-Fine s i (put_char (j + 1)) j s.file s.writer
        (seek-Fine (c i) j (s.offset i) s.file (has_lock i s.writer) own) (λ k lt n. v.fine k lt);
  whole = v.whole;
  reads = v.reads;
  no_writer = v.no_writer;
  shown_whole = v.shown_whole;
}
advance-Inv i (put_char j) s own v = record {
  fine =
      replace-Fine s i (behind_char exclusive_fd j) (s.offset i + 1) (put (s.offset i) (c i) s.file)
        s.writer (char-Fine (c i) j (s.offset i) s.file (has_lock i s.writer) own)
        (λ k lt n.
          Fine-put (c k) (s.offset i) (c i) (s.pc k) (s.offset k) s.file (has_lock k s.writer)
            (elim (own.3) [
              | inl low ↦ inl (omega (arith, low.0))
              | inr high ↦ inr (other_lock i k s.writer high.1 n)
            ])
            (v.fine k lt));
  whole = λ e. elim (own.3) [
    | inl low ↦
        let u = v.whole e in
        (u.0, Filled-put u.0 (s.offset i) (c i) s.file 70 (omega (arith, low.0)) u.1)
    | inr high ↦ absurd (locked-some i s.writer high.1 e)
  ];
  reads = v.reads;
  no_writer = v.no_writer;
  shown_whole = v.shown_whole;
}
advance-Inv i unlock_half s own v = record {
  fine =
      move-Fine s i (top 0) s.file none (omega arith, inl (omega arith, refl))
        (λ k lt n.
          Fine-lock (c k) (s.pc k) (s.offset k) s.file false (has_lock k s.writer)
            (other_lock i k s.writer own.0 n) refl (v.fine k lt));
  whole = λ e. (c i, own.1);
  reads = v.reads;
  no_writer = λ e. refl;
  shown_whole = v.shown_whole;
}

dump_file-Inv :
    (p : ParentPc) (s : State) → s.parent_pc ≡ p → Inv s → Inv (dump_file exclusive_fd p s)
unfolding dump_file
dump_file-Inv lockr s at v = elim (Bool-cases (can_read s.writer)) [
  | inl t ↦ rw t (record {
    fine = v.fine;
    whole = v.whole;
    reads = refl;
    no_writer = λ e. readable s.writer t;
    shown_whole = v.shown_whole;
  })
  | inr t ↦ rw t v
]
dump_file-Inv dump s at v =
    let r : s.reading ≡ true = subst (λ p. Reads p s.reading) at v.reads in
    record {
      fine = v.fine;
      whole = v.whole;
      reads = r;
      no_writer = v.no_writer;
      shown_whole = v.whole (v.no_writer r);
    }
dump_file-Inv unlockr s at v = record {
  fine = v.fine;
  whole = v.whole;
  reads = refl;
  no_writer = λ e. ground arith;
  shown_whole = v.shown_whole;
}

pub step-Inv : (e : Event) (s : State) → Inv s → Inv (step exclusive_fd e s)
unfolding step
step-Inv (child_runs i) s v = elim (dec_lt i 5) [
  | yes lt ↦
      let t : ltb i 5 ≡ true = ground arith in rw t (advance-Inv i (s.pc i) s (v.fine i lt) v)
  | no out ↦ let t : ltb i 5 ≡ false = ground arith in rw t v
]
step-Inv parent_runs s v = dump_file-Inv s.parent_pc s refl v

pub start-Inv : Inv (start exclusive_fd)
unfolding start
start-Inv = record {
  fine = λ i lt. (omega arith, inl (omega arith, refl));
  whole = λ e. (0, λ k low high. refl);
  reads = refl;
  no_writer = λ e. refl;
  shown_whole = (0, λ k low high. refl);
}

-- Under -L, after any schedule of the children and the parent, all bytes behind the mark in what the
-- parent has dumped last are the same, and so are those of the file whenever no child has the lock.
pub dump_uniform :
    (es : List Event)
    → let s = run (step exclusive_fd) es (start exclusive_fd) in
      Uniform s.shown × ((s.writer ≢ none) ⊎ Uniform s.file)
dump_uniform es =
    let v = run-keeps Inv (step exclusive_fd) step-Inv es (start exclusive_fd) start-Inv in
    let w = (run (step exclusive_fd) es (start exclusive_fd)).writer in
    (
      v.shown_whole,
      elim (Option-cases w) [
        | inl free ↦ inr (v.whole free)
        | inr (k, taken) ↦ inl (λ e. ground (arith, sym taken ∙ e))
      ],
    )
