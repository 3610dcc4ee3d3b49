-- ===== src/FileLocking/Halves.antt =====
-- What each child of fcntl-locking.c keeps to under -L: it is beyond the middle exactly while it has
-- the lock, and then it has filled the second half up to where it is.
use unix_linux_prog_in_c_src.Base.{
  ℕ, ◌+◌, ◌≤◌, ◌<◌, ◌≡◌, ◌≢◌, ◌⊎◌, inl, inr, refl, arith, Bool, true, false, ◌==◌, Bool-cases,
  subst,
}
use unix_linux_prog_in_c_src.Base.Family.{put}
use unix_linux_prog_in_c_src.FileLocking.{
  bar, Pc, top, lock_half, mark_seek, mark_write, seek, put_char, unlock_half, exclusive_fd,
  behind_top, behind_char,
}

-- The bytes behind the mark and before `j` are `ch`.
abbrev pub Filled : (ch : ℕ) → (ℕ → ℕ) → ℕ → Type 0
Filled ch f j = (k : ℕ) → 36 ≤ k → k < j → f k ≡ ch

Filled-start : (ch : ℕ) (f : ℕ → ℕ) → Filled ch f 36
Filled-start ch f k low high = absurd (omega (arith, low, high))

pub Filled-put :
    (ch at v : ℕ) (f : ℕ → ℕ) (j : ℕ) → at < 36 → Filled ch f j → Filled ch (put at v f) j
Filled-put ch at v f j lt h k low high =
    let t : at == k ≡ false = ground arith in rw t (h k low high)

Filled-next : (ch at : ℕ) (f : ℕ → ℕ) → Filled ch f at → Filled ch (put at ch f) (at + 1)
Filled-next ch at f h k low high = elim (Bool-cases (at == k)) [
  | inl t ↦ rw t refl
  | inr t ↦ rw t (h k low (ground (arith, t)))
]

abbrev pub Region : (ch j : ℕ) → (ℕ → ℕ) → Bool → Type 0
Region ch j f has = ((j ≤ 35) × (has ≡ false)) ⊎ ((36 ≤ j) × (has ≡ true) × Filled ch f j)

-- The flag says that the child has the lock; `o` is the offset of its file.
abbrev pub Fine : (ch : ℕ) → Pc → (o : ℕ) → (ℕ → ℕ) → Bool → Type 0
Fine ch (top j) o f has = (j < 70) × Region ch j f has
Fine ch lock_half o f has = has ≡ false
Fine ch mark_seek o f has = has ≡ true
Fine ch mark_write o f has = (has ≡ true) × (o ≡ 35)
Fine ch (seek j) o f has = (j < 70) × (j ≢ 35) × Region ch j f has
Fine ch (put_char j) o f has = (o < 70) × (j ≡ o + 1) × (o ≢ 35) × Region ch o f has
Fine ch unlock_half o f has = (has ≡ true) × Filled ch f 70

Region-put :
    (ch at v j : ℕ) (f : ℕ → ℕ) (has : Bool)
    → (at < 36) ⊎ (has ≡ false)
    → Region ch j f has
    → Region ch j (put at v f) has
Region-put ch at v j f has q (inl h) = inl h
Region-put ch at v j f has (inl lt) (inr h) = inr (h.0, h.1, Filled-put ch at v f j lt h.2)
Region-put ch at v j f has (inr no_lock) (inr h) = absurd (ground (arith, h.1, no_lock))

-- What a child keeps to is not disturbed by a write of another one.
pub Fine-put :
    (ch at v : ℕ) (p : Pc) (o : ℕ) (f : ℕ → ℕ) (has : Bool)
    → (at < 36) ⊎ (has ≡ false)
    → Fine ch p o f has
    → Fine ch p o (put at v f) has
Fine-put ch at v (top j) o f has q h = (h.0, Region-put ch at v j f has q h.1)
Fine-put ch at v lock_half o f has q h = h
Fine-put ch at v mark_seek o f has q h = h
Fine-put ch at v mark_write o f has q h = h
Fine-put ch at v (seek j) o f has q h = (h.0, h.1, Region-put ch at v j f has q h.2)
Fine-put ch at v (put_char j) o f has q h = (h.0, h.1, h.2, Region-put ch at v o f has q h.3)
Fine-put ch at v unlock_half o f has (inl lt) h = (h.0, Filled-put ch at v f 70 lt h.1)
Fine-put ch at v unlock_half o f has (inr no_lock) h = absurd (ground (arith, h.0, no_lock))

-- The steps of the child itself.
pub top-Fine :
    (ch j o : ℕ) (f : ℕ → ℕ) (has : Bool)
    → Fine ch (top j) o f has
    → Fine ch (behind_top exclusive_fd j) o f has
top-Fine ch j o f has (lt, r) = elim (Bool-cases (j == 35)) [
  | inl t ↦ rw t (elim r [ inl h ↦ h.1 | inr h ↦ absurd (ground (arith, t, h.0)) ])
  | inr t ↦ rw t (lt, ground (arith, t), r)
]

pub mark-Fine : (ch : ℕ) (f : ℕ → ℕ) → Fine ch (seek 36) 36 (put 35 bar f) true
mark-Fine ch f =
    (omega arith, ground arith, inr (omega arith, refl, Filled-start ch (put 35 bar f)))

pub seek-Fine :
    (ch j o : ℕ) (f : ℕ → ℕ) (has : Bool)
    → Fine ch (seek j) o f has
    → Fine ch (put_char (j + 1)) j f has
seek-Fine ch j o f has (lt, n, r) = (lt, refl, n, r)

pub char-Fine :
    (ch j o : ℕ) (f : ℕ → ℕ) (has : Bool)
    → Fine ch (put_char j) o f has
    → Fine ch (behind_char exclusive_fd j) (o + 1) (put o ch f) has
char-Fine ch j o f has (lt, e, n, inl (low, out)) =
    let t : j == 70 ≡ false = ground arith in
    rw t (omega (arith, e, low), inl (ground (arith, n, low), out))
char-Fine ch j o f has (lt, e, n, inr (high, held, full)) =
    let g : Filled ch (put o ch f) j = rw e (Filled-next ch o f full) in
    elim (Bool-cases (j == 70)) [
      | inl t ↦
          rw t (held, (let u : j ≡ 70 = ground (arith, t) in subst (Filled ch (put o ch f)) u g))
      | inr t ↦ rw t (ground (arith, t, e, lt), inr (omega (arith, e, high), held, g))
    ]
