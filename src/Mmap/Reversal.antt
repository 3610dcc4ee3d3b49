-- ===== src/Mmap/Reversal.antt =====
-- reverse.c reverses a file.
use unix_linux_prog_in_c_src.Base.{
  ℕ, zero, suc, ◌+◌, ◌-◌, ◌≤◌, ◌<◌, ◌≡◌, ◌≢◌, sym, ◌⊎◌, inl, inr, refl, arith, true, false, leb,
  ltb, ◌&&◌, if◌then◌else◌, if-cases, ◌∙◌, ap,
}
use unix_linux_prog_in_c_src.Base.Family.{put}
use unix_linux_prog_in_c_src.Mmap.{reverse_loop, reverse_file}

mirrored : (lo hi : ℕ) → (ℕ → ℕ) → ℕ → ℕ
mirrored lo hi file k = if leb lo k && leb k hi then file (lo + hi - k) else file k

mirrored-inside :
    (lo hi : ℕ) (file : ℕ → ℕ) (k : ℕ)
    → lo ≤ k
    → k ≤ hi
    → mirrored lo hi file k ≡ file (lo + hi - k)
unfolding mirrored
mirrored-inside lo hi file k h l = let t : (leb lo k && leb k hi) ≡ true = ground arith in rw t refl

mirrored-outside :
    (lo hi : ℕ) (file : ℕ → ℕ) (k : ℕ) → (k < lo) ⊎ (hi < k) → mirrored lo hi file k ≡ file k
unfolding mirrored
mirrored-outside lo hi file k h =
    let t : (leb lo k && leb k hi) ≡ false = ground (arith, h) in rw t refl

-- Where a byte lies: outside, at an end, or between the ends.
place : (lo hi k : ℕ) → ((k < lo) ⊎ (hi < k)) ⊎ (k ≡ lo) ⊎ (k ≡ hi) ⊎ ((lo < k) × (k < hi))
place lo hi k = ground arith

-- What is left to mirror when the ends have been swapped.
swapped-mirrored :
    (lo hi : ℕ) (file : ℕ → ℕ) (k : ℕ)
    → lo < hi
    → mirrored (lo + 1) (hi - 1) (put hi (file lo) (put lo (file hi) file)) k
      ≡ mirrored lo hi file k
swapped-mirrored lo hi file k h =
    let swapped = put hi (file lo) (put lo (file hi) file) in
    let rest = mirrored (lo + 1) (hi - 1) swapped in
    let off : (j : ℕ) → j ≢ lo → j ≢ hi → swapped j ≡ file j = λ j n m. ground arith in
    let at_lo : swapped lo ≡ file hi = ground arith in
    let at_hi : swapped hi ≡ file lo = ground arith in
    let outside : (k < lo + 1) ⊎ (hi - 1 < k) → rest k ≡ swapped k =
      mirrored-outside (lo + 1) (hi - 1) swapped k in
    elim (place lo hi k) [
      | inl away ↦
          outside (ground (arith, away))
          ∙ off k (ground (arith, away)) (ground (arith, away))
          ∙ sym (mirrored-outside lo hi file k away)
      | inr (inl e) ↦
          outside (inl (omega arith))
          ∙ ap swapped e
          ∙ at_lo
          ∙ ap file (omega arith)
          ∙ sym (mirrored-inside lo hi file k (omega arith) (omega arith))
      | inr (inr (inl e)) ↦
          outside (inr (omega arith))
          ∙ ap swapped e
          ∙ at_hi
          ∙ ap file (omega arith)
          ∙ sym (mirrored-inside lo hi file k (omega arith) (omega arith))
      | inr (inr (inr (l, m))) ↦
          mirrored-inside (lo + 1) (hi - 1) swapped k (omega arith) (omega arith)
          ∙ off (lo + 1 + (hi - 1) - k) (λ e. absurd (omega (arith, e)))
              (λ e. absurd (omega (arith, e)))
          ∙ ap file (omega arith)
          ∙ sym (mirrored-inside lo hi file k (omega arith) (omega arith))
    ]

small-mirrored : (lo hi : ℕ) (file : ℕ → ℕ) (k : ℕ) → hi ≤ lo → file k ≡ mirrored lo hi file k
unfolding mirrored
small-mirrored lo hi file k h =
    if-cases (λ (x : ℕ). file k ≡ x) (leb lo k && leb k hi) (file (lo + hi - k)) (file k)
      (λ t. ap file (ground (arith, t))) (λ t. refl)

reverse_loop-mirrored :
    (fuel lo hi : ℕ) (file : ℕ → ℕ) (k : ℕ)
    → hi < lo + fuel
    → reverse_loop fuel lo hi file k ≡ mirrored lo hi file k
unfolding reverse_loop
reverse_loop-mirrored zero lo hi file k h = small-mirrored lo hi file k (omega arith)
reverse_loop-mirrored (suc fuel) lo hi file k h =
    let swapped = put hi (file lo) (put lo (file hi) file) in
    if-cases (λ (f : ℕ → ℕ). f k ≡ mirrored lo hi file k) (ltb lo hi)
      (reverse_loop fuel (lo + 1) (hi - 1) swapped) file
      (λ t.
        reverse_loop-mirrored fuel (lo + 1) (hi - 1) swapped k (omega arith)
        ∙ swapped-mirrored lo hi file k (ground (arith, t)))
      (λ t. small-mirrored lo hi file k (ground (arith, t)))

-- Each byte of the file gets the value of the byte as far from the other end, and nothing behind the
-- file is changed.
pub reverse_file_lem :
    (size : ℕ) (file : ℕ → ℕ) (k : ℕ)
    → reverse_file size file k ≡ (if ltb k size then file (size - 1 - k) else file k)
unfolding reverse_file
reverse_file_lem zero file k =
    if-cases (λ (x : ℕ). file k ≡ x) (ltb k 0) (file (0 - 1 - k)) (file k)
      (λ t. absurd (ground (arith, t))) (λ t. refl)
reverse_file_lem (suc n) file k =
    reverse_loop-mirrored (suc n) 0 (suc n - 1) file k (omega arith)
    ∙ if-cases (λ (x : ℕ). mirrored 0 (suc n - 1) file k ≡ x) (ltb k (suc n)) (file (suc n - 1 - k))
        (file k)
        (λ t.
          mirrored-inside 0 (suc n - 1) file k (omega arith) (ground (arith, t))
          ∙ ap file (omega arith))
        (λ t. mirrored-outside 0 (suc n - 1) file k (inr (ground (arith, t))))

reverse_file-inside :
    (size : ℕ) (file : ℕ → ℕ) (k : ℕ) → k < size → reverse_file size file k ≡ file (size - 1 - k)
reverse_file-inside size file k h =
    let t : ltb k size ≡ true = ground arith in reverse_file_lem size file k ∙ rw t refl

-- A second run of the program restores the file.
pub reverse_file-twice :
    (size : ℕ) (file : ℕ → ℕ) (k : ℕ) → reverse_file size (reverse_file size file) k ≡ file k
reverse_file-twice size file k =
    reverse_file_lem size (reverse_file size file) k
    ∙ if-cases (λ (x : ℕ). x ≡ file k) (ltb k size) (reverse_file size file (size - 1 - k))
        (reverse_file size file k)
        (λ t.
          let below : k < size = ground (arith, t) in
          reverse_file-inside size file (size - 1 - k) (omega arith) ∙ ap file (omega arith))
        (λ t. reverse_file_lem size file k ∙ rw t refl)
