-- ===== src/Mmap/Records.antt =====
-- The records of aligned.c are read as they were written.
use unix_linux_prog_in_c_src.Base.{
  ℕ, zero, suc, ◌+◌, ◌%◌, ◌^◌, ◌<◌, ◌≡◌, refl, arith, true, List, [], ◌∷◌, ◌++◌, replicate, drop,
  ◌==◌, ◌∙◌, Bool, false, not, ◌&&◌, Bool-cases, inl, inr, Option, none, some, if◌then◌else◌,
}
use unix_linux_prog_in_c_src.Mmap.{
  ByteOrder, little, big, bytes32, read32, write_record, letter_a, write_file, is_aligned, read_tag,
  read_second, second_end, read_file, Ending, trapped, at_end,
}

read32-bytes32 :
    (order : ByteOrder) (n : ℕ) (rest : List ℕ)
    → n < 2 ^ 32
    → read32 order (bytes32 order n ++ rest) ≡ n
unfolding read32 bytes32
read32-bytes32 little n rest h = omega arith
read32-bytes32 big n rest h = omega arith

drop-replicate : (n c : ℕ) (rest : List ℕ) → drop n (replicate n c ++ rest) ≡ rest
drop-replicate zero c [] = refl
drop-replicate zero c (x ∷ rest) = refl
drop-replicate (suc n) c rest = drop-replicate n c rest

drop-record :
    (order : ByteOrder) (len c : ℕ) (rest : List ℕ)
    → drop (4 + len) (write_record order len c ++ rest) ≡ rest
unfolding write_record bytes32
drop-record little len c rest =
    let e : 4 + len ≡ suc (suc (suc (suc len))) = omega arith in rw e (drop-replicate len c rest)
drop-record big len c rest =
    let e : 4 + len ≡ suc (suc (suc (suc len))) = omega arith in rw e (drop-replicate len c rest)

read32-write_record :
    (order : ByteOrder) (len c : ℕ) (rest : List ℕ)
    → len < 2 ^ 31
    → read32 order (write_record order len c ++ rest) ≡ len
unfolding write_record bytes32
read32-write_record little len c rest h =
    read32-bytes32 little (len % 2 ^ 32) (replicate len c ++ rest) (omega arith) ∙ omega arith
read32-write_record big len c rest h =
    read32-bytes32 big (len % 2 ^ 32) (replicate len c ++ rest) (omega arith) ∙ omega arith

read32-last :
    (order : ByteOrder) (len c : ℕ) → len < 2 ^ 31 → read32 order (write_record order len c) ≡ len
unfolding write_record bytes32
read32-last little len c h =
    read32-bytes32 little (len % 2 ^ 32) (replicate len c) (omega arith) ∙ omega arith
read32-last big len c h =
    read32-bytes32 big (len % 2 ^ 32) (replicate len c) (omega arith) ∙ omega arith

drop-zero : (xs : List ℕ) → drop 0 xs ≡ xs
drop-zero [] = refl
drop-zero (x ∷ xs) = refl

-- What is printed of the second record: on a strict machine the load traps if the size of the first one is
-- not a multiple of four.
abbrev pub second_size : (strict : Bool) → (rec1_len rec2_len : ℕ) → Option ℕ
second_size strict rec1_len rec2_len =
    if strict && not (rec1_len % 4 == 0) then none else some rec2_len

abbrev pub ending : (strict : Bool) → (rec1_len : ℕ) → Ending
ending strict rec1_len = if strict && not (rec1_len % 4 == 0) then trapped else at_end

-- On machines of both byte orders, strict about alignment or not, for records of lengths that an int
-- holds and a mapping that is aligned: the first size is read as it was written. The second one is aligned
-- exactly where the length of the first record is a multiple of four. Where it is not, a strict machine
-- traps there; in all other cases the second size is read as it was written, and the reading comes to the
-- end of the file.
pub read-write_file :
    (strict : Bool) (order : ByteOrder) (start rec1_len rec2_len : ℕ)
    → start % 4 ≡ 0
    → rec1_len < 2 ^ 31
    → rec2_len < 2 ^ 31
    → read_file strict order start rec1_len rec2_len (write_file order rec1_len rec2_len) ≡ (
      record { aligned = true; size = some rec1_len }
          ∷ record { aligned = rec1_len % 4 == 0; size = second_size strict rec1_len rec2_len }
          ∷ [],
      ending strict rec1_len,
    )
unfolding read_file read_second second_end read_tag write_file
read-write_file strict order start rec1_len rec2_len a h k =
    let second = write_record order rec2_len (letter_a + 1) in
    let file = write_record order rec1_len letter_a ++ second in
    let e1 : read32 order file ≡ rec1_len = read32-write_record order rec1_len letter_a second h in
    let d : drop (4 + rec1_len) file ≡ second = drop-record order rec1_len letter_a second in
    let e2 : read32 order second ≡ rec2_len = read32-last order rec2_len (letter_a + 1) k in
    let first_aligned : is_aligned (start + 0) ≡ true = ground arith in
    let second_aligned : is_aligned (start + (4 + rec1_len)) ≡ (rec1_len % 4 == 0) = ground arith in
    let end : (4 + rec1_len + 4 + rec2_len == 8 + rec1_len + rec2_len) ≡ true = ground arith in
    let loads : (strict && not true) ≡ false = ground arith in
    elim (Bool-cases (strict && not (rec1_len % 4 == 0))) [
      | inl t ↦ rw (drop-zero file, first_aligned, loads, e1, second_aligned, t) refl
      | inr t ↦ rw (drop-zero file, first_aligned, loads, e1, second_aligned, t, d, e2, end) refl
    ]
