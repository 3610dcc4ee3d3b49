-- ===== src/Mmap.antt =====
-- mmap/aligned.c writes two records to a file, and reads them through a mapping by the sizes that
-- stand before them; mmap/reverse.c reverses a file in place through a mapping.
pub mod Records
pub mod Reversal
mod Tests
use unix_linux_prog_in_c_src.Base.{
  ℕ, zero, suc, ◌+◌, ◌-◌, ◌*◌, ◌/◌, ◌%◌, ◌^◌, Bool, true, false, List, [], ◌∷◌, ◌++◌, replicate,
  length, drop, ltb, Option, none, some, not, ◌&&◌, ◌==◌, if◌then◌else◌,
}
use unix_linux_prog_in_c_src.Base.Family.{put}

-- How the machine stores a uint32_t.
pub data ByteOrder : Type 0 where
  little big : ByteOrder

pub bytes32 : ByteOrder → ℕ → List ℕ
bytes32 little n = (n % 256) ∷ (n / 256 % 256) ∷ (n / 65536 % 256) ∷ (n / 16777216 % 256) ∷ []
bytes32 big n = (n / 16777216 % 256) ∷ (n / 65536 % 256) ∷ (n / 256 % 256) ∷ (n % 256) ∷ []

-- The number at the start of some memory.
pub read32 : ByteOrder → List ℕ → ℕ
read32 little (a ∷ b ∷ c ∷ d ∷ rest) = a + 256 * b + 65536 * c + 16777216 * d
read32 big (a ∷ b ∷ c ∷ d ∷ rest) = d + 256 * c + 65536 * b + 16777216 * a
read32 order bytes = 0

-- `num = rec_len`, and the record with so many bytes `c`.
pub write_record : ByteOrder → (len c : ℕ) → List ℕ
unfolding bytes32
write_record order len c = bytes32 order (len % 2 ^ 32) ++ replicate len c

abbrev pub letter_a : ℕ
letter_a = 65

pub write_file : ByteOrder → (rec1_len rec2_len : ℕ) → List ℕ
unfolding write_record
write_file order rec1_len rec2_len =
    write_record order rec1_len letter_a ++ write_record order rec2_len (letter_a + 1)

-- IS_ALIGNED, for a pointer.
abbrev pub is_aligned : ℕ → Bool
is_aligned p = p % 4 == 0

-- What is printed of a record: whether it is aligned, and then its size. With `none` the load of the size
-- has ended the program.
pub record Tag : Type 0 where
  pub aligned : Bool
  pub size : Option ℕ

-- On a machine that is strict, a load from an address that is not aligned traps.
pub read_tag : (strict : Bool) → ByteOrder → (start offset : ℕ) → List ℕ → Tag
unfolding read32
read_tag strict order start offset file = record {
  aligned = is_aligned (start + offset);
  size =
      if strict && not (is_aligned (start + offset))
      then none
      else some (read32 order (drop offset file));
}

-- Behind a tag and its data.
abbrev pub skip : (offset size : ℕ) → ℕ
skip offset size = offset + 4 + size

-- How the reading ends: by a trap, with the error of the program, or at the end of the file.
pub data Ending : Type 0 where
  trapped not_at_end at_end : Ending

-- Behind the second tag, at `addr`, by the size that is read there.
pub second_end : (addr eofptr : ℕ) → Option ℕ → Ending
second_end addr eofptr none = trapped
second_end addr eofptr (some size) = if skip addr size == eofptr then at_end else not_at_end

-- Behind the first tag, by the size that is read there: the other tag that is printed, and the ending.
pub read_second :
    (strict : Bool) → ByteOrder → (start eofptr : ℕ) → List ℕ → Option ℕ → List Tag × Ending
unfolding read_tag second_end
read_second strict order start eofptr file none = ([], trapped)
read_second strict order start eofptr file (some size) =
    let second = read_tag strict order start (skip 0 size) file in
    (second ∷ [], second_end (skip 0 size) eofptr second.size)

-- What is printed, and the ending; `start` is what mmap() returns.
pub read_file :
    (strict : Bool) → ByteOrder → (start rec1_len rec2_len : ℕ) → List ℕ → List Tag × Ending
unfolding read_tag read_second
read_file strict order start rec1_len rec2_len file =
    let first = read_tag strict order start 0 file in
    let behind = read_second strict order start (8 + rec1_len + rec2_len) file first.size in
    (first ∷ behind.0, behind.1)

-- The loop of reverse.c on the indices of `p1` and `p2`, with fuel.
pub reverse_loop : (fuel p1 p2 : ℕ) → (ℕ → ℕ) → ℕ → ℕ
reverse_loop zero p1 p2 file = file
reverse_loop (suc fuel) p1 p2 file =
    let rest = reverse_loop fuel (p1 + 1) (p2 - 1) (put p2 (file p1) (put p1 (file p2) file)) in
    if ltb p1 p2 then rest else file

-- A file of so many bytes; each round brings the pointers nearer, so there are fewer than that. For an
-- empty file `p2` is before `p1` in the source, and equal to it here: there is no round.
pub reverse_file : (size : ℕ) → (ℕ → ℕ) → ℕ → ℕ
unfolding reverse_loop
reverse_file size file = reverse_loop size 0 (size - 1) file
