-- ===== src/Mmap/Tests.antt =====
-- Runs of aligned.c and reverse.c, and the theorems there.
use unix_linux_prog_in_c_src.Base.{
  ℕ, ◌-◌, ◌*◌, ◌%◌, ◌≡◌, refl, arith, true, false, none, some, [], ◌∷◌, ltb, ◌==◌, if◌then◌else◌,
}
use unix_linux_prog_in_c_src.Mmap.{
  little, big, write_file, trapped, at_end, read_file, reverse_file,
}
use unix_linux_prog_in_c_src.Mmap.Records.{second_size, ending, read-write_file}
use unix_linux_prog_in_c_src.Mmap.Reversal.{reverse_file_lem}

file_result : write_file little 3 1 ≡ 3 ∷ 0 ∷ 0 ∷ 0 ∷ 65 ∷ 65 ∷ 65 ∷ 1 ∷ 0 ∷ 0 ∷ 0 ∷ 66 ∷ []
unfolding write_file
file_result = refl

-- With lengths of 17 and 16 the second size is not aligned.
misaligned_result :
    (read_file false little 8192 17 16 (write_file little 17 16) ≡ (
      record { aligned = true; size = some 17 } ∷ record { aligned = false; size = some 16 } ∷ [],
      at_end,
    ))
    × (read_file true big 8192 17 16 (write_file big 17 16) ≡ (
      record { aligned = true; size = some 17 } ∷ record { aligned = false; size = none } ∷ [],
      trapped,
    ))
unfolding read_file write_file
misaligned_result = (refl, refl)

read-write_file_example : read_file true big 8192 17 16 (write_file big 17 16) ≡ (
  record { aligned = true; size = some 17 }
      ∷ record { aligned = 17 % 4 == 0; size = second_size true 17 16 }
      ∷ [],
  ending true 17,
)
read-write_file_example =
    read-write_file true big 8192 17 16 (omega arith) (omega arith) (omega arith)

abbrev squares : ℕ → ℕ
squares k = k * k

reversed_result :
    (reverse_file 5 squares 0 ≡ 16)
    × (reverse_file 5 squares 1 ≡ 9)
    × (reverse_file 5 squares 2 ≡ 4)
    × (reverse_file 5 squares 4 ≡ 0)
    × (reverse_file 5 squares 5 ≡ 25)
unfolding reverse_file
reversed_result = (refl, refl, refl, refl, refl)

reverse_file_lem_example :
    reverse_file 5 squares 1 ≡ (if ltb 1 5 then squares (5 - 1 - 1) else squares 1)
reverse_file_lem_example = reverse_file_lem 5 squares 1
