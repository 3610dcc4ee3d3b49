-- ===== src/Unlink/Tests.antt =====
-- Runs of unlink.c, and the theorem there.
use unix_linux_prog_in_c_src.Base.{
  ◌≢◌, arith, ℕ, true, false, ◌≡◌, refl, none, some, replicate, if◌then◌else◌, ◌==◌,
}
use unix_linux_prog_in_c_src.Unlink.{Fs, creat_failed, unlink_failed, done, main}
use unix_linux_prog_in_c_src.Unlink.Kept.{unlink_lem}

-- The names 1 and 2 stand for the file 7.
abbrev linked : Fs
linked = record {
  names = λ n. if n == 1 then some 7 else if n == 2 then some 7 else none;
  contents = λ n. replicate 5 66;
  next = 8;
}

-- The other name of the file has what the program has written; the calls may fail.
unlink_result :
    ((main true true 1 linked).fs.names 2 ≡ some 7)
    × ((main true true 1 linked).fs.contents 7 ≡ replicate 32 65)
    × ((main true true 3 linked).fs.contents 7 ≡ replicate 5 66)
    × ((main false true 1 linked).ending ≡ creat_failed)
    × ((main true false 1 linked).ending ≡ unlink_failed)
unfolding main
unlink_result = (refl, refl, refl, refl, refl)

unlink_lem_example :
    ((main true true 1 linked).ending ≡ done)
    × ((main true true 1 linked).readbuf ≡ replicate 32 65)
    × ((main true true 1 linked).fs.names 1 ≡ none)
    × ((main true true 1 linked).fs.names 2 ≡ some 7)
unlink_lem_example =
    let other : ◌≢◌ {A = ℕ} 2 1 = λ t. ground (arith, t) in unlink_lem 1 2 linked other
