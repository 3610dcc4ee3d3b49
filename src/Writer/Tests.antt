-- ===== src/Writer/Tests.antt =====
-- Runs of write-select.c, and the theorems there.
use unix_linux_prog_in_c_src.Base.{
  ◌+◌, ◌-◌, ◌%◌, ◌^◌, ◌≤◌, ◌≡◌, ◌⊎◌, refl, true, false, List, ◌∷◌, ◌++◌, run, replicate,
}
use unix_linux_prog_in_c_src.Writer.{
  writing, failed, start, server_step, Event, server_runs, reads, closes, discards, step,
}
use unix_linux_prog_in_c_src.Writer.Total.{pending, total_counts}

-- There is room for 2500 bytes: two calls of write() return, and the third one waits with 572 bytes.
abbrev filled : List Event
filled = replicate 9 (server_runs false)

-- The client reads 1000 bytes, and goes away. The next write() still returns 1024; then the connection
-- is known to be broken.
abbrev ended : List Event
ended =
    filled
    ++ reads 1000
      ∷ server_runs false
      ∷ closes
      ∷ discards 2072
      ∷ server_runs false
      ∷ server_runs false
      ∷ replicate 2 (server_runs true)

writer_result :
    ((run (step 2500) filled start).total ≡ 2048)
    × ((run (step 2500) filled start).pc ≡ writing 572)
    × ((run (step 2500) ended start).total ≡ 4096)
    × ((run (step 2500) ended start).lost ≡ 2072)
    × ((run (step 2500) ended start).queued ≡ 1024)
    × ((run (step 2500) ended start).pc ≡ failed)
unfolding run step server_step start
writer_result = (refl, refl, refl, refl, refl, refl)

total_counts_example :
    let s = run (step 2500) ended start in
    (s.total ≡ (s.read_bytes + s.queued + s.lost - pending s.pc) % 2 ^ 64)
    × (s.queued ≤ 2500)
    × ((s.closed ≡ true) ⊎ (s.lost ≡ 0))
total_counts_example = total_counts 2500 ended
