-- ===== src/Barrier/Tests.antt =====
-- Runs of implement-barrier-fixed.c with two threads, and the theorems there.
use unix_linux_prog_in_c_src.Base.{ℕ, ◌<◌, ◌≡◌, List, ◌++◌, refl, arith, run, replicate}
use unix_linux_prog_in_c_src.Barrier.{start, Event, runs, step, say, wait1, arrive}
use unix_linux_prog_in_c_src.Barrier.Rounds.{line_complete}
use unix_linux_prog_in_c_src.Barrier.Progress.{Moves, barrier_never_deadlocks}

-- Thread 0 waits on the barrier; thread 1 is about to arrive.
abbrev half_way : List Event
half_way = replicate 4 (runs 0) ++ replicate 2 (runs 1)

-- Thread 1 fills the round and waits in the second loop; thread 0 leaves the first one and wakes it;
-- both leave, and thread 1 is first on the barrier of the next round.
abbrev full : List Event
full = half_way ++ replicate 2 (runs 1) ++ replicate 4 (runs 0) ++ replicate 7 (runs 1)

half_way_result :
    let s = run (step 2) half_way start in
    (s.pc 0 ≡ wait1) × (s.pc 1 ≡ arrive) × (s.printed 0 ≡ 1) × (s.newlines ≡ 0)
unfolding run step start
half_way_result = (refl, refl, refl, refl)

full_result :
    let s = run (step 2) full start in
    (s.pc 0 ≡ say) × (s.pc 1 ≡ wait1) × (s.printed 1 ≡ 2) × (s.newlines ≡ 1) × (s.wokenup ≡ 2)
unfolding run step start
full_result = (refl, refl, refl, refl, refl)

line_complete_example :
    let s = step 2 (runs 1) (run (step 2) half_way start) in s.printed 0 ≡ s.newlines
line_complete_example =
    line_complete 2 half_way (runs 1) 0 (omega arith) (omega arith)
      (unfold run step start in omega arith)

barrier_never_deadlocks_example : (i : ℕ) × (i < 2) × Moves 2 (run (step 2) full start) i
barrier_never_deadlocks_example = barrier_never_deadlocks 2 full (omega arith)
