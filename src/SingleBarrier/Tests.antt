-- ===== src/SingleBarrier/Tests.antt =====
-- A run of implement-barrier.c with three threads.
use unix_linux_prog_in_c_src.Base.{◌≡◌, List, ◌++◌, refl, run, replicate}
use unix_linux_prog_in_c_src.SingleBarrier.{start, Event, runs, step, wait, say}
use unix_linux_prog_in_c_src.SingleBarrier.Deadlock.{jam}

-- Without the overtaking a round ends well.
abbrev fair : List Event
fair = replicate 4 (runs 0) ++ replicate 4 (runs 1) ++ replicate 3 (runs 0)

fair_result :
    let s = run (step 2) fair start in
    (s.pc 0 ≡ say) × (s.pc 1 ≡ say) × (s.newlines ≡ 1) × (s.on_barrier ≡ 2)
unfolding run step start
fair_result = (refl, refl, refl, refl)

jam_result :
    let s = run (step 3) (jam 3) start in (s.newlines ≡ 1) × (s.on_barrier ≡ 4) × (s.pc 1 ≡ wait)
unfolding run step start
jam_result = (refl, refl, refl)
