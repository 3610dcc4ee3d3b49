-- ===== src/Race/PosixSem/Tests.antt =====
-- Runs of posix-sem-fixed-race.c.
use unix_linux_prog_in_c_src.Base.{◌≡◌, true, none, some, List, ◌∷◌, ◌++◌, refl, run, replicate}
use unix_linux_prog_in_c_src.Race.{parent, child, done}
use unix_linux_prog_in_c_src.Race.PosixSem.{start, Event, turn, sigint, step}

-- The parent is between its stores when the child comes to sem_wait, and is blocked.
abbrev contended : List Event
contended = replicate 5 (turn parent) ++ replicate 2 (turn child)

-- Both get SIGINT, finish their rounds and end.
abbrev ended : List Event
ended =
    contended
    ++ (sigint parent ∷ sigint child ∷ replicate 5 (turn parent))
    ++ replicate 12 (turn child)
    ++ replicate 3 (turn parent)

ended_result :
    let s = run step ended (start none) in
    (s.first.pc ≡ done 0)
    × (s.second.pc ≡ done 0)
    × (s.shared.stats ≡ some (0, 1))
    × (s.shared.unlinked ≡ true)
unfolding run step start
ended_result = (refl, refl, refl, refl)
