-- ===== src/Race/Plain/Tests.antt =====
-- Runs of race.c.
use unix_linux_prog_in_c_src.Base.{◌≡◌, some, List, ◌∷◌, ◌++◌, refl, run, replicate}
use unix_linux_prog_in_c_src.Race.{child, done}
use unix_linux_prog_in_c_src.Race.Plain.{start, Event, turn, sigint, step}
use unix_linux_prog_in_c_src.Race.Plain.Races.{rounds}

-- After two rounds with a race each, the child gets SIGINT and ends.
abbrev child_ends : List Event
child_ends = rounds 2 ++ (sigint child ∷ replicate 2 (turn child))

child_ends_result :
    let s = run step child_ends start in (s.second.pc ≡ done 0) × (s.stats ≡ some (2, 2))
unfolding run step start
child_ends_result = (refl, refl)
