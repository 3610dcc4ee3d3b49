-- ===== src/Race/SysvSem/Tests.antt =====
-- Runs of sem-fixed-race.c, and the theorems there.
use unix_linux_prog_in_c_src.Base.{
  ℕ, ◌≡◌, ◌⊎◌, true, none, some, List, ◌∷◌, ◌++◌, refl, run, replicate,
}
use unix_linux_prog_in_c_src.Race.{parent, child, acquire, done}
use unix_linux_prog_in_c_src.Race.SysvSem.{start, Event, turn, sigint, step}
use unix_linux_prog_in_c_src.Race.SysvSem.NoRace.{sem_never_races}

-- The parent is between its stores when the child comes to the semaphore.
abbrev contended : List Event
contended = replicate 5 (turn parent) ++ replicate 2 (turn child)

-- Both get SIGINT, finish their rounds and end.
abbrev ended : List Event
ended =
    contended
    ++ (sigint parent ∷ sigint child ∷ replicate 5 (turn parent))
    ++ replicate 12 (turn child)
    ++ replicate 3 (turn parent)

contended_result :
    let s = run step contended start in
    (s.shared.sem ≡ 0) × (s.second.pc ≡ acquire) × (s.shared.mem.b1 ≡ 1) × (s.shared.mem.b0 ≡ 0)
unfolding run step start
contended_result = (refl, refl, refl, refl)

ended_result :
    let s = run step ended start in
    (s.first.pc ≡ done 0)
    × (s.second.pc ≡ done 0)
    × (s.shared.stats ≡ some (0, 1))
    × (s.shared.removed ≡ true)
unfolding run step start
ended_result = (refl, refl, refl, refl)

sem_never_races_example :
    let s = run step ended start in
    (s.first.races ≡ 0)
    × (s.second.races ≡ 0)
    × ((s.shared.stats ≡ none) ⊎ ((n : ℕ) × (s.shared.stats ≡ some (0, n))))
sem_never_races_example = sem_never_races ended
