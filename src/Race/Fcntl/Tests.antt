-- ===== src/Race/Fcntl/Tests.antt =====
-- Runs of fcntl-fixed-race.c, and the theorems there.
use unix_linux_prog_in_c_src.Base.{◌≡◌, true, some, List, [], ◌∷◌, ◌++◌, refl, run, replicate}
use unix_linux_prog_in_c_src.Race.{parent, child, acquire, done}
use unix_linux_prog_in_c_src.Race.Fcntl.{start, Event, turn, refused, step}

-- The parent is between its stores when the child comes to the lock, and is blocked.
abbrev contended : List Event
contended = replicate 5 (turn parent) ++ replicate 2 (turn child)

-- The child's wait is interrupted; the child prints its statistics and ends.
abbrev interrupted : List Event
interrupted = contended ++ (refused child true ∷ [])

contended_result :
    let s = run step contended start in
    (s.shared.owner ≡ some parent)
    × (s.second.pc ≡ acquire)
    × (s.shared.mem.b1 ≡ 1)
    × (s.shared.mem.b0 ≡ 0)
unfolding run step start
contended_result = (refl, refl, refl, refl)

interrupted_result :
    let s = run step interrupted start in
    (s.second.pc ≡ done 1) × (s.shared.stats ≡ some (0, 0)) × (s.shared.owner ≡ some parent)
unfolding run step start
interrupted_result = (refl, refl, refl)
