-- ===== src/Mutexes/Tests.antt =====
-- Runs of race.c and race-fixed.c, and the theorem there.
use unix_linux_prog_in_c_src.Base.{ℕ, ◌≡◌, refl, true, false, List, [], ◌∷◌, run}
use unix_linux_prog_in_c_src.Mutexes.{start, step}
use unix_linux_prog_in_c_src.Mutexes.Silent.{fixed_silent}

-- Thread 0 is between its two writes when thread 1 compares.
abbrev crossed : List ℕ
crossed = 1 ∷ 1 ∷ 1 ∷ 0 ∷ 0 ∷ 0 ∷ []

crossed_result : (run (step false) crossed (start false)).marks ≡ 0 ∷ []
unfolding run step start
crossed_result = refl

fixed_silent_example :
    (run (step true) (0 ∷ 0 ∷ 1 ∷ 1 ∷ 0 ∷ 0 ∷ 0 ∷ 0 ∷ 1 ∷ 1 ∷ 1 ∷ []) (start true)).marks ≡ []
fixed_silent_example = fixed_silent (0 ∷ 0 ∷ 1 ∷ 1 ∷ 0 ∷ 0 ∷ 0 ∷ 0 ∷ 1 ∷ 1 ∷ 1 ∷ [])
