-- ===== src/Stages/Tests.antt =====
-- Runs of pthread-barrier.c, and the theorems there.
use unix_linux_prog_in_c_src.Base.{ℕ, zero, suc, ◌<◌, ◌≡◌, refl, arith, List, [], ◌∷◌, run}
use native.Mathlib.Decide.{dec_lt}
use unix_linux_prog_in_c_src.Stages.{reach, finished, start, Event, step}
use unix_linux_prog_in_c_src.Stages.Together.{level, stages_together}
use unix_linux_prog_in_c_src.Stages.Last.{lasts, one_last}

abbrev on : ℕ → Event
on i = record { thread = i; random = 5; chosen = 6 }

-- So many rounds in which each thread makes a step.
abbrev rounds : ℕ → List Event
rounds zero = []
rounds (suc n) = on 0 ∷ on 1 ∷ on 2 ∷ on 3 ∷ on 4 ∷ on 5 ∷ on 6 ∷ on 7 ∷ rounds n

stages_result :
    ((run step (rounds 2) start).pc 7 ≡ reach 0)
    × ((run step (rounds 12) start).pc 7 ≡ finished)
    × (lasts 1 (run step (rounds 12) start).printed ≡ 1)
unfolding run step start lasts
stages_result = (refl, refl, refl)

stages_together_example :
    level ((run step (rounds 4) start).pc 0) ≡ level ((run step (rounds 4) start).pc 7)
stages_together_example = stages_together (rounds 4) 0 7 (omega arith) (omega arith)

abbrev Below : (ℕ → Type 0) → ℕ → Type 0
Below P zero = Unit
Below P (suc n) = P n × Below P n

below-all : (P : ℕ → Type 0) (n : ℕ) → Below P n → (i : ℕ) → i < n → P i
below-all P zero b i lt = elim lt [ ]
below-all P (suc n) b i lt = elim (dec_lt i n) [
  | yes below ↦ below-all P n b.1 i below
  | no last ↦ let e : i ≡ n = omega arith in rw e (b.0)
]

ended_result : (i : ℕ) → i < 8 → (run step (rounds 12) start).pc i ≡ finished
unfolding run step start
ended_result =
    below-all (λ i. (run step (rounds 12) start).pc i ≡ finished) 8
      (refl, (refl, (refl, (refl, (refl, (refl, (refl, (refl, tt))))))))

one_last_example : lasts 1 (run step (rounds 12) start).printed ≡ 1
one_last_example = one_last (rounds 12) 1 (omega arith) ended_result
