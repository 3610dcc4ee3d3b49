-- ===== src/Arguments/Tests.antt =====
-- Runs of correct-use-of-args.c and wrong-use-of-arg.c, and the theorems there.
use unix_linux_prog_in_c_src.Base.{
  ℕ, zero, suc, ◌<◌, ◌≡◌, refl, true, false, List, [], ◌∷◌, ◌++◌, run,
}
use unix_linux_prog_in_c_src.Arguments.{ended, Line, start, Event, main_runs, thread_runs, step}
use unix_linux_prog_in_c_src.Arguments.Own.{lines_of, all_lines_of}
use unix_linux_prog_in_c_src.Arguments.End.{own_numbers_printed}

abbrev mains : ℕ → List Event
mains zero = []
mains (suc n) = main_runs ∷ mains n

abbrev thread_rounds : ℕ → List Event
thread_rounds zero = []
thread_rounds (suc n) =
    thread_runs 0 ∷ thread_runs 1 ∷ thread_runs 2 ∷ thread_runs 3 ∷ thread_runs 4 ∷ thread_rounds n

-- All threads are created, run, and are joined.
abbrev whole : List Event
whole = mains 11 ++ thread_rounds 4 ++ mains 6

-- The first thread prints before the loop variable is incremented, and after that, and at the end.
abbrev early : List Event
early = main_runs ∷ thread_runs 0 ∷ main_runs ∷ thread_runs 0 ∷ mains 9 ++ thread_runs 0 ∷ []

abbrev line : (thread value round : ℕ) → Line
line thread value round = record { thread = thread; value = value; round = round }

arguments_result :
    ((run (step true) whole start).main_pc ≡ ended)
    × ((run (step false) whole start).main_pc ≡ ended)
    × ((run (step false) early start).printed ≡ line 0 5 2 ∷ line 0 1 1 ∷ line 0 0 0 ∷ [])
    × ((run (step true) early start).printed ≡ line 0 0 2 ∷ line 0 0 1 ∷ line 0 0 0 ∷ [])
unfolding run step start
arguments_result = (refl, refl, refl, refl)

own_numbers_printed_example :
    (fs : List Event) × let s = run (step true) fs (run (step true) (main_runs ∷ []) start) in
      (s.main_pc ≡ ended)
      × ((k : ℕ) → k < 5 → (all_lines_of k s.printed ≡ 3) × (lines_of k s.printed ≡ 3))
own_numbers_printed_example = own_numbers_printed (main_runs ∷ [])
