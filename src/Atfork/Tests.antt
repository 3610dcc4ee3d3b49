-- ===== src/Atfork/Tests.antt =====
-- Runs of atfork.c, and the theorems there.
use unix_linux_prog_in_c_src.Base.{
  ◌≤◌, ◌≡◌, refl, true, false, none, some, List, [], ◌∷◌, ◌++◌, length, replicate, run,
}
use unix_linux_prog_in_c_src.Atfork.{
  done, forking, before, finished, free, start, Event, main_runs, forker_runs, child_runs, step,
  configure, dash, letter_d,
}
use unix_linux_prog_in_c_src.Atfork.Progress.{atfork_completes}

-- `main` has the mutex and sleeps; `forker` is about to fork, or in `before`.
abbrev asleep : List Event
asleep = main_runs ∷ main_runs ∷ forker_runs true ∷ forker_runs true ∷ []

asleep_result :
    ((run (step true) asleep start).forker_pc ≡ before)
    × ((run (step false) (main_runs ∷ main_runs ∷ forker_runs true ∷ []) start).forker_pc ≡ forking)
unfolding run step start
asleep_result = (refl, refl)

abbrev rest : List Event
rest =
    main_runs
    ∷ (replicate 5 (forker_runs true) ++ (replicate 3 child_runs ++ replicate 3 main_runs))

whole_result :
    let s = run (step true) (asleep ++ rest) start in
    (s.main_pc ≡ done) × (s.child_pc ≡ finished) × (s.mutex ≡ none)
unfolding run step start
whole_result = (refl, refl, refl)

configure_result :
    (configure length [] ≡ some (true, 5))
    × (configure length ((dash ∷ letter_d ∷ []) ∷ []) ≡ some (false, 5))
    × (configure length ((dash ∷ letter_d ∷ []) ∷ (51 ∷ []) ∷ []) ≡ some (false, 1))
    × (configure length ((51 ∷ 51 ∷ []) ∷ []) ≡ some (true, 2))
    × (configure length ((dash ∷ []) ∷ []) ≡ none)
    × (configure length ((51 ∷ []) ∷ (51 ∷ []) ∷ []) ≡ none)
unfolding configure
configure_result = (refl, refl, refl, refl, refl, refl)

atfork_completes_example :
    (fs : List Event) × (length fs ≤ 17)
    × (let s = run (step true) fs (run (step true) asleep start) in
        (s.main_pc ≡ done) × (s.child_pc ≡ finished) × (s.child_mutex ≡ free))
atfork_completes_example = atfork_completes asleep (unfold run step start in refl)
