-- ===== src/TalkingHeads/Tests.antt =====
-- Runs of talking-heads.c with two children and one place, and the theorems there.
use unix_linux_prog_in_c_src.Base.{
  ◌+◌, ◌≤◌, ◌≡◌, List, [], ◌∷◌, ◌++◌, refl, arith, run, replicate, true, some, none,
}
use unix_linux_prog_in_c_src.TalkingHeads.{
  said, last_said, configure, acquire, talking, done, start, Event, child_runs, sigint, parent_runs,
  step,
}
use unix_linux_prog_in_c_src.TalkingHeads.Limit.{talkers, talkers-le}
use unix_linux_prog_in_c_src.TalkingHeads.Parent.{parent_outlives}

-- Child 0 talks, child 1 is blocked in sem_wait.
abbrev one_talks : List Event
one_talks = replicate 2 (child_runs 0 1) ++ replicate 2 (child_runs 1 0)

one_talks_result :
    let s = run (step 2) one_talks (start 2 1) in
    (s.sem ≡ 0) × (s.pc 1 ≡ acquire) × (s.pc 0 ≡ talking 2)
unfolding run step start
one_talks_result = (refl, refl, refl)

-- A second child talks for two seconds; then both are told to end, and the parent cleans up.
abbrev whole : List Event
whole =
    one_talks
    ++ replicate 4 (child_runs 0 0)
    ++ (sigint 0 ∷ sigint 1 ∷ child_runs 0 0 ∷ parent_runs ∷ [])
    ++ replicate 5 (child_runs 1 0)
    ++ replicate 2 parent_runs

whole_result :
    let s = run (step 2) whole (start 2 1) in
    (s.output ≡ last_said 2 ∷ last_said 1 ∷ said 1 ∷ []) × (s.unlinked ≡ true) × (s.pc 1 ≡ done)
unfolding run step start
whole_result = (refl, refl, refl)

configure_result :
    (configure 3 5 2 ≡ some (5, 2))
    × (configure 2 5 2 ≡ none)
    × (configure 3 11 2 ≡ none)
    × (configure 3 5 6 ≡ none)
unfolding configure
configure_result = (refl, refl, refl, refl)

talkers-le_example :
    let s = run (step 2) one_talks (start 2 1) in (s.sem + talkers 2 s ≡ 1) × (talkers 2 s ≤ 1)
talkers-le_example = talkers-le 2 1 one_talks (tt, (tt, (tt, (tt, tt))))

parent_outlives_example : let s = run (step 2) whole (start 2 1) in (s.reaped ≡ 2) × (s.pc 1 ≡ done)
parent_outlives_example =
    parent_outlives 2 1 whole 1 (ground arith) (omega arith) (unfold run step start in refl)
