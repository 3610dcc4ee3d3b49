-- ===== src/FileLocking/Tests.antt =====
-- Runs of fcntl-locking.c, and the theorem there.
use unix_linux_prog_in_c_src.Base.{
  ℕ, not, ◌&&◌, false, ◌≡◌, ◌≢◌, ◌⊎◌, List, [], ◌∷◌, ◌++◌, refl, run, replicate, none, some,
}
use unix_linux_prog_in_c_src.FileLocking.{
  c, shared_fd, no_lock, exclusive_fd, start, Event, child_runs, parent_runs, step, put_char,
}
use unix_linux_prog_in_c_src.FileLocking.Uniform.{Uniform, dump_uniform}
use unix_linux_prog_in_c_src.FileLocking.Options.{
  opt_l, opt_L, unknown, configure, configure-append,
}
use unix_linux_prog_in_c_src.FileLocking.Group.{
  group_start, GroupEvent, goes, child_ends, group_step,
}
use unix_linux_prog_in_c_src.FileLocking.Holders.{inside, has_lock}
use unix_linux_prog_in_c_src.FileLocking.Ends.{reads, locks_of_live}

-- Child 2 writes the whole file, child 3 the first half; then the parent dumps the file.
abbrev both : List Event
both = replicate 211 (child_runs 2) ++ replicate 105 (child_runs 3) ++ replicate 2 parent_runs

both_result :
    let s = run (step exclusive_fd) both (start exclusive_fd) in
    (s.shown 34 ≡ 43) × (s.shown 35 ≡ 124) × (s.shown 36 ≡ 35) × (s.shown 69 ≡ 35) × (s.size ≡ 70)
unfolding run step start c
both_result = (refl, refl, refl, refl, refl)

-- With a shared descriptor: child 0 has the lock and is about to seek to 50; child 1 seeks to 0, then
-- child 0 seeks, and child 1 writes there without the lock.
abbrev crossed : List Event
crossed =
    replicate 151 (child_runs 0) ++ (child_runs 1 ∷ child_runs 1 ∷ child_runs 0 ∷ child_runs 1 ∷ [])

crossed_result :
    let s = run (step shared_fd) crossed (start shared_fd) in
    (s.writer ≡ some 0) × (s.file 49 ≡ 47) × (s.file 50 ≡ 95) × (s.pc 0 ≡ put_char 51)
unfolding run step start c
crossed_result = (refl, refl, refl, refl)

-- With a shared descriptor the file gets larger: child 1 writes behind the last byte of child 0.
abbrev beyond : List Event
beyond =
    replicate 208 (child_runs 0)
    ++ (child_runs 1 ∷ child_runs 1 ∷ child_runs 0 ∷ child_runs 0 ∷ child_runs 1 ∷ [])

beyond_result : (run (step shared_fd) beyond (start shared_fd)).size ≡ 71
unfolding run step start
beyond_result = refl

-- The set-up extends the file to one byte, or not at all.
start_size : ((start shared_fd).size ≡ 1) × ((start exclusive_fd).size ≡ 0)
unfolding start
start_size = (refl, refl)

dump_uniform_example :
    let s = run (step exclusive_fd) both (start exclusive_fd) in
    Uniform s.shown × ((s.writer ≢ none) ⊎ Uniform s.file)
dump_uniform_example = dump_uniform both

options_result :
    (configure 1 no_lock (opt_L ∷ opt_l ∷ []) ≡ some shared_fd)
    × (configure 2 no_lock [] ≡ none)
    × (configure 1 no_lock (unknown ∷ []) ≡ none)
unfolding configure
options_result = (refl, refl, refl)

configure-append_result : configure 1 no_lock (opt_l ∷ opt_L ∷ []) ≡ some exclusive_fd
configure-append_result = (configure-append no_lock (opt_l ∷ []) (tt, tt)).1

-- Child 2 writes the whole file, and child 3 is in the second half.
abbrev second_half : List GroupEvent
second_half = replicate 211 (goes (child_runs 2)) ++ replicate 111 (goes (child_runs 3))

-- There child 3 ends; then the parent gets its lock, and dumps a second half of two characters.
abbrev ended : List GroupEvent
ended = second_half ++ child_ends 3 ∷ goes parent_runs ∷ goes parent_runs ∷ []

ended_result :
    let g = run (group_step exclusive_fd) ended (group_start exclusive_fd) in
    (g.state.writer ≡ none) × (g.state.shown 36 ≡ 43) × (g.state.shown 37 ≡ 35)
unfolding run group_step group_start step start c
ended_result = (refl, refl, refl)

locks_of_live_example :
    let g = run (group_step exclusive_fd) ended (group_start exclusive_fd) in
    ((i : ℕ) → has_lock g.state.writer i ≡ (inside (g.state.pc i) && not (g.child_gone i)))
    × (g.state.reading ≡ (reads g.state.parent_pc && not g.parent_gone))
    × ((g.state.writer ≡ none) ⊎ (g.state.reading ≡ false))
locks_of_live_example = locks_of_live exclusive_fd ended refl
