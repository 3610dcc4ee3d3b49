-- ===== src/Atfork/Hang.antt =====
-- With -d, atfork.c can hang.
use unix_linux_prog_in_c_src.Base.{
  ◌≡◌, ◌≢◌, refl, arith, Bool, true, false, some, List, if-cases, run, run-keeps,
}
use unix_linux_prog_in_c_src.Atfork.{
  main, MainPc, lock, create, done, ForkerPc, unborn, begin, before, forking, after, locking,
  unlocking, finished, lost, State, start, is_finished, main_step, forker_step, child_step, Event,
  main_runs, forker_runs, child_runs, step,
}
use unix_linux_prog_in_c_src.Atfork.Progress.{early, is_unborn, joined}

abbrev past_fork : ForkerPc → Bool
past_fork unborn = false
past_fork begin = false
past_fork before = false
past_fork forking = false
past_fork after = true
past_fork locking = true
past_fork unlocking = true
past_fork finished = true

-- The child waits for a mutex whose holder it does not have.
record Stuck (s : State) : Type 0 where
  waits : s.child_pc ≡ locking
  held : s.child_mutex ≡ lost
  forked : past_fork s.forker_pc ≡ true
  open_end : s.main_pc ≢ done
  created : (s.main_pc ≢ lock) × (s.main_pc ≢ create)

main_step-Stuck : (p : MainPc) (s : State) → s.main_pc ≡ p → Stuck s → Stuck (main_step p s)
unfolding main_step
main_step-Stuck lock s e v = absurd (v.created.0 e)
main_step-Stuck create s e v = absurd (v.created.1 e)
main_step-Stuck _ s e v = ground arith

forker_step-Stuck :
    (ok : Bool) (p : ForkerPc) (s : State)
    → s.forker_pc ≡ p
    → Stuck s
    → Stuck (forker_step false ok p s)
unfolding forker_step
forker_step-Stuck ok unborn s e v = v
forker_step-Stuck ok _ s e v = ground arith

child_step-Stuck : (p : ForkerPc) (s : State) → s.child_pc ≡ p → Stuck s → Stuck (child_step p s)
unfolding child_step
child_step-Stuck unborn s e v = v
child_step-Stuck _ s e v = ground arith

step-Stuck : (e : Event) (s : State) → Stuck s → Stuck (step false e s)
unfolding step
step-Stuck main_runs s v =
    if-cases Stuck s.exited s (main_step s.main_pc s) (λ t. v)
      (λ t. main_step-Stuck s.main_pc s refl v)
step-Stuck (forker_runs ok) s v =
    if-cases Stuck s.exited s (forker_step false ok s.forker_pc s) (λ t. v)
      (λ t. forker_step-Stuck ok s.forker_pc s refl v)
step-Stuck child_runs s v = child_step-Stuck s.child_pc s refl v

-- What holds without the handlers.
record Loose (s : State) : Type 0 where
  born : is_unborn s.forker_pc ≡ early s.main_pc
  ended : joined s.main_pc ≡ true → is_finished s.forker_pc ≡ true

main_step-Loose : (p : MainPc) (s : State) → s.main_pc ≡ p → Loose s → Loose (main_step p s)
unfolding main_step
main_step-Loose lock s e v = ground arith
main_step-Loose _ s e v = ground arith

forker_step-Loose :
    (ok : Bool) (p : ForkerPc) (s : State)
    → s.forker_pc ≡ p
    → Loose s
    → Loose (forker_step false ok p s)
unfolding forker_step
forker_step-Loose ok unborn s e v = v
forker_step-Loose ok _ s e v = ground arith

child_step-Loose : (p : ForkerPc) (s : State) → Loose s → Loose (child_step p s)
unfolding child_step
child_step-Loose unborn s v = v
child_step-Loose _ s v = ground arith

step-Loose : (e : Event) (s : State) → Loose s → Loose (step false e s)
unfolding step
step-Loose main_runs s v =
    if-cases Loose s.exited s (main_step s.main_pc s) (λ t. v)
      (λ t. main_step-Loose s.main_pc s refl v)
step-Loose (forker_runs ok) s v =
    if-cases Loose s.exited s (forker_step false ok s.forker_pc s) (λ t. v)
      (λ t. forker_step-Loose ok s.forker_pc s refl v)
step-Loose child_runs s v = child_step-Loose s.child_pc s v

start-Loose : Loose start
unfolding start
start-Loose = ground arith

fork-Stuck :
    (s : State)
    → Loose s
    → s.mutex ≡ some main
    → s.forker_pc ≡ forking
    → s.exited ≡ false
    → Stuck (step false (forker_runs true) s)
unfolding step
fork-Stuck s v h f x =
    if-cases Stuck s.exited s (forker_step false true s.forker_pc s)
      (λ t. absurd (ground (arith, t, x))) (λ t. fork_stuck s.forker_pc s refl v h f)
  where
    fork_stuck :
        (p : ForkerPc) (s : State)
        → s.forker_pc ≡ p
        → Loose s
        → s.mutex ≡ some main
        → p ≡ forking
        → Stuck (forker_step false true p s)
    fork_stuck forking s e v h f = ground arith
    fork_stuck _ s e v h f = ground arith

-- Without the handlers (-d), if the fork comes while `main` holds the mutex, then whatever follows
-- the child stays blocked at the mutex, and `main` does not end.
pub fork_without_handler_hangs :
    (es fs : List Event)
    → (run (step false) es start).mutex ≡ some main
    → (run (step false) es start).forker_pc ≡ forking
    → (run (step false) es start).exited ≡ false
    → let s = run (step false) fs (step false (forker_runs true) (run (step false) es start)) in
      (s.child_pc ≡ locking) × (s.main_pc ≢ done)
fork_without_handler_hangs es fs h f x =
    let s : State = run (step false) es start in
    let v = run-keeps Loose (step false) step-Loose es start start-Loose in
    let w =
      run-keeps Stuck (step false) step-Stuck fs (step false (forker_runs true) s)
        (fork-Stuck s v h f x) in
    (w.waits, w.open_end)
