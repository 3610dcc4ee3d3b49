-- ===== src/Race/PosixSem/Uninterrupted.antt =====
-- posix-sem-fixed-race.c counts no race while the semaphore starts at 1 and no sem_wait is
-- interrupted.
use unix_linux_prog_in_c_src.Base.{
  ℕ, ◌+◌, ◌≤◌, ◌≡◌, ◌⊎◌, true, none, some, List, refl, arith, run, run-keeps_of_all, All,
}
use unix_linux_prog_in_c_src.Race.{Who, parent, child, Pc, loop, check, load0, load1, Proc, mark}
use unix_linux_prog_in_c_src.Race.Inside.{holds, is_dirty, Seen, NoneCounted, said_none}
use unix_linux_prog_in_c_src.Race.PosixSem.{
  Shared, State, start, Event, turn, sigint, interrupted, step,
}

-- Between the parent `p` and the child `q`.
record Safe (m : Shared) (p q : Proc) : Type 0 where
  one_holds : m.sem + holds p.pc + holds q.pc ≡ 1
  same : (is_dirty p.pc ≡ true) ⊎ ((is_dirty q.pc ≡ true) ⊎ (m.mem.b0 ≡ m.mem.b1))
  seen_p : Seen (mark parent) m.mem p.pc
  seen_q : Seen (mark child) m.mem q.pc
  races_p : p.races ≡ 0
  races_q : q.races ≡ 0
  stats : NoneCounted m.stats

abbrev SafeState : State → Type 0
SafeState s = Safe s.shared s.first s.second

abbrev pub NotInterrupted : Event → Type 0
NotInterrupted (turn who) = Unit
NotInterrupted (sigint who) = Unit
NotInterrupted (interrupted who) = ⊥

module _ (s : State) (v : SafeState s) where
  parent-Safe : (pc : Pc) → s.first.pc ≡ pc → SafeState (step (turn parent) s)
  unfolding step
  parent-Safe loop e = ground arith
  parent-Safe (check load0) e = ground arith
  parent-Safe (check (load1 x)) e = ground arith
  parent-Safe (check _) e = ground arith
  parent-Safe _ e = ground arith

  child-Safe : (pc : Pc) → s.second.pc ≡ pc → SafeState (step (turn child) s)
  unfolding step
  child-Safe loop e = ground arith
  child-Safe (check load0) e = ground arith
  child-Safe (check (load1 x)) e = ground arith
  child-Safe (check _) e = ground arith
  child-Safe _ e = ground arith

  sigint-Safe : (who : Who) → SafeState (step (sigint who) s)
  unfolding step
  sigint-Safe parent = ground arith
  sigint-Safe child = ground arith

step-Safe : (e : Event) (s : State) → NotInterrupted e → SafeState s → SafeState (step e s)
step-Safe (turn parent) s d v = parent-Safe s v s.first.pc refl
step-Safe (turn child) s d v = child-Safe s v s.second.pc refl
step-Safe (sigint who) s d v = sigint-Safe s v who
step-Safe (interrupted who) s d v = absurd d

start-Safe : SafeState (start none)
unfolding start
start-Safe = ground arith

run-Safe : (es : List Event) → All NotInterrupted es → SafeState (run step es (start none))
run-Safe es d =
    run-keeps_of_all NotInterrupted SafeState step step-Safe es (start none) d start-Safe

-- If there was no semaphore of the name before, then after any schedule in which no blocked call is
-- interrupted, neither process has counted a race, the statistics that were printed last, if any,
-- say 0 races, and at most one process is between sem_wait and sem_post.
pub uninterrupted_never_races :
    (es : List Event)
    → All NotInterrupted es
    → let s = run step es (start none) in
      (s.first.races ≡ 0)
      × (s.second.races ≡ 0)
      × ((s.shared.stats ≡ none) ⊎ ((n : ℕ) × (s.shared.stats ≡ some (0, n))))
      × (holds s.first.pc + holds s.second.pc ≤ 1)
uninterrupted_never_races es d =
    let v = run-Safe es d in
    (
      ground (arith, v),
      ground (arith, v),
      said_none (run step es (start none)).shared.stats v.stats,
      omega (arith, v),
    )
