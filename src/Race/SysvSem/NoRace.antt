-- ===== src/Race/SysvSem/NoRace.antt =====
-- No process of sem-fixed-race.c ever counts a race.
use unix_linux_prog_in_c_src.Base.{
  ℕ, ◌+◌, ◌≤◌, ◌≡◌, ◌⊎◌, Bool, true, false, none, some, List, refl, arith, run, run-keeps,
}
use unix_linux_prog_in_c_src.Race.{
  Who, parent, child, Pc, loop, acquire, check, release, bump, reap, done, load0, load1, tally,
  store1, store0, Proc, is_done, mark,
}
use unix_linux_prog_in_c_src.Race.Inside.{holds, is_dirty, Seen, NoneCounted, said_none}
use unix_linux_prog_in_c_src.Race.SysvSem.{
  Shared, Local, advance, refuse, State, start, Event, turn, refused, sigint, step,
}

-- Between a process `p` and the other one, `q`.
record Safe (who other : Who) (m : Shared) (p q : Proc) : Type 0 where
  one_holds : m.sem + holds p.pc + holds q.pc ≤ 1
  same : (is_dirty p.pc ≡ true) ⊎ ((is_dirty q.pc ≡ true) ⊎ (m.mem.b0 ≡ m.mem.b1))
  seen_p : Seen (mark who) m.mem p.pc
  seen_q : Seen (mark other) m.mem q.pc
  races_p : p.races ≡ 0
  races_q : q.races ≡ 0
  stats : NoneCounted m.stats

swap : {who other : Who} {m : Shared} {p q : Proc} → Safe who other m p q → Safe other who m q p
swap v = ground (arith, v)

module _ (who other : Who) (other_done : Bool) (q : Proc) where
  advance-Safe :
      (pc : Pc) (l : Local)
      → l.proc.pc ≡ pc
      → Safe who other l.shared l.proc q
      → let l' = advance who other_done pc l in Safe who other l'.shared l'.proc q
  unfolding advance
  advance-Safe loop l e v = ground arith
  advance-Safe acquire l e v = ground arith
  advance-Safe (check load0) l e v = ground arith
  advance-Safe (check (load1 x)) l e v = ground arith
  advance-Safe (check tally) l e v = ground arith
  advance-Safe (check store1) l e v = ground arith
  advance-Safe (check store0) l e v = ground arith
  advance-Safe release l e v = ground arith
  advance-Safe bump l e v = ground arith
  advance-Safe reap l e v = ground arith
  advance-Safe (done status) l e v = v

  refuse-Safe :
      (eintr : Bool) (pc : Pc) (l : Local)
      → l.proc.pc ≡ pc
      → Safe who other l.shared l.proc q
      → let l' = refuse who eintr pc l in Safe who other l'.shared l'.proc q
  unfolding refuse
  refuse-Safe eintr acquire l e v = ground arith
  refuse-Safe eintr release l e v = ground arith
  refuse-Safe eintr (check b) l e v = v
  refuse-Safe eintr _ l e v = v

abbrev SafeState : State → Type 0
SafeState s = Safe parent child s.shared s.first s.second

start-Safe : SafeState start
unfolding start
start-Safe = ground arith

step-Safe : (e : Event) (s : State) → SafeState s → SafeState (step e s)
unfolding step
step-Safe (turn parent) s v =
    advance-Safe parent child (is_done s.second.pc) s.second s.first.pc
      (record { shared = s.shared; proc = s.first }) refl v
step-Safe (turn child) s v = swap (
    advance-Safe child parent (is_done s.first.pc) s.first s.second.pc
      (record { shared = s.shared; proc = s.second }) refl (swap v))
step-Safe (refused parent eintr) s v =
    refuse-Safe parent child false s.second eintr s.first.pc
      (record { shared = s.shared; proc = s.first }) refl v
step-Safe (refused child eintr) s v = swap (
    refuse-Safe child parent false s.first eintr s.second.pc
      (record { shared = s.shared; proc = s.second }) refl (swap v))
step-Safe (sigint parent) s v = ground (arith, v)
step-Safe (sigint child) s v = ground (arith, v)

run-Safe : (es : List Event) → SafeState (run step es start)
run-Safe es = run-keeps SafeState step step-Safe es start start-Safe

-- After any schedule, with any calls of semop failing and any signals, neither process has counted
-- a race, and the statistics that were printed last, if any, say 0 races.
pub sem_never_races :
    (es : List Event)
    → let s = run step es start in
      (s.first.races ≡ 0)
      × (s.second.races ≡ 0)
      × ((s.shared.stats ≡ none) ⊎ ((n : ℕ) × (s.shared.stats ≡ some (0, n))))
sem_never_races es =
    let v = run-Safe es in
    (ground (arith, v), ground (arith, v), said_none (run step es start).shared.stats v.stats)

-- After any schedule, at most one process is between its two calls of semop.
pub sem_one_inside :
    (es : List Event) → let s = run step es start in holds s.first.pc + holds s.second.pc ≤ 1
sem_one_inside es = omega (arith, run-Safe es)
