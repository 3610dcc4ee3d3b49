-- ===== src/Race/Fcntl/NoRace.antt =====
-- No process of fcntl-fixed-race.c ever counts a race.
use unix_linux_prog_in_c_src.Base.{
  ◌+◌, ◌≤◌, ◌≡◌, ◌⊎◌, Bool, true, Option, none, some, List, refl, arith, run, run-keeps, ◌==◌,
}
use unix_linux_prog_in_c_src.Race.{
  Who, parent, child, Pc, loop, acquire, check, release, load0, load1, Proc, mark,
}
use unix_linux_prog_in_c_src.Race.Inside.{holds, is_dirty, Seen, NoneCounted}
use unix_linux_prog_in_c_src.Race.Fcntl.{
  Shared, owned_by, State, start, Event, turn, refused, sigint, step,
}

-- Between the parent `p` and the child `q`.
pub record Safe (m : Shared) (p q : Proc) : Type 0 where
  pub parent_owns : (holds p.pc == 1) ≡ owned_by parent m.owner
  pub child_owns : (holds q.pc == 1) ≡ owned_by child m.owner
  pub same : (is_dirty p.pc ≡ true) ⊎ ((is_dirty q.pc ≡ true) ⊎ (m.mem.b0 ≡ m.mem.b1))
  pub seen_p : Seen (mark parent) m.mem p.pc
  pub seen_q : Seen (mark child) m.mem q.pc
  pub races_p : p.races ≡ 0
  pub races_q : q.races ≡ 0
  pub stats : NoneCounted m.stats

abbrev pub SafeState : State → Type 0
SafeState s = Safe s.shared s.first s.second

module _ (s : State) (v : SafeState s) where
  parent-Safe : (pc : Pc) → s.first.pc ≡ pc → SafeState (step (turn parent) s)
  unfolding step
  parent-Safe loop e = ground arith
  parent-Safe (check load0) e = ground arith
  parent-Safe (check (load1 x)) e = ground arith
  parent-Safe (check _) e = ground arith
  parent-Safe _ e = ground arith

  child-Safe : (pc : Pc) → s.second.pc ≡ pc → SafeState (step (turn child) s)
  unfolding step
  child-Safe loop e = ground arith
  child-Safe (check load0) e = ground arith
  child-Safe (check (load1 x)) e = ground arith
  child-Safe (check _) e = ground arith
  child-Safe _ e = ground arith

  parent_refused-Safe :
      (eintr : Bool) (pc : Pc) → s.first.pc ≡ pc → SafeState (step (refused parent eintr) s)
  unfolding step
  parent_refused-Safe eintr acquire e = ground arith
  parent_refused-Safe eintr release e = ground arith
  parent_refused-Safe eintr _ e = ground arith

  child_refused-Safe :
      (eintr : Bool) (pc : Pc) → s.second.pc ≡ pc → SafeState (step (refused child eintr) s)
  unfolding step
  child_refused-Safe eintr acquire e = ground arith
  child_refused-Safe eintr release e = ground arith
  child_refused-Safe eintr _ e = ground arith

  sigint-Safe : (who : Who) → SafeState (step (sigint who) s)
  unfolding step
  sigint-Safe parent = ground arith
  sigint-Safe child = ground arith

step-Safe : (e : Event) (s : State) → SafeState s → SafeState (step e s)
step-Safe (turn parent) s v = parent-Safe s v s.first.pc refl
step-Safe (turn child) s v = child-Safe s v s.second.pc refl
step-Safe (refused parent eintr) s v = parent_refused-Safe s v eintr s.first.pc refl
step-Safe (refused child eintr) s v = child_refused-Safe s v eintr s.second.pc refl
step-Safe (sigint who) s v = sigint-Safe s v who

start-Safe : SafeState start
unfolding start
start-Safe = ground arith

pub run-Safe : (es : List Event) → SafeState (run step es start)
run-Safe es = run-keeps SafeState step step-Safe es start start-Safe

inside :
    (p q : Pc) (o : Option Who)
    → (holds p == 1) ≡ owned_by parent o
    → (holds q == 1) ≡ owned_by child o
    → holds p + holds q ≤ 1
inside p q none a b = ground arith
inside p q (some parent) a b = ground arith
inside p q (some child) a b = ground arith

-- After any schedule, at most one process is between taking the lock and giving it back.
pub fcntl_one_inside :
    (es : List Event) → let s = run step es start in holds s.first.pc + holds s.second.pc ≤ 1
fcntl_one_inside es =
    let s = run step es start in
    inside s.first.pc s.second.pc s.shared.owner (run-Safe es).parent_owns (run-Safe es).child_owns
