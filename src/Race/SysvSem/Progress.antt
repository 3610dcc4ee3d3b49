-- ===== src/Race/SysvSem/Progress.antt =====
-- While no call of semop fails, the processes of sem-fixed-race.c never block each other.
use unix_linux_prog_in_c_src.Base.{
  ◌+◌, ◌<◌, ◌≡◌, ◌≢◌, ◌⊎◌, inl, inr, true, false, ◌&&◌, List, refl, arith, run, run-keeps_of_all,
  All, Bool-cases,
}
use unix_linux_prog_in_c_src.Race.{
  parent, child, Pc, loop, acquire, check, release, bump, reap, done, load0, load1, is_done,
}
use unix_linux_prog_in_c_src.Race.SysvSem.{State, start, Event, turn, refused, sigint, step}
use unix_linux_prog_in_c_src.Race.Inside.{holds}

-- Until the parent ends, the semaphore is there, and free or taken by one process.
record Live (s : State) : Type 0 where
  taken : (s.shared.sem + holds s.first.pc + holds s.second.pc ≡ 1)
  kept : s.shared.removed ≡ (is_done s.first.pc && is_done s.second.pc)
  last : (is_done s.first.pc ≡ false) ⊎ (is_done s.second.pc ≡ true)

abbrev pub DoesNotFail : Event → Type 0
DoesNotFail (turn who) = Unit
DoesNotFail (refused who eintr) = ⊥
DoesNotFail (sigint who) = Unit

parent-Live : (pc : Pc) (s : State) → s.first.pc ≡ pc → Live s → Live (step (turn parent) s)
unfolding step
parent-Live loop s e v = ground arith
parent-Live (check load0) s e v = ground arith
parent-Live (check (load1 x)) s e v = ground arith
parent-Live (check _) s e v = ground arith
parent-Live _ s e v = ground arith

child-Live : (pc : Pc) (s : State) → s.second.pc ≡ pc → Live s → Live (step (turn child) s)
unfolding step
child-Live loop s e v = ground arith
child-Live (check load0) s e v = ground arith
child-Live (check (load1 x)) s e v = ground arith
child-Live (check _) s e v = ground arith
child-Live _ s e v = ground arith

-- The next turn of the parent (of the child) takes it to another place in its code.
abbrev pub ParentMoves : State → Type 0
ParentMoves s = (step (turn parent) s).first.pc ≢ s.first.pc

abbrev pub ChildMoves : State → Type 0
ChildMoves s = (step (turn child) s).second.pc ≢ s.second.pc

child-moves :
    (pc : Pc) (s : State)
    → s.second.pc ≡ pc
    → s.shared.removed ≡ false
    → (is_done pc ≡ false)
    → (pc ≢ acquire) ⊎ (0 < s.shared.sem)
    → ChildMoves s
unfolding step
child-moves loop s e r n h = ground arith
child-moves (check load0) s e r n h = ground arith
child-moves (check (load1 x)) s e r n h = ground arith
child-moves (check _) s e r n h = ground arith
child-moves _ s e r n h = ground arith

parent-moves :
    (pc : Pc) (s : State)
    → s.first.pc ≡ pc
    → s.shared.removed ≡ false
    → (is_done pc ≡ false)
    → (pc ≢ acquire) ⊎ (0 < s.shared.sem)
    → (pc ≢ reap) ⊎ (is_done s.second.pc ≡ true)
    → ParentMoves s
unfolding step
parent-moves loop s e r n h k = ground arith
parent-moves (check load0) s e r n h k = ground arith
parent-moves (check (load1 x)) s e r n h k = ground arith
parent-moves (check _) s e r n h k = ground arith
parent-moves _ s e r n h k = ground arith

-- Who can move, by where the two processes stand.
moves :
    (p q : Pc) (s : State)
    → s.first.pc ≡ p
    → s.second.pc ≡ q
    → Live s
    → (is_done p ≡ false)
    → ParentMoves s ⊎ ChildMoves s
moves loop q s e f v n =
    inl (parent-moves loop s e (ground (arith, v)) n (inl (λ k. cc)) (inl (λ k. cc)))
moves acquire (check b) s e f v n =
    inr (child-moves (check b) s f (ground (arith, v)) refl (inl (λ k. cc)))
moves acquire release s e f v n =
    inr (child-moves release s f (ground (arith, v)) refl (inl (λ k. cc)))
moves acquire q s e f v n =
    inl (parent-moves acquire s e (ground (arith, v)) n (inr (ground (arith, v))) (inl (λ k. cc)))
moves (check b) q s e f v n =
    inl (parent-moves (check b) s e (ground (arith, v)) n (inl (λ k. cc)) (inl (λ k. cc)))
moves release q s e f v n =
    inl (parent-moves release s e (ground (arith, v)) n (inl (λ k. cc)) (inl (λ k. cc)))
moves bump q s e f v n =
    inl (parent-moves bump s e (ground (arith, v)) n (inl (λ k. cc)) (inl (λ k. cc)))
moves reap (done st) s e f v n =
    inl (parent-moves reap s e (ground (arith, v)) n (inl (λ k. cc)) (inr (ground arith)))
moves reap acquire s e f v n =
    inr (child-moves acquire s f (ground (arith, v)) refl (inr (ground (arith, v))))
moves reap q s e f v n = inr (child-moves q s f (ground (arith, v)) refl (inl (λ k. cc)))
moves (done st) q s e f v n = absurd (cc)

event-Live : (e : Event) (s : State) → DoesNotFail e → Live s → Live (step e s)
event-Live (turn parent) s d v = parent-Live s.first.pc s refl v
event-Live (turn child) s d v = child-Live s.second.pc s refl v
event-Live (refused who eintr) s d v = absurd d
event-Live (sigint parent) s d v = unfold step in ground (arith, v)
event-Live (sigint child) s d v = unfold step in ground (arith, v)

start-Live : Live start
unfolding start
start-Live = ground arith

-- After any schedule in which no call of semop fails, either the parent has ended, and with it the
-- child, or one of the two processes can take a step.
pub sem_never_deadlocks :
    (es : List Event)
    → All DoesNotFail es
    → let s = run step es start in
      ((is_done s.first.pc && is_done s.second.pc) ≡ true) ⊎ (ParentMoves s ⊎ ChildMoves s)
sem_never_deadlocks es d = elim (Bool-cases (is_done s.first.pc)) [
  | inl ended ↦ inl (ground (arith, live))
  | inr going ↦ inr (moves s.first.pc s.second.pc s refl refl live going)
]
  where
    s : State
    s = run step es start

    live : Live s
    live = run-keeps_of_all DoesNotFail Live step event-Live es start d start-Live
