-- ===== src/Race/Fcntl/Progress.antt =====
-- The processes of fcntl-fixed-race.c never block each other, even where calls of fcntl fail.
use unix_linux_prog_in_c_src.Base.{
  ◌≡◌, ◌≢◌, ◌⊎◌, inl, inr, true, false, ◌&&◌, List, refl, arith, run, Bool-cases,
}
use unix_linux_prog_in_c_src.Race.{
  parent, child, Pc, loop, acquire, check, release, reap, done, load0, load1, is_done,
}
use unix_linux_prog_in_c_src.Race.Inside.{holds}
use unix_linux_prog_in_c_src.Race.Fcntl.{State, start, Event, turn, step}
use unix_linux_prog_in_c_src.Race.Fcntl.NoRace.{SafeState, run-Safe}

-- The next turn of the parent (of the child) takes it to another place in its code.
abbrev pub ParentMoves : State → Type 0
ParentMoves s = (step (turn parent) s).first.pc ≢ s.first.pc

abbrev pub ChildMoves : State → Type 0
ChildMoves s = (step (turn child) s).second.pc ≢ s.second.pc

child-moves :
    (pc : Pc) (s : State)
    → s.second.pc ≡ pc
    → is_done pc ≡ false
    → (pc ≢ acquire) ⊎ (holds s.first.pc ≡ 0)
    → SafeState s
    → ChildMoves s
unfolding step
child-moves loop s e n h v = ground arith
child-moves (check load0) s e n h v = ground arith
child-moves (check (load1 x)) s e n h v = ground arith
child-moves (check _) s e n h v = ground arith
child-moves _ s e n h v = ground arith

parent-moves :
    (pc : Pc) (s : State)
    → s.first.pc ≡ pc
    → is_done pc ≡ false
    → (pc ≢ acquire) ⊎ (holds s.second.pc ≡ 0)
    → (pc ≢ reap) ⊎ (is_done s.second.pc ≡ true)
    → SafeState s
    → ParentMoves s
unfolding step
parent-moves loop s e n h k v = ground arith
parent-moves (check load0) s e n h k v = ground arith
parent-moves (check (load1 x)) s e n h k v = ground arith
parent-moves (check _) s e n h k v = ground arith
parent-moves _ s e n h k v = ground arith

moves :
    (p q : Pc) (s : State)
    → s.first.pc ≡ p
    → s.second.pc ≡ q
    → SafeState s
    → (is_done p && is_done q) ≡ false
    → ParentMoves s ⊎ ChildMoves s
moves acquire (check b) s e f v n = inr (child-moves (check b) s f refl (inl (λ k. cc)) v)
moves acquire release s e f v n = inr (child-moves release s f refl (inl (λ k. cc)) v)
moves acquire q s e f v n =
    inl (parent-moves acquire s e refl (inr (ground arith)) (inl (λ k. cc)) v)
moves reap (done st) s e f v n =
    inl (parent-moves reap s e refl (inl (λ k. cc)) (inr (ground arith)) v)
moves reap q s e f v n = inr (child-moves q s f refl (inr (ground arith)) v)
moves (done st) (done st') s e f v n = absurd (cc)
moves (done st) q s e f v n = inr (child-moves q s f refl (inr (ground arith)) v)
moves loop q s e f v n = inl (parent-moves loop s e refl (inl (λ k. cc)) (inl (λ k. cc)) v)
moves p q s e f v n = inl (parent-moves p s e refl (inl (λ k. cc)) (inl (λ k. cc)) v)

-- After any schedule, whatever calls of fcntl have failed, both processes have ended, or one of
-- them can take a step.
pub fcntl_never_deadlocks :
    (es : List Event)
    → let s = run step es start in
      ((is_done s.first.pc && is_done s.second.pc) ≡ true) ⊎ (ParentMoves s ⊎ ChildMoves s)
fcntl_never_deadlocks es =
    let s = run step es start in
    elim (Bool-cases (is_done s.first.pc && is_done s.second.pc)) [
      | inl ended ↦ inl ended
      | inr going ↦ inr (moves s.first.pc s.second.pc s refl refl (run-Safe es) going)
    ]
