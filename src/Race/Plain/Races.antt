-- ===== src/Race/Plain/Races.antt =====
-- The races of race.c: as many as one likes, and none where a process runs alone.
use unix_linux_prog_in_c_src.Base.{
  ℕ, zero, suc, ◌+◌, ◌^◌, ◌≤◌, ◌<◌, ◌≡◌, ◌≢◌, ◌⊎◌, Bool, true, List, [], ◌∷◌, ◌++◌, refl, arith,
  run, run-append, run-keeps_of_all, All, replicate, length,
}
use unix_linux_prog_in_c_src.Race.{
  Who, parent, child, Pc, loop, acquire, check, release, bump, reap, done, load0, load1, tally,
  store1, store0, examine, Proc, is_done,
}
use unix_linux_prog_in_c_src.Race.Inside.{is_dirty, Seen}
use unix_linux_prog_in_c_src.Race.Plain.{Local, advance, State, start, Event, turn, sigint, step}

-- The child compares the bytes between the two stores of the parent, and then both finish the round.
abbrev pub overlapping_round : List Event
overlapping_round =
    replicate 4 (turn parent)
    ++ (replicate 4 (turn child) ++ (replicate 2 (turn parent) ++ replicate 3 (turn child)))

abbrev pub rounds : ℕ → List Event
rounds zero = []
rounds (suc n) = rounds n ++ overlapping_round

-- Both are at the head of the loop, with `n` races counted by the child, none by the parent, and
-- two equal bytes that are not the parent's mark.
record Ready (n : ℕ) (s : State) : Type 0 where
  at_head : (s.first.pc ≡ loop) × (s.second.pc ≡ loop)
  go_on : (s.first.running ≡ true) × (s.second.running ≡ true)
  equal : (s.mem.b0 ≡ s.mem.b1) × (s.mem.b1 ≢ 1)
  counted : (s.first.races ≡ 0) × (s.second.races ≡ n)

round-Ready :
    (n : ℕ) (s : State) → n + 1 < 2 ^ 32 → Ready n s → Ready (suc n) (run step overlapping_round s)
unfolding run step examine
round-Ready n s h v = ground arith

start-Ready : Ready 0 start
unfolding start
start-Ready = ground arith

rounds-Ready : (n : ℕ) → n < 2 ^ 32 → Ready n (run step (rounds n) start)
unfolding run
rounds-Ready zero h = start-Ready
rounds-Ready (suc n) h =
    rw (run-append step (rounds n) overlapping_round start)
      (round-Ready n (run step (rounds n) start) (omega arith) (rounds-Ready n (omega arith)))

-- For every n below 2^32 there is a schedule after which the child has counted n races and the
-- parent none, with both of them at the head of their loops.
pub any_number_of_races :
    (n : ℕ)
    → n < 2 ^ 32
    → let s = run step (rounds n) start in
      (s.second.races ≡ n) × (s.first.races ≡ 0) × (s.first.pc ≡ loop) × (s.second.pc ≡ loop)
any_number_of_races n h = ground (arith, rounds-Ready n h)

-- Only the child runs; signals may come.
abbrev pub ChildOnly : Event → Type 0
ChildOnly (turn parent) = ⊥
ChildOnly (turn child) = Unit
ChildOnly (sigint who) = Unit

record Alone (s : State) : Type 0 where
  same : (is_dirty s.second.pc ≡ true) ⊎ (s.mem.b0 ≡ s.mem.b1)
  seen : Seen 2 s.mem s.second.pc
  none_counted : s.second.races ≡ 0
  parent_waits : s.first.pc ≡ loop

child-Alone : (pc : Pc) (s : State) → s.second.pc ≡ pc → Alone s → Alone (step (turn child) s)
unfolding step examine
child-Alone loop s e v = ground arith
child-Alone (check load0) s e v = ground arith
child-Alone (check (load1 x)) s e v = ground arith
child-Alone (check _) s e v = ground arith
child-Alone _ s e v = ground arith

step-Alone : (e : Event) (s : State) → ChildOnly e → Alone s → Alone (step e s)
unfolding step
step-Alone (turn parent) s d v = absurd d
step-Alone (turn child) s d v = child-Alone s.second.pc s refl v
step-Alone (sigint parent) s d v = ground (arith, v)
step-Alone (sigint child) s d v = ground (arith, v)

start-Alone : Alone start
unfolding start
start-Alone = ground arith

-- A race needs two processes: after any schedule in which the parent does not run, the child has
-- counted no race, and the bytes are equal unless the child is between its two stores.
pub alone_never_races :
    (es : List Event)
    → All ChildOnly es
    → let s = run step es start in
      (s.second.races ≡ 0) × ((s.second.pc ≡ check store0) ⊎ (s.mem.b0 ≡ s.mem.b1))
alone_never_races es d =
    let v = run-keeps_of_all ChildOnly Alone step step-Alone es start d start-Alone in
    (ground (arith, v), ground (arith, v))

-- The process has counted at most one race for each round, the one that is under way included, and
-- has made at most `k` rounds.
abbrev is_late : Pc → ℕ
is_late (check store1) = 1
is_late (check store0) = 1
is_late bump = 1
is_late (check load0) = 0
is_late (check (load1 v)) = 0
is_late (check tally) = 0
is_late loop = 0
is_late acquire = 0
is_late release = 0
is_late reap = 0
is_late (done status) = 0

record AtMostOne (k : ℕ) (p : Proc) : Type 0 where
  few : p.races ≤ p.loops + is_late p.pc
  short : p.loops ≤ k

advance-AtMostOne :
    (k : ℕ) (who : Who) (other_done : Bool) (pc : Pc) (l : Local)
    → k + 1 < 2 ^ 32
    → l.proc.pc ≡ pc
    → AtMostOne k l.proc
    → AtMostOne (k + 1) (advance who other_done pc l).proc
unfolding advance
advance-AtMostOne k who d loop l h e v = ground arith
advance-AtMostOne k who d (check load0) l h e v = ground arith
advance-AtMostOne k who d (check (load1 x)) l h e v = ground arith
advance-AtMostOne k who d (check _) l h e v = ground arith
advance-AtMostOne k parent d reap l h e v = ground arith
advance-AtMostOne k child d reap l h e v = ground arith
advance-AtMostOne k who d _ l h e v = ground arith

abbrev BothAtMostOne : ℕ → State → Type 0
BothAtMostOne k s = AtMostOne k s.first × AtMostOne k s.second

step-AtMostOne :
    (k : ℕ) (e : Event) (s : State)
    → k + 1 < 2 ^ 32
    → BothAtMostOne k s
    → BothAtMostOne (k + 1) (step e s)
unfolding step
step-AtMostOne k (turn parent) s h v = (
  advance-AtMostOne k parent (is_done s.second.pc) s.first.pc
      (record { mem = s.mem; stats = s.stats; proc = s.first }) h refl v.0,
  ground (arith, v.1),
)
step-AtMostOne k (turn child) s h v = (
  ground (arith, v.0),
  advance-AtMostOne k child (is_done s.first.pc) s.second.pc
      (record { mem = s.mem; stats = s.stats; proc = s.second }) h refl v.1,
)
step-AtMostOne k (sigint parent) s h v = ground (arith, v)
step-AtMostOne k (sigint child) s h v = ground (arith, v)

run-AtMostOne :
    (k : ℕ) (es : List Event) (s : State)
    → k + length es < 2 ^ 32
    → BothAtMostOne k s
    → BothAtMostOne (k + length es) (run step es s)
unfolding run
run-AtMostOne k [] s h v = ground (arith, v)
run-AtMostOne k (e ∷ es) s h v = ground (
  arith,
  run-AtMostOne (k + 1) es (step e s) (omega arith) (step-AtMostOne k e s (omega arith) v),
)

start-AtMostOne : BothAtMostOne 0 start
unfolding start
start-AtMostOne = ground arith

is_late-le : (pc : Pc) → is_late pc ≤ 1
is_late-le pc = ground arith

-- After any schedule of fewer than 2^32 events, each process has counted at most one race more than
-- it has completed rounds of its loop.
pub races-le-loops :
    (es : List Event)
    → length es < 2 ^ 32
    → let s = run step es start in
      (s.first.races ≤ s.first.loops + 1) × (s.second.races ≤ s.second.loops + 1)
races-le-loops es h =
    let v = run-AtMostOne 0 es start (omega arith) start-AtMostOne in
    let s = run step es start in
    (omega (arith, v.0.few, is_late-le s.first.pc), omega (arith, v.1.few, is_late-le s.second.pc))
