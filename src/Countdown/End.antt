-- ===== src/Countdown/End.antt =====
-- When the parent of countdown.c comes to the end of the pipe.
use unix_linux_prog_in_c_src.Base.{
  ℕ, ◌+◌, ◌-◌, ◌*◌, ◌≤◌, ◌<◌, ◌≡◌, ◌≢◌, ◌⊎◌, inl, inr, refl, ◌∙◌, subst, arith, Bool, true, false,
  ltb, ◌==◌, if◌then◌else◌, if-cases, Bool-cases, List, run, run-keeps, run-ends,
}
use native.Mathlib.Decide.{dec_lt}
use unix_linux_prog_in_c_src.Base.Family.{put, weigh, weigh-put, le-weigh, find_heavy}
use unix_linux_prog_in_c_src.Countdown.{
  Pc, forking, closing, reading, ended, Child, unborn, starting, sleeping, exited, State, start,
  holds, is_over, main_step, next, Event, main_runs, child_runs, step,
}

abbrev Born : Pc → ℕ → Child → Type 0
Born (forking n) i c = n ≤ i → c ≡ unborn
Born closing i c = Unit
Born reading i c = Unit
Born ended i c = holds c ≡ 0

abbrev Open : Pc → Bool → Type 0
Open (forking n) w = Unit
Open closing w = Unit
Open reading w = w ≡ false
Open ended w = w ≡ false

record Inv (s : State) : Type 0 where
  born : (i : ℕ) → i < 3 → Born s.pc i (s.child i)
  open_end : Open s.pc s.write_open

next-Born : (p : Pc) (i : ℕ) (c : Child) → Born p i c → Born p i (next c)
next-Born (forking n) i c h = λ l. rw (h l) refl
next-Born closing i c h = tt
next-Born reading i c h = tt
next-Born ended i unborn h = refl
next-Born ended i starting h = absurd (omega (arith, h))
next-Born ended i sleeping h = absurd (omega (arith, h))
next-Born ended i exited h = refl

fork-Inv :
    (ok : Bool) (n : ℕ) (s : State)
    → s.pc ≡ forking n
    → Inv s
    → Inv
        (record s { pc = forking (n + 1); child = if ok then put n starting s.child else s.child })
fork-Inv true n s e v = record {
  born = λ i lt l.
      let later : n ≢ i = λ (t : n ≡ i). absurd (omega (arith, t, l)) in
      let same : put n starting s.child i ≡ s.child i = ground arith in
      same ∙ subst (λ p. Born p i (s.child i)) e (v.born i lt) (omega (arith, l));
  open_end = tt;
}
fork-Inv false n s e v = record {
  born = λ i lt l. subst (λ p. Born p i (s.child i)) e (v.born i lt) (omega (arith, l));
  open_end = tt;
}

over : (s : State) → is_over s ≡ true → (s.write_open ≡ false) × (weigh holds s.child 3 ≡ 0)
over s t = ground (arith, t)

main_step-Inv : (ok : Bool) (p : Pc) (s : State) → s.pc ≡ p → Inv s → Inv (main_step ok p s)
unfolding main_step
main_step-Inv ok (forking n) s e v =
    if-cases Inv (ltb n 3)
      (record s { pc = forking (n + 1); child = if ok then put n starting s.child else s.child })
      (record s { pc = closing }) (λ t. fork-Inv ok n s e v)
      (λ t. record { born = λ i lt. tt; open_end = tt })
main_step-Inv ok closing s e v = record { born = λ i lt. tt; open_end = refl }
main_step-Inv ok reading s e v =
    if-cases Inv (is_over s) (record s { pc = ended }) s
      (λ t.
        let (shut, none_holds) = over s t in
        record {
          born = λ i lt. omega (arith, le-weigh holds s.child i 3 lt, none_holds);
          open_end = shut;
        })
      (λ t. v)
main_step-Inv ok ended s e v = v

step-Inv : (e : Event) (s : State) → Inv s → Inv (step e s)
unfolding step
step-Inv (main_runs ok) s v = main_step-Inv ok s.pc s refl v
step-Inv (child_runs i) s v = record {
  born = λ j lt. elim (Bool-cases (i == j)) [
    | inl t ↦
        let same : i ≡ j = ground (arith, t) in
        rw (t, same) (next-Born s.pc j (s.child j) (v.born j lt))
    | inr t ↦ rw t (v.born j lt)
  ];
  open_end = v.open_end;
}

start-Inv : Inv start
unfolding start
start-Inv = record { born = λ i lt l. refl; open_end = tt }

reached-Inv : (es : List Event) → Inv (run step es start)
reached-Inv es = run-keeps Inv step step-Inv es start start-Inv

-- Whichever forks fail: when the parent has come to the end of the pipe, every child that there is
-- has exited.
pub end_after_children :
    (es : List Event) (i : ℕ)
    → i < 3
    → (run step es start).pc ≡ ended
    → ((run step es start).child i ≡ exited) ⊎ ((run step es start).child i ≡ unborn)
end_after_children es i lt e =
    let s = run step es start in
    gone (s.child i) (subst (λ p. Born p i (s.child i)) e ((reached-Inv es).born i lt))
  where
    gone : (c : Child) → holds c ≡ 0 → (c ≡ exited) ⊎ (c ≡ unborn)
    gone unborn h = inr refl
    gone starting h = absurd (omega (arith, h))
    gone sleeping h = absurd (omega (arith, h))
    gone exited h = inl refl

-- The steps left.
abbrev main_left : Pc → ℕ
main_left (forking n) = 3 * (3 - n) + 3
main_left closing = 2
main_left reading = 1
main_left ended = 0

abbrev child_left : Child → ℕ
child_left unborn = 0
child_left starting = 2
child_left sleeping = 1
child_left exited = 0

abbrev left : State → ℕ
left s = main_left s.pc + weigh child_left s.child 3

holds-le : (c : Child) → holds c ≤ 1
holds-le unborn = omega arith
holds-le starting = omega arith
holds-le sleeping = omega arith
holds-le exited = omega arith

next-lt : (c : Child) → holds c ≡ 1 → child_left (next c) < child_left c
next-lt unborn h = absurd (omega (arith, h))
next-lt starting h = omega arith
next-lt sleeping h = omega arith
next-lt exited h = absurd (omega (arith, h))

-- What `main` does where it does not wait.
main_step-lt :
    (p : Pc) (s : State)
    → s.pc ≡ p
    → p ≢ ended
    → (p ≡ reading → is_over s ≡ true)
    → left (main_step true p s) < left s
unfolding main_step
main_step-lt (forking n) s e ne h =
    if-cases (λ (s' : State). left s' < left s) (ltb n 3)
      (record s { pc = forking (n + 1); child = put n starting s.child })
      (record s { pc = closing })
      (λ t.
        let below : n < 3 = ground (arith, t) in
        let here : main_left s.pc ≡ 3 * (3 - n) + 3 = rw e refl in
        omega (arith, weigh-put child_left s.child n starting 3 below, here))
      (λ t. rw e (omega arith))
main_step-lt closing s e ne h = rw e (omega arith)
main_step-lt reading s e ne h = rw (h refl, e) (omega arith)
main_step-lt ended s e ne h = absurd (ne refl)

child_runs-lt :
    (i : ℕ) (s : State) → i < 3 → holds (s.child i) ≡ 1 → left (step (child_runs i) s) < left s
unfolding step
child_runs-lt i s lt h =
    omega (arith, weigh-put child_left s.child i (next (s.child i)) 3 lt, next-lt (s.child i) h)

-- As long as `main` has not ended, it or a child can go on.
someone :
    (p : Pc) (s : State)
    → s.pc ≡ p
    → Inv s
    → (s.pc ≡ ended) ⊎ ((e : Event) × Inv (step e s) × (left (step e s) < left s))
unfolding step
someone (forking n) s e v = inr (
  main_runs true,
  step-Inv (main_runs true) s v,
  main_step-lt s.pc s refl (λ t. ground (arith, t, e)) (λ t. ground (arith, t, e)),
)
someone closing s e v = inr (
  main_runs true,
  step-Inv (main_runs true) s v,
  main_step-lt s.pc s refl (λ t. ground (arith, t, e)) (λ t. ground (arith, t, e)),
)
someone reading s e v = elim (dec_lt 0 (weigh holds s.child 3)) [
  | yes some_hold ↦
      let (i, lt, h) = find_heavy holds holds-le s.child 3 some_hold in
      inr (child_runs i, step-Inv (child_runs i) s v, child_runs-lt i s lt h)
  | no none_holds ↦
      let shut : s.write_open ≡ false = subst (λ p. Open p s.write_open) e v.open_end in
      let over : is_over s ≡ true = ground (arith, shut, none_holds) in
      inr (
        main_runs true,
        step-Inv (main_runs true) s v,
        main_step-lt s.pc s refl (λ t. ground (arith, t, e)) (λ t. over),
      )
]
someone ended s e v = inl e

-- After any schedule, in which forks may fail, there is a way to go on by which the parent comes to the
-- end of the pipe: its read() does not block for good.
pub countdown_ends :
    (es : List Event) → (fs : List Event) × ((run step fs (run step es start)).pc ≡ ended)
countdown_ends es =
    let s = run step es start in
    let (fs, short, done) =
      run-ends step Inv (λ (t : State). t.pc ≡ ended) left (λ t v. someone t.pc t refl v) (left s) s
        (omega arith) (reached-Inv es) in
    (fs, done)
