-- ===== src/Cancel/Success.antt =====
-- How pthread-setcanceltype.c ends.
use unix_linux_prog_in_c_src.Base.{
  ℕ, ◌+◌, ◌-◌, ◌≤◌, ◌≡◌, ◌≢◌, ◌⊎◌, inl, inr, refl, sym, arith, Bool, true, false, if-cases, List,
  [], ◌∷◌, length, ◌&&◌, ◌||◌, All, run, run-keeps_of_all, ◌∙◌, subst,
}
use unix_linux_prog_in_c_src.Cancel.{
  Place, set_type, say_start, spin, say_passed, open_fifo, say_error, Pc, running, canceled,
  returned, MainPc, wait, cancel, join, ended, State, start, Choice, stops, proceed, mythread,
  cancel_result, joined, main_step, Event, thread_runs, main_runs, step,
}

-- Nobody opens the fifo for writing, and open() does not fail: it does not return.
abbrev pub IsBlocked : Event → Type 0
IsBlocked (thread_runs ch) = (ch.writer || ch.fails) ≡ false
IsBlocked (main_runs r) = Unit

-- How many steps the thread is from being canceled, once it is asked to; from the end there is no way.
abbrev gap : Pc → ℕ
gap (running set_type) = 2
gap (running say_start) = 1
gap (running spin) = 2
gap (running say_passed) = 1
gap (running open_fifo) = 1
gap (running say_error) = 3
gap (canceled p) = 0
gap returned = 3

abbrev MainOk : MainPc → Bool → Type 0
MainOk wait requested = Unit
MainOk cancel requested = Unit
MainOk join requested = requested ≡ true
MainOk (ended n) requested = n ≡ 0

abbrev Inv : State → Type 0
Inv s = (gap s.pc ≤ 2) × MainOk s.main_pc s.requested

-- The thread changes nothing of `main`.
abbrev Same : State → State → Type 0
Same s s' = (s'.main_pc ≡ s.main_pc) × (s'.requested ≡ s.requested)

proceed-Same : (async : Bool) (ch : Choice) (p : Place) (s : State) → Same s (proceed async ch p s)
unfolding proceed
proceed-Same async ch spin s = ground arith
proceed-Same async ch open_fifo s = ground arith
proceed-Same async ch _ s = (refl, refl)

mythread-Same : (async : Bool) (ch : Choice) (p : Pc) (s : State) → Same s (mythread async ch p s)
unfolding mythread
mythread-Same async ch (running p) s =
    if-cases (Same s) (s.requested && stops p s.asynchronous ch.acts) (record s { pc = canceled p })
      (proceed async ch p s) (λ t. (refl, refl)) (λ t. proceed-Same async ch p s)
mythread-Same async ch (canceled p) s = (refl, refl)
mythread-Same async ch returned s = (refl, refl)

proceed-le :
    (async : Bool) (ch : Choice) (p : Place) (s : State)
    → (ch.writer || ch.fails) ≡ false
    → gap (running p) ≤ 2
    → gap s.pc ≤ 2
    → gap (proceed async ch p s).pc ≤ 2
unfolding proceed
proceed-le async ch set_type s h g v = omega arith
proceed-le async ch say_start s h g v = omega arith
proceed-le async ch spin s h g v = ground (arith, v)
proceed-le async ch say_passed s h g v = omega arith
proceed-le async ch open_fifo s h g v = ground (arith, h, v)
proceed-le async ch say_error s h g v = absurd (omega (arith, g))

mythread-le :
    (async : Bool) (ch : Choice) (p : Pc) (s : State)
    → (ch.writer || ch.fails) ≡ false
    → s.pc ≡ p
    → gap s.pc ≤ 2
    → gap (mythread async ch p s).pc ≤ 2
unfolding mythread
mythread-le async ch (running p) s h e v =
    if-cases (λ (s' : State). gap s'.pc ≤ 2) (s.requested && stops p s.asynchronous ch.acts)
      (record s { pc = canceled p }) (proceed async ch p s) (λ t. omega arith)
      (λ t. proceed-le async ch p s h (subst (λ q. gap q ≤ 2) e v) v)
mythread-le async ch (canceled p) s h e v = v
mythread-le async ch returned s h e v = v

mythread-Inv :
    (async : Bool) (ch : Choice) (s : State)
    → (ch.writer || ch.fails) ≡ false
    → Inv s
    → Inv (mythread async ch s.pc s)
mythread-Inv async ch s h v =
    let (m, r) = mythread-Same async ch s.pc s in
    (mythread-le async ch s.pc s h refl v.0, rw (m, r) (v.1))

cancel_result-Inv : (r : Bool) (p : Pc) (s : State) → s.pc ≡ p → Inv s → Inv (cancel_result r p s)
cancel_result-Inv r (running p) s f v = (v.0, refl)
cancel_result-Inv r (canceled p) s f v = (v.0, refl)
cancel_result-Inv r returned s f v = absurd (omega (arith, subst (λ q. gap q ≤ 2) f v.0))

joined-Inv : (p : Pc) (s : State) → s.pc ≡ p → Inv s → Inv (joined p s)
joined-Inv (running p) s f v = v
joined-Inv (canceled p) s f v = (v.0, refl)
joined-Inv returned s f v = absurd (omega (arith, subst (λ q. gap q ≤ 2) f v.0))

main_step-Inv : (r : Bool) (m : MainPc) (s : State) → Inv s → Inv (main_step r m s)
unfolding main_step
main_step-Inv r wait s v = (v.0, tt)
main_step-Inv r cancel s v = cancel_result-Inv r s.pc s refl v
main_step-Inv r join s v = joined-Inv s.pc s refl v
main_step-Inv r (ended n) s v = v

step-Inv : (async : Bool) (e : Event) (s : State) → IsBlocked e → Inv s → Inv (step async e s)
unfolding step
step-Inv async (thread_runs ch) s b v = mythread-Inv async ch s b v
step-Inv async (main_runs r) s b v = main_step-Inv r s.main_pc s v

start-Inv : Inv start
unfolding start
start-Inv = (omega arith, tt)

reached-Inv : (async : Bool) (es : List Event) → All IsBlocked es → Inv (run (step async) es start)
reached-Inv async es b =
    run-keeps_of_all IsBlocked Inv (step async) (step-Inv async) es start b start-Inv

-- A choice by which the thread gets on.
abbrev go : Choice
go = record { acts = true; passed = true; writer = false; fails = false }

proceed-gap :
    (async : Bool) (p : Place) (s : State)
    → stops p s.asynchronous true ≡ false
    → gap (running p) ≤ 2
    → gap (proceed async go p s).pc ≤ gap (running p) - 1
unfolding proceed
proceed-gap async set_type s h g = omega arith
proceed-gap async say_start s h g = ground (arith, h)
proceed-gap async spin s h g = omega arith
proceed-gap async say_passed s h g = ground (arith, h)
proceed-gap async open_fifo s h g = ground (arith, h)
proceed-gap async say_error s h g = omega arith

mythread-gap :
    (async : Bool) (p : Pc) (s : State)
    → s.requested ≡ true
    → s.pc ≡ p
    → gap p ≤ 2
    → gap (mythread async go p s).pc ≤ gap p - 1
unfolding mythread
mythread-gap async (running p) s r e g =
    if-cases (λ (s' : State). gap s'.pc ≤ gap (running p) - 1)
      (s.requested && stops p s.asynchronous true) (record s { pc = canceled p })
      (proceed async go p s) (λ t. omega arith)
      (λ t. proceed-gap async p s (ground (arith, t, r)) g)
mythread-gap async (canceled p) s r e g = rw e (omega arith)
mythread-gap async returned s r e g = omega arith

mythread-closer :
    (async : Bool) (s : State)
    → s.requested ≡ true
    → gap s.pc ≤ 2
    → gap (mythread async go s.pc s).pc ≤ gap s.pc - 1
mythread-closer async s r g = mythread-gap async s.pc s r refl g

-- How far `main` is: it has called pthread_cancel() from 2 on.
abbrev phase : MainPc → ℕ
phase wait = 0
phase cancel = 1
phase join = 2
phase (ended n) = 2

cancel_result-phase : (p : Pc) (s : State) → 2 ≤ phase (cancel_result false p s).main_pc
cancel_result-phase (running p) s = omega arith
cancel_result-phase (canceled p) s = omega arith
cancel_result-phase returned s = omega arith

joined-phase : (p : Pc) (s : State) → 2 ≤ phase s.main_pc → 2 ≤ phase (joined p s).main_pc
joined-phase (running p) s h = h
joined-phase (canceled p) s h = omega arith
joined-phase returned s h = omega arith

main_step-phase :
    (m : MainPc) (s : State)
    → s.main_pc ≡ m
    → let s' = main_step false m s in (2 ≤ phase s'.main_pc) ⊎ (phase m + 1 ≤ phase s'.main_pc)
unfolding main_step
main_step-phase wait s e = inr (omega arith)
main_step-phase cancel s e = inl (cancel_result-phase s.pc s)
main_step-phase join s e = inl (joined-phase s.pc s (rw e (omega arith)))
main_step-phase (ended n) s e = inl (rw e (omega arith))

join-zero : (p : Pc) (s : State) → gap p ≡ 0 → (joined p s).main_pc ≡ ended 0
join-zero (running set_type) s g = absurd (omega (arith, g))
join-zero (running say_start) s g = absurd (omega (arith, g))
join-zero (running spin) s g = absurd (omega (arith, g))
join-zero (running say_passed) s g = absurd (omega (arith, g))
join-zero (running open_fifo) s g = absurd (omega (arith, g))
join-zero (running say_error) s g = absurd (omega (arith, g))
join-zero (canceled p) s g = refl
join-zero returned s g = absurd (omega (arith, g))

-- The last step.
main_step-ended :
    (m : MainPc) (s : State)
    → s.main_pc ≡ m
    → 2 ≤ phase m
    → MainOk m s.requested
    → (s.requested ≡ true → gap s.pc ≡ 0)
    → (main_step false m s).main_pc ≡ ended 0
unfolding main_step
main_step-ended wait s e h a g = absurd (omega (arith, h))
main_step-ended cancel s e h a g = absurd (omega (arith, h))
main_step-ended join s e h a g = join-zero s.pc s (g a)
main_step-ended (ended n) s e h a g = rw (e, a) refl

-- Two steps of the thread lead to its end, if it is asked to end.
twice-gap :
    (async : Bool) (s : State)
    → s.requested ≡ true
    → gap s.pc ≤ 2
    → let s' = mythread async go s.pc s in gap (mythread async go s'.pc s').pc ≡ 0
twice-gap async s r g =
    let s' : State = mythread async go s.pc s in
    let first = mythread-closer async s r g in
    let second =
      mythread-closer async s' ((mythread-Same async go s.pc s).1 ∙ r) (omega (arith, first, g)) in
    omega (arith, first, second, g)

abbrev rest : List Event
rest = main_runs false ∷ main_runs false ∷ thread_runs go ∷ thread_runs go ∷ main_runs false ∷ []

complete : (async : Bool) (s : State) → Inv s → (run (step async) rest s).main_pc ≡ ended 0
unfolding run step
complete async s v =
    let s1 : State = main_step false s.main_pc s in
    let s2 : State = main_step false s1.main_pc s1 in
    let s3 : State = mythread async go s2.pc s2 in
    let s4 : State = mythread async go s3.pc s3 in
    let v2 = main_step-Inv false s1.main_pc s1 (main_step-Inv false s.main_pc s v) in
    let v4 = mythread-Inv async go s3 refl (mythread-Inv async go s2 refl v2) in
    let (m3, r3) = mythread-Same async go s2.pc s2 in
    let (m4, r4) = mythread-Same async go s3.pc s3 in
    let late : 2 ≤ phase s2.main_pc =
      omega (arith, main_step-phase s.main_pc s refl, main_step-phase s1.main_pc s1 refl) in
    main_step-ended s4.main_pc s4 refl (subst (λ m. 2 ≤ phase m) (sym (m4 ∙ m3)) late) v4.1
      (λ r. twice-gap async s2 (sym (r4 ∙ r3) ∙ r) v2.0)

-- With both types of cancellation, as long as nobody opens the fifo for writing and open() does not fail:
-- `main` never ends with a status of 1, can always end with 0, within five steps, and never does the
-- thread print its error or return.
pub cancel_succeeds :
    (async : Bool) (es : List Event)
    → All IsBlocked es
    → let s = run (step async) es start in
      (s.pc ≢ running say_error)
      × (s.pc ≢ returned)
      × (s.main_pc ≢ ended 1)
      × (fs : List Event) × All IsBlocked fs
      × (length fs ≤ 5)
      × ((run (step async) fs s).main_pc ≡ ended 0)
cancel_succeeds async es b =
    let s : State = run (step async) es start in
    let v = reached-Inv async es b in
    (
      λ e. absurd (omega (arith, subst (λ q. gap q ≤ 2) e v.0)),
      λ e. absurd (omega (arith, subst (λ q. gap q ≤ 2) e v.0)),
      λ e. absurd (omega (arith, subst (λ m. MainOk m s.requested) e v.1)),
      rest,
      (tt, (tt, (refl, (refl, (tt, tt))))),
      omega arith,
      complete async s v,
    )
