-- ===== src/Alarm/Timeout.antt =====
-- How alarm.c ends without any input.
use unix_linux_prog_in_c_src.Base.{
  ℕ, ◌≡◌, ◌⊎◌, inl, inr, refl, subst, arith, Bool, true, false, Option, none, some, if-cases, List,
  [], ◌∷◌, All, run, run-keeps, run-keeps_of_all,
}
use unix_linux_prog_in_c_src.Alarm.{
  Pc, setting, calling, reading, returned, disarmed, ended, State, start, behind_signal, handler,
  read, print, main_step, Event, main_runs, time_is_up, input_comes, step,
}

abbrev pub NoInput : Event → Type 0
NoInput main_runs = Unit
NoInput time_is_up = Unit
NoInput (input_comes n) = ⊥

-- As long as the time is not up, the timer runs where `main` reads.
abbrev Timer : Pc → (armed fired : Bool) → Type 0
Timer setting armed fired = Unit
Timer calling armed fired = (armed ≡ true) ⊎ (fired ≡ true)
Timer reading armed fired = (armed ≡ true) ⊎ (fired ≡ true)
Timer (returned size) armed fired = Unit
Timer (disarmed size) armed fired = Unit
Timer ended armed fired = Unit

abbrev Inv : State → Type 0
Inv s = Timer s.pc s.armed s.fired

read-Inv : (input : Option ℕ) (s : State) → Inv s → Inv (read input s)
read-Inv none s v = v
read-Inv (some n) s v = tt

print-Inv : (size : Option ℕ) (s : State) → Inv (print size s)
print-Inv none s = tt
print-Inv (some n) s = tt

main_step-Inv : (p : Pc) (s : State) → s.pc ≡ p → Inv s → Inv (main_step p s)
unfolding main_step
main_step-Inv setting s e v = inl refl
main_step-Inv calling s e v = subst (λ p. Timer p s.armed s.fired) e v
main_step-Inv reading s e v = read-Inv s.input s v
main_step-Inv (returned size) s e v = tt
main_step-Inv (disarmed size) s e v = print-Inv size s
main_step-Inv ended s e v = v

signal-Timer : (p : Pc) → Timer (behind_signal p) false true
signal-Timer setting = tt
signal-Timer calling = inr refl
signal-Timer reading = tt
signal-Timer (returned size) = tt
signal-Timer (disarmed size) = tt
signal-Timer ended = tt

step-Inv : (e : Event) (s : State) → Inv s → Inv (step e s)
unfolding step
step-Inv main_runs s v = main_step-Inv s.pc s refl v
step-Inv time_is_up s v = if-cases Inv s.armed (handler s) s (λ t. signal-Timer s.pc) (λ t. v)
step-Inv (input_comes n) s v = v

start-Inv : Inv start
unfolding start
start-Inv = tt

-- What leads to the end.
abbrev onward : Pc → List Event
onward setting = main_runs ∷ main_runs ∷ time_is_up ∷ main_runs ∷ main_runs ∷ []
onward calling = main_runs ∷ time_is_up ∷ main_runs ∷ main_runs ∷ []
onward reading = time_is_up ∷ main_runs ∷ main_runs ∷ []
onward (returned size) = main_runs ∷ main_runs ∷ []
onward (disarmed size) = main_runs ∷ []
onward ended = []

onward-NoInput : (p : Pc) → All NoInput (onward p)
onward-NoInput setting = (tt, (tt, (tt, (tt, (tt, tt)))))
onward-NoInput calling = (tt, (tt, (tt, (tt, tt))))
onward-NoInput reading = (tt, (tt, (tt, tt)))
onward-NoInput (returned size) = (tt, (tt, tt))
onward-NoInput (disarmed size) = (tt, tt)
onward-NoInput ended = tt

print-ended : (size : Option ℕ) (s : State) → (print size s).pc ≡ ended
print-ended none s = refl
print-ended (some n) s = refl

-- The time was up before read() has been called.
abbrev TooLate : Pc → (fired : Bool) → Type 0
TooLate p fired = (fired ≡ true) × ((p ≡ calling) ⊎ (p ≡ reading))

onward_or_late :
    (p : Pc) (s : State)
    → s.pc ≡ p
    → Timer p s.armed s.fired
    → TooLate p s.fired ⊎ ((run step (onward p) s).pc ≡ ended)
unfolding run step main_step
onward_or_late setting s e v = inr (rw e refl)
onward_or_late calling s e (inl a) = inr (rw (e, a) refl)
onward_or_late calling s e (inr f) = inl (f, inl refl)
onward_or_late reading s e (inl a) = inr (rw (e, a) refl)
onward_or_late reading s e (inr f) = inl (f, inr refl)
onward_or_late (returned size) s e v =
    inr (rw e (print-ended size (record s { armed = false; pc = disarmed size })))
onward_or_late (disarmed size) s e v =
    inr (rw e (print-ended size (record s { pc = disarmed size })))
onward_or_late ended s e v = inr e

-- After any schedule: the time is up, and `main` is still before the call of read() or in it; or there is a way to go on, without any input, by which the program ends.
pub time_limit :
    (es : List Event)
    → let s = run step es start in
      ((s.fired ≡ true) × ((s.pc ≡ calling) ⊎ (s.pc ≡ reading)))
      ⊎ ((fs : List Event) × All NoInput fs × ((run step fs s).pc ≡ ended))
time_limit es =
    let s = run step es start in
    let v = run-keeps Inv step step-Inv es start start-Inv in
    elim (onward_or_late s.pc s refl v) [
      | inl late ↦ inl late
      | inr ends ↦ inr (onward s.pc, onward-NoInput s.pc, ends)
    ]

-- After any schedule by which the time is not up, there is a way to go on, without any input, by which
-- the program ends.
pub timeout_ends :
    (es : List Event)
    → (run step es start).fired ≡ false
    → (fs : List Event) × All NoInput fs × ((run step fs (run step es start)).pc ≡ ended)
timeout_ends es h = elim (time_limit es) [ inl (f, late) ↦ ground (arith, f, h) | inr ends ↦ ends ]

-- The time was up before read(), and nothing comes.
abbrev Late : State → Type 0
Late s = (s.pc ≡ reading) × (s.armed ≡ false) × (s.input ≡ none)

step-Late : (e : Event) (s : State) → NoInput e → Late s → Late (step e s)
unfolding step main_step
step-Late main_runs s n v = simp (v.0, v.2) (refl, v.1, refl)
step-Late time_is_up s n v =
    if-cases Late s.armed (handler s) s (λ t. ground (arith, t, v.1)) (λ t. v)
step-Late (input_comes k) s n v = absurd n

-- When the time is up before read() is called, then after any further schedule without input the
-- program still waits in read().
pub late_read_waits :
    (es : List Event)
    → All NoInput es
    → (run step es (run step (main_runs ∷ time_is_up ∷ main_runs ∷ []) start)).pc ≡ reading
unfolding run step main_step start
late_read_waits es no_input =
    (run-keeps_of_all NoInput Late step (λ e s n v. step-Late e s n v) es
      (run step (main_runs ∷ time_is_up ∷ main_runs ∷ []) start) no_input (refl, refl, refl)).0
