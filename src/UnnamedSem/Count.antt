-- ===== src/UnnamedSem/Count.antt =====
-- What posix-unnamed-sem.c prints adds up.
use unix_linux_prog_in_c_src.Base.{
  ℕ, ◌+◌, ◌≤◌, ◌≡◌, ◌≢◌, ◌⊎◌, inl, inr, refl, arith, Bool, true, false, if◌then◌else◌, Bool-cases,
  List, run, run-keeps_of_all, All,
}
use unix_linux_prog_in_c_src.UnnamedSem.{
  Pc, waiting, entered, exited, State, start, usher, refuse, advance, is_waiting, is_exited, Event,
  usher_runs, main_runs, wait_fails, step,
}

-- The main thread has taken from the semaphore what it has not printed yet.
abbrev pub taken : Pc → ℕ
taken waiting = 0
taken entered = 1
taken exited = 0

abbrev Counted : State → Type 0
Counted s = s.sem + taken s.pc + s.dashes ≡ 5 + s.posted

abbrev Sound : Bool → State → Type 0
Sound nointr s = Counted s × (nointr ≡ true → s.pc ≢ exited)

-- sem_wait fails for no other reason than a signal.
abbrev pub OnlyEintr : Event → Type 0
OnlyEintr usher_runs = Unit
OnlyEintr main_runs = Unit
OnlyEintr (wait_fails eintr) = eintr ≡ true

advance-Sound :
    (nointr : Bool) (p : Pc) (s : State) → s.pc ≡ p → Sound nointr s → Sound nointr (advance p s)
unfolding advance
advance-Sound nointr waiting s e v = ground arith
advance-Sound nointr entered s e v = ground arith
advance-Sound nointr exited s e v = v

refuse-Sound :
    (nointr : Bool) (p : Pc) (s : State)
    → s.pc ≡ p
    → Sound nointr s
    → Sound nointr (if is_waiting p then refuse nointr true s else s)
unfolding refuse
refuse-Sound true waiting s e v = ground arith
refuse-Sound false waiting s e v = ground arith
refuse-Sound nointr entered s e v = v
refuse-Sound nointr exited s e v = v

usher-Sound : (nointr : Bool) (s : State) → Sound nointr s → Sound nointr (usher s)
unfolding usher
usher-Sound nointr s v = (omega (arith, v.0), v.1)

step-Sound :
    (nointr : Bool) (e : Event) (s : State)
    → OnlyEintr e
    → Sound nointr s
    → Sound nointr (step nointr e s)
unfolding step
step-Sound nointr usher_runs s d v = elim (Bool-cases (is_exited s.pc)) [
  | inl t ↦ rw t v
  | inr t ↦ rw t (usher-Sound nointr s v)
]
step-Sound nointr main_runs s d v = advance-Sound nointr s.pc s refl v
step-Sound nointr (wait_fails eintr) s d v = rw d (refuse-Sound nointr s.pc s refl v)

start-Sound : (nointr : Bool) → Sound nointr start
unfolding start
start-Sound nointr = (refl, λ n e. ground arith)

-- After any schedule in which sem_wait fails for signals only, with or without the argument: the value
-- of the semaphore, a dash still to be printed and the dashes make five more than the posts, so there
-- are never more dashes than that; and with the argument the program goes on.
pub dashes-le :
    (nointr : Bool) (es : List Event)
    → All OnlyEintr es
    → let s = run (step nointr) es start in
      (s.sem + taken s.pc + s.dashes ≡ 5 + s.posted)
      × (s.dashes ≤ 5 + s.posted)
      × ((nointr ≡ false) ⊎ (s.pc ≢ exited))
dashes-le nointr es d =
    let v =
      run-keeps_of_all OnlyEintr (Sound nointr) (step nointr) (step-Sound nointr) es start d
        (start-Sound nointr) in
    (v.0, omega (arith, v.0), elim (Bool-cases nointr) [ inl t ↦ inr (v.1 t) | inr t ↦ inl t ])
