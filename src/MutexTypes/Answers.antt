-- ===== src/MutexTypes/Answers.antt =====
-- What not-my-lock.c prints, by the type of the mutexes: behind any schedule it stands at one of a few
-- places, and goes on by `next`.
use unix_linux_prog_in_c_src.Base.{
  ℕ, ◌≡◌, ◌⊎◌, inl, inr, refl, sym, ◌∙◌, ap, arith, true, false, some, [], ◌∷◌, ◌++◌, List, run,
  run-at, run-keeps,
}
use unix_linux_prog_in_c_src.MutexTypes.{
  Kind, plain, normal, recursive, errorcheck, Answer, ok, eperm, edeadlk, blocked, undefined, Mutex,
  free, relock, foreign, MainPc, locking, joining, unlocking2, locking3, relocking, ended, ThreadPc,
  unlocking, returned, State, start, me, main_step, thread_step, Event, main_runs, thread_runs,
  step,
}

-- Where the threads stand: the first two places are before the call of the other thread, and the
-- others behind it.
data Place : Type 0 where
  fresh taken early late second third again over : Place

next : Event → Place → Place
next main_runs fresh = taken
next main_runs taken = taken
next main_runs early = late
next main_runs late = second
next main_runs second = third
next main_runs third = again
next main_runs again = over
next main_runs over = over
next thread_runs fresh = early
next thread_runs taken = late
next thread_runs early = early
next thread_runs late = late
next thread_runs second = second
next thread_runs third = third
next thread_runs again = again
next thread_runs over = over

abbrev held : ℕ → Mutex
held n = record { owner = some me; count = n }

abbrev made : (mutex mutex3 : Mutex) → MainPc → ThreadPc → List Answer → State
made mutex mutex3 p t reports = record {
  mutex = mutex;
  mutex2 = free;
  mutex3 = mutex3;
  main_pc = p;
  thread_pc = t;
  reports = reports;
  is_undefined = false;
}

abbrev counted : Answer → ℕ
counted ok = 2
counted eperm = 1
counted edeadlk = 1
counted blocked = 1
counted undefined = 1

-- The state at a place.
abbrev at : Kind → Place → State
at kind fresh = made free free locking unlocking []
at kind taken = made (held 1) free joining unlocking []
at kind early = made free free locking returned (eperm ∷ [])
at kind late = made (held 1) free joining returned (eperm ∷ [])
at kind second = made (held 1) free unlocking2 returned (eperm ∷ [])
at kind third = made (held 1) free locking3 returned (eperm ∷ eperm ∷ [])
at kind again = made (held 1) (held 1) relocking returned (eperm ∷ eperm ∷ [])
at kind over =
    made (held 1) (held (counted (relock kind))) ended returned (eperm ∷ eperm ∷ relock kind ∷ [])

step-errorcheck :
    (e : Event) (p : Place) → step errorcheck e (at errorcheck p) ≡ at errorcheck (next e p)
unfolding step main_step thread_step next
step-errorcheck main_runs fresh = refl
step-errorcheck main_runs taken = refl
step-errorcheck main_runs early = refl
step-errorcheck main_runs late = refl
step-errorcheck main_runs second = refl
step-errorcheck main_runs third = refl
step-errorcheck main_runs again = refl
step-errorcheck main_runs over = refl
step-errorcheck thread_runs fresh = refl
step-errorcheck thread_runs taken = refl
step-errorcheck thread_runs early = refl
step-errorcheck thread_runs late = refl
step-errorcheck thread_runs second = refl
step-errorcheck thread_runs third = refl
step-errorcheck thread_runs again = refl
step-errorcheck thread_runs over = refl

step-recursive :
    (e : Event) (p : Place) → step recursive e (at recursive p) ≡ at recursive (next e p)
unfolding step main_step thread_step next
step-recursive main_runs fresh = refl
step-recursive main_runs taken = refl
step-recursive main_runs early = refl
step-recursive main_runs late = refl
step-recursive main_runs second = refl
step-recursive main_runs third = refl
step-recursive main_runs again = refl
step-recursive main_runs over = refl
step-recursive thread_runs fresh = refl
step-recursive thread_runs taken = refl
step-recursive thread_runs early = refl
step-recursive thread_runs late = refl
step-recursive thread_runs second = refl
step-recursive thread_runs third = refl
step-recursive thread_runs again = refl
step-recursive thread_runs over = refl

-- A type of mutex with which a thread that is not the owner gets an error.
step-at :
    (kind : Kind)
    → foreign kind ≡ eperm
    → (e : Event) (p : Place) → step kind e (at kind p) ≡ at kind (next e p)
step-at plain h = ground (arith, h)
step-at normal h = ground (arith, h)
step-at recursive h = step-recursive
step-at errorcheck h = step-errorcheck

reached :
    (kind : Kind)
    → foreign kind ≡ eperm
    → (es : List Event) (p : Place) → run (step kind) es (at kind p) ≡ at kind (run next es p)
reached kind h es p = run-at (step kind) next (at kind) (step-at kind h) es p

-- What is left of the way to the end.
abbrev rest : Place → List Event
rest fresh = main_runs ∷ thread_runs ∷ main_runs ∷ main_runs ∷ main_runs ∷ main_runs ∷ []
rest taken = thread_runs ∷ main_runs ∷ main_runs ∷ main_runs ∷ main_runs ∷ []
rest early = main_runs ∷ main_runs ∷ main_runs ∷ main_runs ∷ main_runs ∷ []
rest late = main_runs ∷ main_runs ∷ main_runs ∷ main_runs ∷ []
rest second = main_runs ∷ main_runs ∷ main_runs ∷ []
rest third = main_runs ∷ main_runs ∷ []
rest again = main_runs ∷ []
rest over = []

run-rest : (p : Place) → run next (rest p) p ≡ over
unfolding run next
run-rest fresh = refl
run-rest taken = refl
run-rest early = refl
run-rest late = refl
run-rest second = refl
run-rest third = refl
run-rest again = refl
run-rest over = refl

start-fresh : (kind : Kind) → start ≡ at kind fresh
unfolding start
start-fresh kind = refl

over_only : (kind : Kind) (p : Place) → (at kind p).main_pc ≡ ended → p ≡ over
over_only kind fresh e = ground (arith, e)
over_only kind taken e = ground (arith, e)
over_only kind early e = ground (arith, e)
over_only kind late e = ground (arith, e)
over_only kind second e = ground (arith, e)
over_only kind third e = ground (arith, e)
over_only kind again e = ground (arith, e)
over_only kind over e = refl

-- For a type with which a thread that is not the owner gets an error: when `main` has ended, after any
-- schedule, both unlocks have reported EPERM, and the second lock what the type answers to it.
pub checked_reports :
    (kind : Kind) (es : List Event)
    → foreign kind ≡ eperm
    → (run (step kind) es start).main_pc ≡ ended
    → (run (step kind) es start).reports ≡ eperm ∷ eperm ∷ relock kind ∷ []
unfolding start
checked_reports kind es h e =
    let same = reached kind h es fresh in
    let final : run next es fresh ≡ over =
      over_only kind (run next es fresh) (sym (ap (λ (s : State). s.main_pc) same) ∙ e) in
    rw (same, final) refl

-- For such a type, after any schedule there is a way to go on by which `main` ends.
pub checked_ends :
    (kind : Kind) (es : List Event)
    → foreign kind ≡ eperm
    → (fs : List Event) × ((run (step kind) fs (run (step kind) es start)).main_pc ≡ ended)
unfolding start
checked_ends kind es h =
    let p = run next es fresh in
    (rest p, rw (reached kind h es fresh, reached kind h (rest p) p, run-rest p) refl)

-- What is still to be printed.
abbrev left : Kind → Place → List Answer
left kind fresh = eperm ∷ eperm ∷ relock kind ∷ []
left kind taken = eperm ∷ eperm ∷ relock kind ∷ []
left kind early = eperm ∷ relock kind ∷ []
left kind late = eperm ∷ relock kind ∷ []
left kind second = eperm ∷ relock kind ∷ []
left kind third = relock kind ∷ []
left kind again = relock kind ∷ []
left kind over = []

reports-left :
    (kind : Kind) (p : Place)
    → (at kind p).reports ++ left kind p ≡ eperm ∷ eperm ∷ relock kind ∷ []
reports-left kind fresh = refl
reports-left kind taken = refl
reports-left kind early = refl
reports-left kind late = refl
reports-left kind second = refl
reports-left kind third = refl
reports-left kind again = refl
reports-left kind over = refl

-- For a type with which a thread that is not the owner gets an error, after any schedule: what has been
-- printed is the beginning of EPERM, EPERM, and what the type answers to a second lock; and there is a
-- way to go on by which `main` ends and all of that is printed.
pub reports_completed :
    (kind : Kind) (es : List Event)
    → foreign kind ≡ eperm
    → let s = run (step kind) es start in
      ((more : List Answer) × (s.reports ++ more ≡ eperm ∷ eperm ∷ relock kind ∷ []))
      × ((fs : List Event) × ((run (step kind) fs s).main_pc ≡ ended)
          × ((run (step kind) fs s).reports ≡ eperm ∷ eperm ∷ relock kind ∷ []))
unfolding start
reports_completed kind es h =
    let p = run next es fresh in
    rw (reached kind h es fresh) (
      (left kind p, reports-left kind p),
      (
        rest p,
        rw (reached kind h (rest p) p, run-rest p) refl,
        rw (reached kind h (rest p) p, run-rest p) refl,
      ),
    )

-- For a type with which the behaviour is undefined for a thread that is not the owner, the program has
-- undefined behaviour, after any schedule, as soon as the other thread has called unlock.
abbrev Unsaid : Kind → State → Type 0
Unsaid kind s = ((s ≡ at kind fresh) ⊎ (s ≡ at kind taken)) ⊎ (s.is_undefined ≡ true)

step-Unsaid :
    (kind : Kind)
    → foreign kind ≡ undefined
    → (e : Event) (s : State) → Unsaid kind s
    → Unsaid kind (step kind e s)
unfolding step main_step thread_step
step-Unsaid kind h main_runs s (inl (inl e)) = inl (inr (rw e refl))
step-Unsaid kind h main_runs s (inl (inr e)) = inl (inr (rw e refl))
step-Unsaid kind h thread_runs s (inl (inl e)) = inr (rw (e, h) refl)
step-Unsaid kind h thread_runs s (inl (inr e)) = inr (rw (e, h) refl)
step-Unsaid kind h e s (inr u) = inr (rw u refl)

thread_runs-undefined :
    (kind : Kind) (s : State)
    → foreign kind ≡ undefined
    → Unsaid kind s
    → (step kind thread_runs s).is_undefined ≡ true
unfolding step thread_step
thread_runs-undefined kind s h (inl (inl e)) = rw (e, h) refl
thread_runs-undefined kind s h (inl (inr e)) = rw (e, h) refl
thread_runs-undefined kind s h (inr u) = rw u refl

pub unchecked_undefined :
    (kind : Kind) (es : List Event)
    → foreign kind ≡ undefined
    → (step kind thread_runs (run (step kind) es start)).is_undefined ≡ true
unfolding start
unchecked_undefined kind es h =
    thread_runs-undefined kind (run (step kind) es start) h
      (run-keeps (Unsaid kind) (step kind) (step-Unsaid kind h) es start (inl (inl refl)))
