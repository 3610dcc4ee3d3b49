-- ===== src/Atfork/Progress.antt =====
-- With the handlers, atfork.c comes to its end.
use unix_linux_prog_in_c_src.Base.{
  ℕ, zero, suc, ◌+◌, ◌≤◌, ◌<◌, ◌≡◌, ◌≢◌, ◌⊎◌, inl, inr, refl, arith, Bool, true, false, ◌&&◌,
  Option, none, some, List, [], ◌∷◌, length, subst, Bool-cases, if-cases, run, run-keeps,
}
use unix_linux_prog_in_c_src.Atfork.{
  Who, main, forker, MainPc, lock, create, unlock, join, cancel, wait, done, ForkerPc, unborn,
  begin, before, forking, after, locking, unlocking, finished, Copy, free, own, State, start,
  is_finished, main_step, forker_step, child_step, Event, main_runs, forker_runs, child_runs, step,
}

abbrev main_holds : MainPc → Bool
main_holds lock = false
main_holds create = true
main_holds unlock = true
main_holds join = false
main_holds cancel = false
main_holds wait = false
main_holds done = false

-- With the handlers, `forker` holds the mutex from the end of `before` to `after`.
abbrev forker_holds : ForkerPc → Bool
forker_holds unborn = false
forker_holds begin = false
forker_holds before = false
forker_holds forking = true
forker_holds after = true
forker_holds locking = false
forker_holds unlocking = true
forker_holds finished = false

abbrev owner : Bool → Bool → Option Who
owner true f = some main
owner false true = some forker
owner false false = none

-- The threads are not created yet.
abbrev pub early : MainPc → Bool
early lock = true
early create = true
early unlock = false
early join = false
early cancel = false
early wait = false
early done = false

abbrev pub is_unborn : ForkerPc → Bool
is_unborn unborn = true
is_unborn begin = false
is_unborn before = false
is_unborn forking = false
is_unborn after = false
is_unborn locking = false
is_unborn unlocking = false
is_unborn finished = false

abbrev has_forked : ForkerPc → Bool
has_forked unborn = false
has_forked begin = false
has_forked before = false
has_forked forking = false
has_forked after = true
has_forked locking = true
has_forked unlocking = true
has_forked finished = true

abbrev pub joined : MainPc → Bool
joined lock = false
joined create = false
joined unlock = false
joined join = false
joined cancel = true
joined wait = true
joined done = true

-- The child's thread and its mutex.
abbrev ChildFits : ForkerPc → Copy → Type 0
ChildFits unborn m = m ≡ free
ChildFits begin m = ⊥
ChildFits before m = ⊥
ChildFits forking m = ⊥
ChildFits after m = m ≡ own
ChildFits locking m = m ≡ free
ChildFits unlocking m = m ≡ own
ChildFits finished m = m ≡ free

record Inv (s : State) : Type 0 where
  owned : s.mutex ≡ owner (main_holds s.main_pc) (forker_holds s.forker_pc)
  exclusive : main_holds s.main_pc && forker_holds s.forker_pc ≡ false
  born : is_unborn s.forker_pc ≡ early s.main_pc
  ended : joined s.main_pc ≡ true → is_finished s.forker_pc ≡ true
  waited : s.main_pc ≡ done → s.child_pc ≡ finished
  forked : has_forked s.child_pc ≡ has_forked s.forker_pc
  fits : ChildFits s.child_pc s.child_mutex

start-Inv : Inv start
unfolding start
start-Inv = ground arith

main_step-Inv : (p : MainPc) (s : State) → s.main_pc ≡ p → Inv s → Inv (main_step p s)
unfolding main_step
main_step-Inv lock s e v = ground arith
main_step-Inv create s e v = ground arith
main_step-Inv _ s e v = ground arith

forker_step-Inv :
    (ok : Bool) (p : ForkerPc) (s : State) → s.forker_pc ≡ p → Inv s → Inv (forker_step true ok p s)
unfolding forker_step
forker_step-Inv ok unborn s e v = v
forker_step-Inv true forking s e v = ground arith
forker_step-Inv false forking s e v = ground arith
forker_step-Inv ok _ s e v = ground arith

child_step-Inv : (p : ForkerPc) (s : State) → s.child_pc ≡ p → Inv s → Inv (child_step p s)
unfolding child_step
child_step-Inv unborn s e v = v
child_step-Inv _ s e v = ground arith

step-Inv : (e : Event) (s : State) → Inv s → Inv (step true e s)
unfolding step
step-Inv main_runs s v =
    if-cases Inv s.exited s (main_step s.main_pc s) (λ t. v) (λ t. main_step-Inv s.main_pc s refl v)
step-Inv (forker_runs ok) s v =
    if-cases Inv s.exited s (forker_step true ok s.forker_pc s) (λ t. v)
      (λ t. forker_step-Inv ok s.forker_pc s refl v)
step-Inv child_runs s v = child_step-Inv s.child_pc s refl v

abbrev main_left : MainPc → ℕ
main_left lock = 6
main_left create = 5
main_left unlock = 4
main_left join = 3
main_left cancel = 2
main_left wait = 1
main_left done = 0

abbrev forker_left : ForkerPc → ℕ
forker_left unborn = 7
forker_left begin = 6
forker_left before = 5
forker_left forking = 4
forker_left after = 3
forker_left locking = 2
forker_left unlocking = 1
forker_left finished = 0

abbrev child_left : ForkerPc → ℕ
child_left unborn = 4
child_left begin = 0
child_left before = 0
child_left forking = 0
child_left after = 3
child_left locking = 2
child_left unlocking = 1
child_left finished = 0

-- The steps that are left.
abbrev left : State → ℕ
left s = main_left s.main_pc + forker_left s.forker_pc + child_left s.child_pc

-- A step that brings the program nearer to its end.
abbrev Next : State → Type 0
Next s = (e : Event) × (left (step true e s) < left s) × ((step true e s).exited ≡ false)

forker_goes :
    (p : ForkerPc) (s : State)
    → s.forker_pc ≡ p
    → s.exited ≡ false
    → Inv s
    → s.main_pc ≡ join
    → p ≢ finished
    → (left (forker_step true true p s) < left s) × ((forker_step true true p s).exited ≡ false)
unfolding forker_step
forker_goes unborn s e x v j n = ground arith
forker_goes finished s e x v j n = absurd (n refl)
forker_goes _ s e x v j n = ground arith

child_goes :
    (p : ForkerPc) (s : State)
    → s.child_pc ≡ p
    → s.exited ≡ false
    → Inv s
    → s.main_pc ≡ wait
    → p ≢ finished
    → (left (child_step p s) < left s) × ((child_step p s).exited ≡ false)
unfolding child_step
child_goes unborn s e x v j n = ground arith
child_goes finished s e x v j n = absurd (n refl)
child_goes _ s e x v j n = ground arith

is_finished_eq : (p : ForkerPc) → is_finished p ≡ false → p ≢ finished
is_finished_eq p h e = ground arith

main_goes :
    (p : MainPc) (s : State) → s.main_pc ≡ p → s.exited ≡ false → Inv s → (p ≡ done) ⊎ Next s
unfolding main_step step
main_goes lock s e x v = inr (main_runs, ground arith, ground arith)
main_goes create s e x v = inr (main_runs, ground arith, ground arith)
main_goes unlock s e x v = inr (main_runs, ground arith, ground arith)
main_goes cancel s e x v = inr (main_runs, ground arith, ground arith)
main_goes done s e x v = inl refl
main_goes join s e x v = elim (Bool-cases (is_finished s.forker_pc)) [
  | inl t ↦ inr (main_runs, ground arith, ground arith)
  | inr t ↦
      let g = forker_goes s.forker_pc s refl x v e (is_finished_eq s.forker_pc t) in
      inr (forker_runs true, ground (arith, g.0), ground (arith, g.1))
]
main_goes wait s e x v = elim (Bool-cases (is_finished s.child_pc)) [
  | inl t ↦ inr (main_runs, ground arith, ground arith)
  | inr t ↦
      let g = child_goes s.child_pc s refl x v e (is_finished_eq s.child_pc t) in
      inr (child_runs, g.0, g.1)
]

complete :
    (k : ℕ) (s : State)
    → left s ≤ k
    → s.exited ≡ false
    → Inv s
    → (fs : List Event) × (length fs ≤ k) × ((run (step true) fs s).main_pc ≡ done)
unfolding run
complete zero s le x v = elim (main_goes s.main_pc s refl x v) [
  | inl d ↦ ([], omega arith, d)
  | inr n ↦ absurd (omega (arith, le, n.1))
]
complete (suc k) s le x v = elim (main_goes s.main_pc s refl x v) [
  | inl d ↦ ([], omega arith, d)
  | inr (e, less, y) ↦
      let (fs, short, d) =
        complete k (step true e s) (omega (arith, le, less)) y (step-Inv e s v) in
      (e ∷ fs, omega (arith, short), d)
]

main_left-le : (p : MainPc) → main_left p ≤ 6
main_left-le lock = omega arith
main_left-le _ = ground arith

forker_left-le : (p : ForkerPc) → forker_left p ≤ 7
forker_left-le unborn = omega arith
forker_left-le _ = ground arith

child_left-le : (p : ForkerPc) → child_left p ≤ 4
child_left-le unborn = omega arith
child_left-le _ = ground arith

finished_free : (s : State) → Inv s → s.child_pc ≡ finished → s.child_mutex ≡ free
finished_free s v e = subst (λ p. ChildFits p s.child_mutex) e v.fits

-- With the handlers, after any schedule in which fork() does not fail, `main` can be brought to its
-- end in at most 17 more steps, with the child ended before.
pub atfork_completes :
    (es : List Event)
    → (run (step true) es start).exited ≡ false
    → (fs : List Event) × (length fs ≤ 17)
      × (let s = run (step true) fs (run (step true) es start) in
          (s.main_pc ≡ done) × (s.child_pc ≡ finished) × (s.child_mutex ≡ free))
atfork_completes es x =
    let s : State = run (step true) es start in
    let v = run-keeps Inv (step true) step-Inv es start start-Inv in
    let few : left s ≤ 17 =
      omega (arith, main_left-le s.main_pc, forker_left-le s.forker_pc, child_left-le s.child_pc) in
    let (fs, short, d) = complete 17 s few x v in
    let w = run-keeps Inv (step true) step-Inv fs s v in
    (fs, short, (d, w.waited d, finished_free (run (step true) fs s) w (w.waited d)))
