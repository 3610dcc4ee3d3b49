-- ===== src/PingPong/Turns.antt =====
-- The lines of ping-pong.c.
use unix_linux_prog_in_c_src.Base.{
  ℕ, zero, suc, ◌≡◌, ◌≢◌, ◌⊎◌, inl, inr, refl, ◌∙◌, ap, Bool, true, false, List, [], ◌∷◌, run,
  run-at,
}
use unix_linux_prog_in_c_src.PingPong.{
  Who, parent, child, Pc, initiating, fresh, armed, aimed, pausing, writing, killing, returning,
  dead, Process, State, start, advance, step,
}

-- Where the two stand: before the first signal, by where the child is; then whose turn it is, how many
-- rounds are behind, and whether the other one is back from its handler; or at the end, when the signal
-- has come too early. The turn begins with a pending signal if the handler is still running.
data Place : Type 0 where
  unset : Place
  set : Place
  aiming : Place
  ready : Place
  child_pends : (k : ℕ) (back : Bool) → Place
  child_writes : (k : ℕ) (back : Bool) → Place
  child_kills : (k : ℕ) (back : Bool) → Place
  parent_pends : (k : ℕ) (back : Bool) → Place
  parent_writes : (k : ℕ) (back : Bool) → Place
  parent_kills : (k : ℕ) (back : Bool) → Place
  over : Place

next : Who → Place → Place
next parent unset = over
next parent set = over
next parent aiming = over
next parent ready = child_writes 0 true
next parent (child_pends k back) = child_pends k true
next parent (child_writes k back) = child_writes k true
next parent (child_kills k back) = child_kills k true
next parent (parent_pends k back) = parent_writes k back
next parent (parent_writes k back) = parent_kills k back
next parent (parent_kills k true) = child_writes (suc k) false
next parent (parent_kills k false) = child_pends (suc k) false
next parent over = over
next child unset = set
next child set = aiming
next child aiming = ready
next child ready = ready
next child (child_pends k back) = child_writes k back
next child (child_writes k back) = child_kills k back
next child (child_kills k true) = parent_writes k false
next child (child_kills k false) = parent_pends k false
next child (parent_pends k back) = parent_pends k true
next child (parent_writes k back) = parent_writes k true
next child (parent_kills k back) = parent_kills k true
next child over = over

-- The lines of some rounds.
abbrev pub pairs : ℕ → List Who
pairs zero = []
pairs (suc k) = parent ∷ child ∷ pairs k

abbrev one : Pc → Bool → Process
one pc pending = record { pc = pc; pending = pending }

abbrev made : (parent_process child_process : Process) → List Who → State
made parent_process child_process printed = record {
  parent_process = parent_process;
  child_process = child_process;
  printed = printed;
}

-- The one whose turn it is not.
abbrev other : Bool → Process
other true = one pausing false
other false = one returning false

-- The state at a place.
abbrev at : Place → State
at unset = made (one initiating false) (one fresh false) []
at set = made (one initiating false) (one armed false) []
at aiming = made (one initiating false) (one aimed false) []
at ready = made (one initiating false) (one pausing false) []
at (child_pends k back) = made (other back) (one returning true) (pairs k)
at (child_writes k back) = made (other back) (one writing false) (pairs k)
at (child_kills k back) = made (other back) (one killing false) (child ∷ pairs k)
at (parent_pends k back) = made (one returning true) (other back) (child ∷ pairs k)
at (parent_writes k back) = made (one writing false) (other back) (child ∷ pairs k)
at (parent_kills k back) = made (one killing false) (other back) (pairs (suc k))
at over = made (one pausing false) (one dead false) []

step-at : (w : Who) (p : Place) → step w (at p) ≡ at (next w p)
unfolding step advance next
step-at parent unset = refl
step-at parent set = refl
step-at parent aiming = refl
step-at parent ready = refl
step-at parent (child_pends k true) = refl
step-at parent (child_pends k false) = refl
step-at parent (child_writes k true) = refl
step-at parent (child_writes k false) = refl
step-at parent (child_kills k true) = refl
step-at parent (child_kills k false) = refl
step-at parent (parent_pends k true) = refl
step-at parent (parent_pends k false) = refl
step-at parent (parent_writes k true) = refl
step-at parent (parent_writes k false) = refl
step-at parent (parent_kills k true) = refl
step-at parent (parent_kills k false) = refl
step-at parent over = refl
step-at child unset = refl
step-at child set = refl
step-at child aiming = refl
step-at child ready = refl
step-at child (child_pends k true) = refl
step-at child (child_pends k false) = refl
step-at child (child_writes k true) = refl
step-at child (child_writes k false) = refl
step-at child (child_kills k true) = refl
step-at child (child_kills k false) = refl
step-at child (parent_pends k true) = refl
step-at child (parent_pends k false) = refl
step-at child (parent_writes k true) = refl
step-at child (parent_writes k false) = refl
step-at child (parent_kills k true) = refl
step-at child (parent_kills k false) = refl
step-at child over = refl

start-at : start ≡ at unset
unfolding start
start-at = refl

at-pairs : (p : Place) → (k : ℕ) × (((at p).printed ≡ pairs k) ⊎ ((at p).printed ≡ child ∷ pairs k))
at-pairs unset = (0, inl refl)
at-pairs set = (0, inl refl)
at-pairs aiming = (0, inl refl)
at-pairs ready = (0, inl refl)
at-pairs (child_pends k back) = (k, inl refl)
at-pairs (child_writes k back) = (k, inl refl)
at-pairs (child_kills k back) = (k, inr refl)
at-pairs (parent_pends k back) = (k, inr refl)
at-pairs (parent_writes k back) = (k, inr refl)
at-pairs (parent_kills k back) = (suc k, inl refl)
at-pairs over = (0, inl refl)

-- After any schedule, the lines alternate, that of the child first: there are some rounds of a line of
-- the child and one of the parent, and at most one more line, of the child.
pub printed_alternates :
    (es : List Who)
    → (k : ℕ) × (((run step es start).printed ≡ pairs k)
        ⊎ ((run step es start).printed ≡ child ∷ pairs k))
unfolding start
printed_alternates es = rw (run-at step next at step-at es unset) (at-pairs (run next es unset))

-- What leads to the next line.
abbrev onward : Place → List Who
onward unset = child ∷ child ∷ child ∷ parent ∷ child ∷ []
onward set = child ∷ child ∷ parent ∷ child ∷ []
onward aiming = child ∷ parent ∷ child ∷ []
onward ready = parent ∷ child ∷ []
onward (child_pends k back) = child ∷ child ∷ []
onward (child_writes k back) = child ∷ []
onward (child_kills k true) = child ∷ parent ∷ []
onward (child_kills k false) = child ∷ parent ∷ parent ∷ []
onward (parent_pends k back) = parent ∷ parent ∷ []
onward (parent_writes k back) = parent ∷ []
onward (parent_kills k true) = parent ∷ child ∷ []
onward (parent_kills k false) = parent ∷ child ∷ child ∷ []
onward over = []

onward-prints :
    (p : Place)
    → (at p).child_process.pc ≢ dead
    → (w : Who) × ((at (run next (onward p) p)).printed ≡ w ∷ (at p).printed)
unfolding run next
onward-prints unset alive = (child, refl)
onward-prints set alive = (child, refl)
onward-prints aiming alive = (child, refl)
onward-prints ready alive = (child, refl)
onward-prints (child_pends k true) alive = (child, refl)
onward-prints (child_pends k false) alive = (child, refl)
onward-prints (child_writes k true) alive = (child, refl)
onward-prints (child_writes k false) alive = (child, refl)
onward-prints (child_kills k true) alive = (parent, refl)
onward-prints (child_kills k false) alive = (parent, refl)
onward-prints (parent_pends k true) alive = (parent, refl)
onward-prints (parent_pends k false) alive = (parent, refl)
onward-prints (parent_writes k true) alive = (parent, refl)
onward-prints (parent_writes k false) alive = (parent, refl)
onward-prints (parent_kills k true) alive = (child, refl)
onward-prints (parent_kills k false) alive = (child, refl)
onward-prints over alive = absurd (alive refl)

-- After any schedule by which the child has not been ended by a signal that came too early, there is a
-- way to go on by which one more line is printed.
pub ping_pong_goes_on :
    (es : List Who)
    → (run step es start).child_process.pc ≢ dead
    → (fs : List Who) × (w : Who) × ((run step fs (run step es start)).printed
        ≡ w ∷ (run step es start).printed)
unfolding start
ping_pong_goes_on es alive =
    let p = run next es unset in
    let here : run step es (at unset) ≡ at p = run-at step next at step-at es unset in
    let there : (at p).child_process.pc ≢ dead =
      λ t. alive (ap (λ (s : State). s.child_process.pc) here ∙ t) in
    let (w, more) = onward-prints p there in
    (onward p, w, rw (here, run-at step next at step-at (onward p) p) more)
