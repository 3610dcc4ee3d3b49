-- ===== src/EventLoop/Messages.antt =====
-- The messages of event-loop.c, against the signals.
use unix_linux_prog_in_c_src.Base.{
  ℕ, ◌+◌, ◌≤◌, ◌≡◌, ◌⊎◌, refl, arith, Bool, true, Bool-cases, inl, inr, subst, if◌then◌else◌, List,
  [], ◌∷◌, run, run-keeps,
}
use unix_linux_prog_in_c_src.EventLoop.{
  Pc, polling, testing, announcing, clearing, State, start, interrupted, sig_handler, loop, Event,
  loop_runs, signal_comes, step,
}

-- Whether a message is still to come, as a number.
abbrev owed : Pc → Bool → ℕ
owed polling d = if d then 1 else 0
owed testing d = if d then 1 else 0
owed announcing d = 1
owed clearing d = 0

abbrev Behind : Pc → ℕ → Type 0
Behind polling messages = Unit
Behind testing messages = Unit
Behind announcing messages = Unit
Behind clearing messages = 1 ≤ messages

-- No more messages than signals; and a message, or one to come, where there are signals.
abbrev Balance : Pc → (delivered : Bool) → (signals messages : ℕ) → Type 0
Balance p d signals messages =
    (messages + owed p d ≤ signals)
    × ((signals ≡ 0) ⊎ (1 ≤ messages + owed p d))
    × Behind p messages

abbrev Inv : State → Type 0
Inv s = Balance s.pc s.delivered s.signals s.messages

signal-Balance :
    (p : Pc) (d : Bool) (signals messages : ℕ)
    → Balance p d signals messages
    → Balance (interrupted p) true (signals + 1) messages
signal-Balance polling d signals messages v = (omega (arith, v.0), inr (omega arith), tt)
signal-Balance testing d signals messages v = (omega (arith, v.0), inr (omega arith), tt)
signal-Balance announcing d signals messages v = (omega (arith, v.0), inr (omega arith), tt)
signal-Balance clearing d signals messages v = (omega (arith, v.0), inr (omega (arith, v.2)), v.2)

loop-Inv :
    (p : Pc) (s : State) → s.pc ≡ p → Balance p s.delivered s.signals s.messages → Inv (loop p s)
unfolding loop
loop-Inv polling s e v = v
loop-Inv testing s e v = elim (Bool-cases s.delivered) [
  | inl t ↦ rw t (
    omega (arith, subst (λ d. s.messages + owed testing d ≤ s.signals) t v.0),
    inr (omega arith),
    tt,
  )
  | inr t ↦ rw t (subst (λ d. Balance testing d s.signals s.messages) t v)
]
loop-Inv announcing s e v = (omega (arith, v.0), inr (omega arith), omega arith)
loop-Inv clearing s e v = (omega (arith, v.0), inr (omega (arith, v.2)), tt)

step-Inv : (e : Event) (s : State) → Inv s → Inv (step e s)
unfolding step sig_handler
step-Inv loop_runs s v = loop-Inv s.pc s refl v
step-Inv signal_comes s v = signal-Balance s.pc s.delivered s.signals s.messages v

start-Inv : Inv start
unfolding start
start-Inv = (omega arith, inl refl, tt)

reached-Inv : (es : List Event) → Inv (run step es start)
reached-Inv es = run-keeps Inv step step-Inv es start start-Inv

-- What the loop does until it has cleared the flag.
abbrev round : Pc → List Event
round polling = loop_runs ∷ loop_runs ∷ loop_runs ∷ []
round testing = loop_runs ∷ loop_runs ∷ []
round announcing = loop_runs ∷ []
round clearing = []

round-announces :
    (p : Pc) (s : State)
    → s.pc ≡ p
    → 1 ≤ s.messages + owed p s.delivered
    → 1 ≤ (run step (round p) s).messages
unfolding run step loop
round-announces polling s e h = elim (Bool-cases s.delivered) [
  | inl t ↦ rw (e, t) (omega arith)
  | inr t ↦ rw (e, t) (omega (arith, subst (λ d. 1 ≤ s.messages + owed polling d) t h))
]
round-announces testing s e h = elim (Bool-cases s.delivered) [
  | inl t ↦ rw (e, t) (omega arith)
  | inr t ↦ rw (e, t) (omega (arith, subst (λ d. 1 ≤ s.messages + owed testing d) t h))
]
round-announces announcing s e h = rw e (omega arith)
round-announces clearing s e h = omega (arith, h)

-- After any schedule, there are not more messages than signals.
pub messages-le : (es : List Event) → (run step es start).messages ≤ (run step es start).signals
messages-le es = omega (arith, (reached-Inv es).0)

-- After any schedule with a signal, there is a way to go on, without another signal, to a first message.
pub signal_announced :
    (es : List Event)
    → 1 ≤ (run step es start).signals
    → (fs : List Event) × (1 ≤ (run step fs (run step es start)).messages)
signal_announced es some_came =
    let s = run step es start in
    let v = reached-Inv es in
    let owes : 1 ≤ s.messages + owed s.pc s.delivered = elim v.1 [
      | inl none_came ↦ absurd (omega (arith, none_came, some_came))
      | inr h ↦ h
    ] in
    (round s.pc, round-announces s.pc s refl owes)
