-- ===== src/Queue/Safety.antt =====
-- What queue-simulation.c never does: overfill the queue, enter the critical section twice, print a
-- line of the wrong width.
use unix_linux_prog_in_c_src.Base.{
  ℕ, ◌+◌, ◌≤◌, ◌<◌, ◌≡◌, ◌⊎◌, ◌++◌, inl, inr, Bool, true, Bool-cases, ◌∙◌, false, Option, List, [],
  ◌∷◌, refl, arith, run, run-keeps, ◌&&◌, length, length-append, length-replicate, replicate,
}
use unix_linux_prog_in_c_src.Queue.{
  Pc, poll, change, MainPc, main_lock, main_print, main_unlock, State, start, Event, producer_runs,
  consumer_runs, main_runs, produce, consume, print, render, empty_slots, step, ℤ,
}
use unix_linux_prog_in_c_src.Queue.Invariant.{holds, main_holds, Inv, run-Inv, step-Inv, start-Inv}

-- The capacity stays the same.
abbrev SameCapacity : State → State → Type 0
SameCapacity s s' = (s'.capacity ≡ s.capacity) × (s'.negative ≡ s.negative)

capacity-produce : (r : ℕ) (p : Pc) (s : State) → SameCapacity s (produce r p s)
unfolding produce
capacity-produce r poll s = ground arith
capacity-produce r _ s = ground arith

capacity-consume : (r : ℕ) (p : Pc) (s : State) → SameCapacity s (consume r p s)
unfolding consume
capacity-consume r poll s = ground arith
capacity-consume r _ s = ground arith

capacity-print : (p : MainPc) (s : State) → SameCapacity s (print p s)
unfolding print
capacity-print main_lock s = ground arith
capacity-print _ s = ground arith

capacity-step : (e : Event) (s : State) → SameCapacity s (step e s)
unfolding step
capacity-step (producer_runs r) s = capacity-produce r s.prod s
capacity-step (consumer_runs r) s = capacity-consume r s.cons s
capacity-step main_runs s = capacity-print s.main s
capacity-step _ s = (refl, refl)

pub capacity-run :
    (es : List Event) (arg : Option ℤ) → SameCapacity (start arg) (run step es (start arg))
capacity-run es arg =
    run-keeps (SameCapacity (start arg)) step
      (λ e s h. let (c, n) = capacity-step e s in (c ∙ h.0, n ∙ h.1)) es (start arg) (refl, refl)

-- In every state that a schedule leads to, the count is at most the capacity, which is the one that
-- the program started with, if that is not negative.
pub in_queue-le-capacity :
    (es : List Event) (arg : Option ℤ)
    → (start arg).negative ≡ false
    → (run step es (start arg)).in_queue ≤ (start arg).capacity
in_queue-le-capacity es arg h = ground (arith, run-Inv es arg, capacity-run es arg)

-- Wherever the consumer is about to subtract, it subtracts one item from a count that is not 0.
pub no_underflow :
    (es : List Event) (arg : Option ℤ)
    → (run step es (start arg)).cons ≡ change
    → let s = run step es (start arg) in (s.msg_removed ≡ 1) × (s.msg_removed ≤ s.in_queue)
no_underflow es arg e = ground (arith, run-Inv es arg)

-- In every state that a schedule leads to, at most one of the three threads is between its call of
-- pthread_mutex_lock and its call of pthread_mutex_unlock and not blocked in pthread_cond_wait.
pub mutual_exclusion :
    (es : List Event) (arg : Option ℤ)
    → let s = run step es (start arg) in
      ((holds s.prod && holds s.cons) ≡ false)
      × ((holds s.prod && main_holds s.main) ≡ false)
      × ((holds s.cons && main_holds s.main) ≡ false)
mutual_exclusion es arg = let v = run-Inv es arg in ground (arith, v)

-- What a counter may do in a step; with `unbounded`, it has no bound.
pub data Counts (unbounded : Bool) (capacity n : ℕ) : ℕ → Type 0 where
  stays : {m : ℕ} → m ≡ n → Counts unbounded capacity n m
  puts : {m : ℕ} → (unbounded ≡ true) ⊎ (n < capacity) → m ≡ n + 1 → Counts unbounded capacity n m
  takes : {m : ℕ} → 0 < n → m + 1 ≡ n → Counts unbounded capacity n m

produce-Counts :
    (r : ℕ) (p : Pc) (s : State)
    → s.prod ≡ p
    → Inv s
    → Counts s.negative s.capacity s.in_queue (produce r p s).in_queue
unfolding produce
produce-Counts r poll s e v = stays (ground arith)
produce-Counts r change s e v = puts (ground arith) (ground arith)
produce-Counts r _ s e v = stays (ground arith)

consume-Counts :
    (r : ℕ) (p : Pc) (s : State)
    → s.cons ≡ p
    → Inv s
    → Counts s.negative s.capacity s.in_queue (consume r p s).in_queue
unfolding consume
consume-Counts r poll s e v = stays (ground arith)
consume-Counts r change s e v = takes (ground arith) (ground arith)
consume-Counts r _ s e v = stays (ground arith)

print-Counts :
    (p : MainPc) (s : State) → Counts s.negative s.capacity s.in_queue (print p s).in_queue
unfolding print
print-Counts main_lock s = stays (ground arith)
print-Counts _ s = stays (ground arith)

step-Counts :
    (e : Event) (s : State) → Inv s → Counts s.negative s.capacity s.in_queue (step e s).in_queue
unfolding step
step-Counts (producer_runs r) s v = produce-Counts r s.prod s refl v
step-Counts (consumer_runs r) s v = consume-Counts r s.cons s refl v
step-Counts main_runs s v = print-Counts s.main s
step-Counts _ s v = stays refl

-- The program refines a counter, with the capacity as its bound, or with no bound if the capacity is
-- negative: after any schedule, the next event leaves the count alone, adds one to a count below the
-- bound, or takes one from a count that is not 0.
pub step_refines :
    (es : List Event) (e : Event) (arg : Option ℤ)
    → let s = run step es (start arg) in Counts s.negative s.capacity s.in_queue (step e s).in_queue
step_refines es e arg = step-Counts e (run step es (start arg)) (run-Inv es arg)

length-render : (items spaces : ℕ) → length (render items spaces) ≡ items + spaces + 4
unfolding render
length-render items spaces = omega (
  arith,
  length-append {A = ℕ} (replicate items b'.') (replicate spaces b' ' ++ (b'|' ∷ 0x0a ∷ [])),
  length-append {A = ℕ} (replicate spaces b' ') (b'|' ∷ 0x0a ∷ []),
  length-replicate {A = ℕ} items b'.',
  length-replicate {A = ℕ} spaces b' ',
)

-- The last line that was printed, if any, has the capacity and four more characters.
abbrev HasWidth : State → Type 0
HasWidth s = (s.line ≡ []) ⊎ (s.negative ≡ true) ⊎ (length s.line ≡ s.capacity + 4)

print-HasWidth : (p : MainPc) (s : State) → Inv s → HasWidth s → HasWidth (print p s)
unfolding print
print-HasWidth main_lock s v h = ground arith
print-HasWidth main_print s v h =
    let width = length-render s.in_queue (empty_slots s) in
    elim v.bounded [
      | inl n ↦ inr (inl n)
      | inr le ↦ elim (Bool-cases s.negative) [
        | inl n ↦ inr (inl n)
        | inr n ↦ inr (inr (ground (arith, width, n, le)))
      ]
    ]
print-HasWidth main_unlock s v h = h

line-produce : (r : ℕ) (p : Pc) (s : State) → (produce r p s).line ≡ s.line
unfolding produce
line-produce r poll s = ground arith
line-produce r _ s = ground arith

line-consume : (r : ℕ) (p : Pc) (s : State) → (consume r p s).line ≡ s.line
unfolding consume
line-consume r poll s = ground arith
line-consume r _ s = ground arith

step-HasWidth : (e : Event) (s : State) → Inv s → HasWidth s → HasWidth (step e s)
unfolding step
step-HasWidth (producer_runs r) s v h =
    let (same, sign) = capacity-produce r s.prod s in rw (line-produce r s.prod s, same, sign) h
step-HasWidth (consumer_runs r) s v h =
    let (same, sign) = capacity-consume r s.cons s in rw (line-consume r s.cons s, same, sign) h
step-HasWidth main_runs s v h = print-HasWidth s.main s v h
step-HasWidth _ s v h = h

-- After any schedule, the last line that the main thread printed, if it printed one, is as long as
-- the capacity, unless that is negative, and the four characters of the frame.
pub run-HasWidth :
    (es : List Event) (arg : Option ℤ)
    → let s = run step es (start arg) in
      (s.line ≡ []) ⊎ ((start arg).negative ≡ true) ⊎ (length s.line ≡ (start arg).capacity + 4)
run-HasWidth es arg = ground (arith, keeps, capacity-run es arg)
  where
    keeps : Inv (run step es (start arg)) × HasWidth (run step es (start arg))
    keeps =
        run-keeps (λ s. Inv s × HasWidth s) step
          (λ e s h. (step-Inv e s h.0, step-HasWidth e s h.0 h.1)) es (start arg)
          (start-Inv arg, inl (unfold start in refl))
