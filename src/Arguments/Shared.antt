-- ===== src/Arguments/Shared.antt =====
-- What the threads of wrong-use-of-arg.c can print.
use unix_linux_prog_in_c_src.Base.{
  ℕ, ◌+◌, ◌≤◌, ◌<◌, ◌≡◌, ◌≢◌, refl, subst, arith, false, ltb, ◌==◌, if◌then◌else◌, if-cases,
  Bool-cases, inl, inr, List, ◌∷◌, All, run, run-keeps,
}
use unix_linux_prog_in_c_src.Base.Family.{put}
use unix_linux_prog_in_c_src.Arguments.{
  Thread, unborn, running, finished, MainPc, head, increment, joining, ended, Line, State, start,
  is_finished, main_step, thread_step, Event, main_runs, thread_runs, is_ended, step,
}

abbrev Top : MainPc → ℕ → Type 0
Top head i = i ≤ 5
Top increment i = i < 5
Top (joining j) i = i ≡ 5
Top ended i = i ≡ 5

abbrev pub InRange : Line → Type 0
InRange line = (line.thread ≤ line.value) × (line.value ≤ 5)

record Inv (s : State) : Type 0 where
  top : Top s.main_pc s.i
  born : (k : ℕ) → s.thread k ≢ unborn → k ≤ s.i
  shown : All InRange s.printed

Top-le : (p : MainPc) (i : ℕ) → Top p i → i ≤ 5
Top-le head i h = h
Top-le increment i h = omega (arith, h)
Top-le (joining j) i h = omega (arith, h)
Top-le ended i h = omega (arith, h)

-- A thread that is there goes on.
born-put :
    (k n : ℕ) (a : Thread) (s : State)
    → s.thread k ≡ running n
    → Inv s
    → (j : ℕ) → put k a s.thread j ≢ unborn
    → j ≤ s.i
born-put k n a s e v j h = elim (Bool-cases (k == j)) [
  | inl t ↦ let same : k ≡ j = ground (arith, t) in v.born j (rw⁻¹ same (λ u. ground (arith, u, e)))
  | inr t ↦ v.born j (λ u. h (ground (arith, t, u)))
]

thread_step-Inv :
    (k : ℕ) (p : Thread) (s : State) → s.thread k ≡ p → Inv s → Inv (thread_step false k p s)
unfolding thread_step
thread_step-Inv k unborn s e v = v
thread_step-Inv k (running n) s e v =
    if-cases Inv (ltb n 3)
      (record s {
        thread = put k (running (n + 1)) s.thread;
        printed = record { thread = k; value = s.i; round = n } ∷ s.printed;
      })
      (record s { thread = put k finished s.thread })
      (λ t. record {
        top = v.top;
        born = born-put k n (running (n + 1)) s e v;
        shown = ((v.born k (λ u. ground (arith, u, e)), Top-le s.main_pc s.i v.top), v.shown);
      })
      (λ t. record { top = v.top; born = born-put k n finished s e v; shown = v.shown })
thread_step-Inv k finished s e v = v

main_step-Inv : (p : MainPc) (s : State) → s.main_pc ≡ p → Inv s → Inv (main_step false p s)
unfolding main_step
main_step-Inv head s e v =
    let below : s.i ≤ 5 = Top-le s.main_pc s.i v.top in
    if-cases Inv (ltb s.i 5)
      (record s { main_pc = increment; t = s.i; thread = put s.i (running 0) s.thread })
      (record s { main_pc = joining 0 })
      (λ t. record {
        top = ground (arith, t);
        born = λ k h. elim (Bool-cases (s.i == k)) [
          | inl u ↦ ground (arith, u)
          | inr u ↦ v.born k (λ w. h (ground (arith, u, w)))
        ];
        shown = v.shown;
      })
      (λ t. record { top = ground (arith, t, below); born = v.born; shown = v.shown })
main_step-Inv increment s e v =
    let below : s.i < 5 = subst (λ p. Top p s.i) e v.top in
    record { top = omega (arith, below); born = λ k h. omega (arith, v.born k h); shown = v.shown }
main_step-Inv (joining j) s e v =
    let at_end : s.i ≡ 5 = subst (λ p. Top p s.i) e v.top in
    if-cases Inv (ltb j 5)
      (if is_finished (s.thread s.t) then record s { main_pc = joining (j + 1) } else s)
      (record s { main_pc = ended })
      (λ t.
        if-cases Inv (is_finished (s.thread s.t)) (record s { main_pc = joining (j + 1) }) s
          (λ u. record { top = at_end; born = v.born; shown = v.shown }) (λ u. v))
      (λ t. record { top = at_end; born = v.born; shown = v.shown })
main_step-Inv ended s e v = v

step-Inv : (e : Event) (s : State) → Inv s → Inv (step false e s)
unfolding step
step-Inv main_runs s v = main_step-Inv s.main_pc s refl v
step-Inv (thread_runs k) s v =
    if-cases Inv (is_ended s.main_pc) s (thread_step false k (s.thread k) s) (λ t. v)
      (λ t. thread_step-Inv k (s.thread k) s refl v)

start-Inv : Inv start
unfolding start
start-Inv = record { top = omega arith; born = λ k h. absurd (h refl); shown = tt }

-- With a pointer to the loop variable for all threads: after any schedule, the number in every line
-- is at least that of the thread, and at most 5.
pub shared_bounds : (es : List Event) → All InRange (run (step false) es start).printed
shared_bounds es = (run-keeps Inv (step false) step-Inv es start start-Inv).shown
