-- ===== src/Arguments/End.antt =====
-- The program correct-use-of-args.c comes to its end.
use unix_linux_prog_in_c_src.Base.{
  ℕ, ◌+◌, ◌-◌, ◌*◌, ◌≤◌, ◌<◌, ◌≡◌, ◌≢◌, ◌⊎◌, refl, ap, subst, arith, true, false, ltb, ◌==◌,
  if◌then◌else◌, if-cases, Bool-cases, inl, inr, List, ◌++◌, run, run-keeps, run-ends, run-append,
}
use unix_linux_prog_in_c_src.Base.Family.{put, weigh, weigh-put}
use unix_linux_prog_in_c_src.Arguments.{
  Thread, unborn, running, finished, MainPc, head, increment, joining, ended, State, start,
  is_finished, main_step, thread_step, Event, main_runs, thread_runs, is_ended, step,
}
use unix_linux_prog_in_c_src.Arguments.Own.{lines_of, all_lines_of, own_numbers}

-- The threads that are there, by where `main` stands.
abbrev Born : MainPc → (i : ℕ) → (ℕ → Thread) → Type 0
Born head i thread = (k : ℕ) → k < i → thread k ≢ unborn
Born increment i thread = (k : ℕ) → k ≤ i → thread k ≢ unborn
Born (joining j) i thread = (k : ℕ) → k < 5 → thread k ≢ unborn
Born ended i thread = Unit

abbrev Inv : State → Type 0
Inv s = Born s.main_pc s.i s.thread

put-born :
    (th : ℕ → Thread) (k : ℕ) (a : Thread) (j : ℕ)
    → a ≢ unborn
    → th j ≢ unborn
    → put k a th j ≢ unborn
put-born th k a j na old = λ t. ground (arith, t, na, old)

Born-put :
    (p : MainPc) (i k : ℕ) (th : ℕ → Thread) (a : Thread)
    → a ≢ unborn
    → Born p i th
    → Born p i (put k a th)
Born-put head i k th a na v = λ j l. put-born th k a j na (v j l)
Born-put increment i k th a na v = λ j l. put-born th k a j na (v j l)
Born-put (joining m) i k th a na v = λ j l. put-born th k a j na (v j l)
Born-put ended i k th a na v = tt

running-born : (n : ℕ) → running n ≢ unborn
running-born n t = ground (arith, t)

finished-born : finished ≢ unborn
finished-born t = ground (arith, t)

thread_step-Inv : (k : ℕ) (p : Thread) (s : State) → Inv s → Inv (thread_step true k p s)
unfolding thread_step
thread_step-Inv k unborn s v = v
thread_step-Inv k (running n) s v =
    if-cases Inv (ltb n 3) _ (record s { thread = put k finished s.thread })
      (λ t. Born-put s.main_pc s.i k s.thread (running (n + 1)) (running-born (n + 1)) v)
      (λ t. Born-put s.main_pc s.i k s.thread finished finished-born v)
thread_step-Inv k finished s v = v

main_step-Inv :
    (p : MainPc) (s : State) → s.main_pc ≡ p → Born p s.i s.thread → Inv (main_step true p s)
unfolding main_step
main_step-Inv head s e v =
    if-cases Inv (ltb s.i 5) _ (record s { main_pc = joining 0 })
      (λ t k l. elim (Bool-cases (s.i == k)) [
        | inl q ↦ rw q (running-born 0)
        | inr q ↦ rw q (v k (ground (arith, q, l)))
      ])
      (λ t k l. v k (ground (arith, t, l)))
main_step-Inv increment s e v = λ k l. v k (omega (arith, l))
main_step-Inv (joining j) s e v =
    if-cases Inv (ltb j 5)
      (if is_finished (s.thread j) then record s { main_pc = joining (j + 1) } else s)
      (record s { main_pc = ended })
      (λ t.
        if-cases Inv (is_finished (s.thread j)) (record s { main_pc = joining (j + 1) }) s (λ u. v)
          (λ u. rw e v))
      (λ t. tt)
main_step-Inv ended s e v = rw e tt

step-Inv : (e : Event) (s : State) → Inv s → Inv (step true e s)
unfolding step
step-Inv main_runs s v = main_step-Inv s.main_pc s refl v
step-Inv (thread_runs k) s v =
    if-cases Inv (is_ended s.main_pc) s (thread_step true k (s.thread k) s) (λ t. v)
      (λ t. thread_step-Inv k (s.thread k) s v)

start-Inv : Inv start
unfolding start
start-Inv = λ k l. absurd (omega (arith, l))

-- The steps left.
abbrev main_left : MainPc → ℕ → ℕ
main_left head i = 6 * (5 - i) + 8
main_left increment i = 6 * (5 - (i + 1)) + 9
main_left (joining j) i = 6 - j + 1
main_left ended i = 0

abbrev thread_left : Thread → ℕ
thread_left unborn = 0
thread_left (running n) = 3 - n + 1
thread_left finished = 0

abbrev left : State → ℕ
left s = main_left s.main_pc s.i + weigh thread_left s.thread 5

-- A step of `main` that does not wait.
main_step-lt :
    (p : MainPc) (s : State)
    → s.main_pc ≡ p
    → p ≢ ended
    → ((j : ℕ) → p ≡ joining j → j < 5 → s.thread j ≡ finished)
    → left (main_step true p s) < left s
unfolding main_step
main_step-lt head s e ne h =
    let here : main_left s.main_pc s.i ≡ 6 * (5 - s.i) + 8 = rw e refl in
    if-cases (λ (s' : State). left s' < left s) (ltb s.i 5) _ (record s { main_pc = joining 0 })
      (λ t.
        let below : s.i < 5 = ground (arith, t) in
        omega (arith, weigh-put thread_left s.thread s.i (running 0) 5 below, here))
      (λ t. omega (arith, here))
main_step-lt increment s e ne h = rw e (omega arith)
main_step-lt (joining j) s e ne h =
    let here : main_left s.main_pc s.i ≡ 6 - j + 1 = rw e refl in
    if-cases (λ (s' : State). left s' < left s) (ltb j 5)
      (if is_finished (s.thread j) then record s { main_pc = joining (j + 1) } else s)
      (record s { main_pc = ended })
      (λ t.
        let below : j < 5 = ground (arith, t) in
        let waits_not : is_finished (s.thread j) ≡ true = rw (h j refl below) refl in
        rw waits_not (omega (arith, here, below)))
      (λ t. omega (arith, here))
main_step-lt ended s e ne h = absurd (ne refl)

thread_runs-lt :
    (k n : ℕ) (s : State)
    → k < 5
    → s.thread k ≡ running n
    → left (thread_step true k (running n) s) < left s
unfolding thread_step
thread_runs-lt k n s lt e =
    let here : thread_left (s.thread k) ≡ 3 - n + 1 = rw e refl in
    if-cases (λ (s' : State). left s' < left s) (ltb n 3) _
      (record s { thread = put k finished s.thread })
      (λ t.
        let below : n < 3 = ground (arith, t) in
        omega (arith, weigh-put thread_left s.thread k (running (n + 1)) 5 lt, here, below))
      (λ t. omega (arith, weigh-put thread_left s.thread k finished 5 lt, here))

abbrev Next : State → Type 0
Next s = (s.main_pc ≡ ended) ⊎ ((e : Event) × Inv (step true e s) × (left (step true e s) < left s))

main_next :
    (s : State)
    → Inv s
    → s.main_pc ≢ ended
    → ((j : ℕ) → s.main_pc ≡ joining j → j < 5 → s.thread j ≡ finished)
    → Next s
unfolding step
main_next s v ne h = inr (main_runs, step-Inv main_runs s v, main_step-lt s.main_pc s refl ne h)

step-thread :
    (k : ℕ) (th : Thread) (s : State)
    → is_ended s.main_pc ≡ false
    → s.thread k ≡ th
    → step true (thread_runs k) s ≡ thread_step true k th s
unfolding step
step-thread k th s alive f =
    if-cases (λ s'. s' ≡ thread_step true k th s) (is_ended s.main_pc) s
      (thread_step true k (s.thread k) s) (λ t. absurd (ground (arith, t, alive)))
      (λ t. ap (λ a. thread_step true k a s) f)

-- In the wait for a thread, the thread goes on.
joining_next :
    (j : ℕ) (th : Thread) (s : State)
    → s.main_pc ≡ joining j
    → j < 5
    → s.thread j ≡ th
    → Inv s
    → Next s
joining_next j unborn s e lt f v = absurd (subst (λ p. Born p s.i s.thread) e v j lt f)
joining_next j (running n) s e lt f v = inr (
  thread_runs j,
  step-Inv (thread_runs j) s v,
  rw (step-thread j (running n) s (rw e refl) f) (thread_runs-lt j n s lt f),
)
joining_next j finished s e lt f v =
    main_next s v (λ t. ground (arith, e, t))
      (λ k t l. let same : k ≡ j = ground (arith, e, t) in rw same f)

next : (p : MainPc) (s : State) → s.main_pc ≡ p → Inv s → Next s
next head s e v = main_next s v (λ t. ground (arith, e, t)) (λ k t l. ground (arith, e, t))
next increment s e v = main_next s v (λ t. ground (arith, e, t)) (λ k t l. ground (arith, e, t))
next (joining j) s e v = elim (Bool-cases (ltb j 5)) [
  | inl t ↦ joining_next j (s.thread j) s e (ground (arith, t)) refl v
  | inr t ↦
      main_next s v (λ u. ground (arith, e, u))
        (λ k u l. let same : k ≡ j = ground (arith, e, u) in absurd (ground (arith, t, l, same)))
]
next ended s e v = inl e

-- With a number of its own for each thread, after any schedule: there is a way to go on by which `main`
-- ends, and behind it each of the five threads has printed three lines, all of them with its own number.
pub own_numbers_printed :
    (es : List Event)
    → (fs : List Event) × let s = run (step true) fs (run (step true) es start) in
        (s.main_pc ≡ ended)
        × ((k : ℕ) → k < 5 → (all_lines_of k s.printed ≡ 3) × (lines_of k s.printed ≡ 3))
own_numbers_printed es =
    let s = run (step true) es start in
    let v = run-keeps Inv (step true) step-Inv es start start-Inv in
    let (fs, short, at_end) =
      run-ends (step true) Inv (λ (t : State). t.main_pc ≡ ended) left
        (λ t w. next t.main_pc t refl w) (left s) s (omega arith) v in
    let both = run-append (step true) es fs start in
    (
      fs,
      (
        at_end,
        λ k lt.
            let (all, own) = own_numbers (es ++ fs) k lt (rw both at_end) in
            (rw (← both) all, rw (← both) own),
      ),
    )
