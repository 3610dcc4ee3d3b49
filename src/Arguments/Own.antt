-- ===== src/Arguments/Own.antt =====
-- The threads of correct-use-of-args.c print their own numbers.
use unix_linux_prog_in_c_src.Base.{
  ℕ, ◌+◌, ◌≤◌, ◌<◌, ◌≡◌, ◌≢◌, refl, subst, arith, true, false, ltb, ◌==◌, if◌then◌else◌, if-cases,
  Bool-cases, inl, inr, List, [], ◌∷◌, run, run-keeps,
}
use unix_linux_prog_in_c_src.Base.Family.{put, put-all}
use unix_linux_prog_in_c_src.Arguments.{
  Thread, unborn, running, finished, MainPc, head, increment, joining, ended, Line, State, start,
  is_finished, main_step, thread_step, Event, main_runs, thread_runs, is_ended, step,
}

-- The lines of a thread that show its own number.
pub lines_of : ℕ → List Line → ℕ
lines_of k [] = 0
lines_of k (line ∷ rest) =
    let n = lines_of k rest in if line.thread == k then if line.value == k then n + 1 else n else n

-- All lines of a thread.
pub all_lines_of : ℕ → List Line → ℕ
all_lines_of k [] = 0
all_lines_of k (line ∷ rest) = let n = all_lines_of k rest in if line.thread == k then n + 1 else n

-- Where a thread stands, with its number in the array and its lines.
abbrev Fits : ℕ → Thread → (id lines all : ℕ) → Type 0
Fits k unborn id lines all = (lines ≡ 0) × (all ≡ 0)
Fits k (running i) id lines all = (id ≡ k) × (lines ≡ i) × (all ≡ i) × (i ≤ 3)
Fits k finished id lines all = (lines ≡ 3) × (all ≡ 3)

abbrev Goes : MainPc → (i : ℕ) → (ℕ → Thread) → Type 0
Goes head i thread = (k : ℕ) → i ≤ k → thread k ≡ unborn
Goes increment i thread = (k : ℕ) → i < k → thread k ≡ unborn
Goes (joining j) i thread = (k : ℕ) → k < j → thread k ≡ finished
Goes ended i thread = (k : ℕ) → k < 5 → thread k ≡ finished

record Inv (s : State) : Type 0 where
  fits : (k : ℕ) → Fits k (s.thread k) (s.id k) (lines_of k s.printed) (all_lines_of k s.printed)
  goes : Goes s.main_pc s.i s.thread

-- A thread that is not there cannot move, and one that is finished stays so.
Goes-put :
    (p : MainPc) (i k : ℕ) (th : ℕ → Thread) (n : ℕ) (a : Thread)
    → th k ≡ running n
    → Goes p i th
    → Goes p i (put k a th)
Goes-put head i k th n a e g = λ j l. ground (arith, e, g j l)
Goes-put increment i k th n a e g = λ j l. ground (arith, e, g j l)
Goes-put (joining m) i k th n a e g = λ j l. ground (arith, e, g j l)
Goes-put ended i k th n a e g = λ j l. ground (arith, e, g j l)

-- What holds of one new value and of all others.
put-every :
    {A : Type 0} (P : ℕ → A → Type 0) (f : ℕ → A) (i : ℕ) (a : A)
    → P i a
    → ((j : ℕ) → j ≢ i → P j (f j))
    → (j : ℕ) → P j (put i a f j)
put-every P f i a own others j = put-all P (j + 1) f i a own (λ k l n. others k n) j (omega arith)

print-Inv :
    (k n : ℕ) (s : State)
    → s.thread k ≡ running n
    → n < 3
    → Inv s
    → Inv (record s {
      thread = put k (running (n + 1)) s.thread;
      printed = record { thread = k; value = s.id k; round = n } ∷ s.printed;
    })
unfolding lines_of all_lines_of
print-Inv k n s e lt v =
    let (own, lines, all, le) =
      subst (λ th. Fits k th (s.id k) (lines_of k s.printed) (all_lines_of k s.printed)) e
        (v.fits k) in
    let lines' : List Line = record { thread = k; value = s.id k; round = n } ∷ s.printed in
    record {
      fits =
          put-every (λ j th. Fits j th (s.id j) (lines_of j lines') (all_lines_of j lines'))
            s.thread k (running (n + 1))
            (own, ground (arith, own, lines), ground (arith, all), omega (arith, lt))
            (λ j ne. let t : k == j ≡ false = ground arith in rw t (v.fits j));
      goes = Goes-put s.main_pc s.i k s.thread n (running (n + 1)) e v.goes;
    }

finish-Inv :
    (k n : ℕ) (s : State)
    → s.thread k ≡ running n
    → 3 ≤ n
    → Inv s
    → Inv (record s { thread = put k finished s.thread })
finish-Inv k n s e le v =
    let (own, lines, all, le') =
      subst (λ th. Fits k th (s.id k) (lines_of k s.printed) (all_lines_of k s.printed)) e
        (v.fits k) in
    record {
      fits =
          put-every (λ j th. Fits j th (s.id j) (lines_of j s.printed) (all_lines_of j s.printed))
            s.thread k finished (omega (arith, lines, le, le'), omega (arith, all, le, le'))
            (λ j ne. v.fits j);
      goes = Goes-put s.main_pc s.i k s.thread n finished e v.goes;
    }

thread_step-Inv :
    (k : ℕ) (p : Thread) (s : State) → s.thread k ≡ p → Inv s → Inv (thread_step true k p s)
unfolding thread_step
thread_step-Inv k unborn s e v = v
thread_step-Inv k (running n) s e v =
    if-cases Inv (ltb n 3)
      (record s {
        thread = put k (running (n + 1)) s.thread;
        printed = record { thread = k; value = s.id k; round = n } ∷ s.printed;
      })
      (record s { thread = put k finished s.thread }) (λ t. print-Inv k n s e (ground (arith, t)) v)
      (λ t. finish-Inv k n s e (ground (arith, t)) v)
thread_step-Inv k finished s e v = v

create-Inv :
    (s : State)
    → s.main_pc ≡ head
    → Inv s
    → Inv (record s {
      main_pc = increment;
      id = put s.i s.i s.id;
      t = s.i;
      thread = put s.i (running 0) s.thread;
    })
create-Inv s e v =
    let free = subst (λ p. Goes p s.i s.thread) e v.goes in
    let (none, none') =
      subst (λ th. Fits s.i th (s.id s.i) (lines_of s.i s.printed) (all_lines_of s.i s.printed))
        (free s.i (omega arith)) (v.fits s.i) in
    record {
      fits =
          put-every
            (λ j th.
              Fits j th (put s.i s.i s.id j) (lines_of j s.printed) (all_lines_of j s.printed))
            s.thread s.i (running 0) (ground arith, none, none', omega arith)
            (λ j ne. let t : s.i == j ≡ false = ground arith in rw t (v.fits j));
      goes = λ k l. ground (arith, free k);
    }

is_finished-eq : (th : Thread) → is_finished th ≡ true → th ≡ finished
is_finished-eq finished h = refl
is_finished-eq unborn h = ground (arith, h)
is_finished-eq (running n) h = ground (arith, h)

main_step-Inv : (p : MainPc) (s : State) → s.main_pc ≡ p → Inv s → Inv (main_step true p s)
unfolding main_step
main_step-Inv head s e v =
    if-cases Inv (ltb s.i 5)
      (record s {
        main_pc = increment;
        id = put s.i s.i s.id;
        t = s.i;
        thread = put s.i (running 0) s.thread;
      })
      (record s { main_pc = joining 0 }) (λ t. create-Inv s e v)
      (λ t. record { fits = v.fits; goes = λ k l. absurd (omega (arith, l)) })
main_step-Inv increment s e v =
    let free = subst (λ p. Goes p s.i s.thread) e v.goes in
    record { fits = v.fits; goes = λ k l. free k (omega (arith, l)) }
main_step-Inv (joining j) s e v =
    let done = subst (λ p. Goes p s.i s.thread) e v.goes in
    if-cases Inv (ltb j 5)
      (if is_finished (s.thread j) then record s { main_pc = joining (j + 1) } else s)
      (record s { main_pc = ended })
      (λ t.
        if-cases Inv (is_finished (s.thread j)) (record s { main_pc = joining (j + 1) }) s
          (λ u.
            let last : s.thread j ≡ finished = is_finished-eq (s.thread j) u in
            record {
              fits = v.fits;
              goes = λ k l. elim (Bool-cases (k == j)) [
                | inl q ↦ let same : k ≡ j = ground (arith, q) in rw same last
                | inr q ↦ done k (ground (arith, q, l))
              ];
            })
          (λ u. v))
      (λ t. record { fits = v.fits; goes = λ k l. done k (ground (arith, t, l)) })
main_step-Inv ended s e v = v

step-Inv : (e : Event) (s : State) → Inv s → Inv (step true e s)
unfolding step
step-Inv main_runs s v = main_step-Inv s.main_pc s refl v
step-Inv (thread_runs k) s v =
    if-cases Inv (is_ended s.main_pc) s (thread_step true k (s.thread k) s) (λ t. v)
      (λ t. thread_step-Inv k (s.thread k) s refl v)

start-Inv : Inv start
unfolding start lines_of all_lines_of
start-Inv = record { fits = λ k. (refl, refl); goes = λ k l. refl }

-- With a number of its own for each thread: at the end, after any schedule, every thread has printed
-- three lines, and all of them show its own number.
pub own_numbers :
    (es : List Event) (k : ℕ)
    → k < 5
    → (run (step true) es start).main_pc ≡ ended
    → (all_lines_of k (run (step true) es start).printed ≡ 3)
      × (lines_of k (run (step true) es start).printed ≡ 3)
own_numbers es k lt e =
    let s = run (step true) es start in
    let v = run-keeps Inv (step true) step-Inv es start start-Inv in
    let done : s.thread k ≡ finished = subst (λ p. Goes p s.i s.thread) e v.goes k lt in
    let (own, all) =
      subst (λ th. Fits k th (s.id k) (lines_of k s.printed) (all_lines_of k s.printed)) done
        (v.fits k) in
    (all, own)
