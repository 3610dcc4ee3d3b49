-- ===== src/Mutexes/Silent.antt =====
-- race-fixed.c prints nothing.
use unix_linux_prog_in_c_src.Base.{
  ℕ, ◌<◌, ◌≡◌, ◌≢◌, refl, arith, Bool, true, false, Option, none, some, List, [], ◌∷◌, ltb, ◌==◌,
  if-cases, run, run-keeps, sym, ◌∙◌,
}
use unix_linux_prog_in_c_src.Base.Family.{put-all}
use unix_linux_prog_in_c_src.Mutexes.{
  Pc, lock, load_a, load_b, store_a, store_b, unlock, State, start, is_free, go, advance, step,
}

abbrev inside : Pc → Bool
inside lock = false
inside load_a = true
inside (load_b a) = true
inside store_a = true
inside store_b = true
inside unlock = true

abbrev owns : ℕ → Option ℕ → Bool
owns i none = false
owns i (some j) = i == j

-- What the thread that has the mutex knows of the members.
abbrev Knows : ℕ → Pc → ℕ → ℕ → Type 0
Knows i lock a b = Unit
Knows i load_a a b = a ≡ b
Knows i (load_b v) a b = (v ≡ a) × (a ≡ b)
Knows i store_a a b = a ≡ b
Knows i store_b a b = a ≡ i
Knows i unlock a b = a ≡ b

abbrev Fits : Option ℕ → ℕ → ℕ → ℕ → Pc → Type 0
Fits w a b i p = (inside p ≡ owns i w) × Knows i p a b

record Inv (s : State) : Type 0 where
  fits : (i : ℕ) → i < 2 → Fits s.mutex s.a s.b i (s.pc i)
  equal : s.mutex ≡ none → s.a ≡ s.b
  silent : s.marks ≡ []

-- A thread outside fits with any members and any other holder.
outside-Fits :
    (w w' : Option ℕ) (a b a' b' j : ℕ) (p : Pc)
    → owns j w ≡ false
    → owns j w' ≡ false
    → Fits w a b j p
    → Fits w' a' b' j p
outside-Fits w w' a b a' b' j lock h k f = (sym k, tt)
outside-Fits w w' a b a' b' j _ h k f = ground (arith, f.0, h)

owns-other : (i j : ℕ) (w : Option ℕ) → owns i w ≡ true → j ≢ i → owns j w ≡ false
owns-other i j none h n = refl
owns-other i j (some k) h n = ground arith

owned-some : (i : ℕ) (w : Option ℕ) → owns i w ≡ true → w ≢ none
owned-some i none h e = ground (arith, h)
owned-some i (some k) h e = ground (arith, e)

free-none : (w : Option ℕ) → is_free w ≡ true → w ≡ none
free-none none h = refl
free-none (some k) h = ground (arith, h)

module _ (i : ℕ) (s : State) (v : Inv s) where
  -- The thread that has the mutex goes on, and may change the members.
  moved :
      (p q : Pc) (a b : ℕ)
      → Fits s.mutex s.a s.b i p
      → inside p ≡ true
      → inside q ≡ true
      → Knows i q a b
      → Inv (go i q (record s { a = a; b = b }))
  moved p q a b own in_p in_q knows =
      let held : owns i s.mutex ≡ true = sym own.0 ∙ in_p in
      record {
        fits =
            put-all (Fits s.mutex a b) 2 s.pc i q (in_q ∙ sym held, knows)
              (λ j l n.
                outside-Fits s.mutex s.mutex s.a s.b a b j (s.pc j) (owns-other i j s.mutex held n)
                  (owns-other i j s.mutex held n) (v.fits j l));
        equal = λ e. absurd (owned-some i s.mutex held e);
        silent = v.silent;
      }

advance-Inv :
    (i : ℕ) (p : Pc) (s : State) → Fits s.mutex s.a s.b i p → Inv s → Inv (advance true i p s)
unfolding advance
advance-Inv i lock s own v =
    if-cases Inv (is_free s.mutex) (go i load_a (record s { mutex = some i })) s
      (λ t.
        let free = free-none s.mutex t in
        record {
          fits =
              put-all (Fits (some i) s.a s.b) 2 s.pc i load_a (ground arith, v.equal free)
                (λ j l n.
                  outside-Fits s.mutex (some i) s.a s.b s.a s.b j (s.pc j) (rw free refl)
                    (ground arith) (v.fits j l));
          equal = λ e. ground arith;
          silent = v.silent;
        })
      (λ t. v)
advance-Inv i load_a s own v = moved i s v load_a (load_b s.a) s.a s.b own refl refl (refl, own.1)
advance-Inv i (load_b r) s own v =
    let t : r == s.b ≡ true = ground (arith, own.1) in
    if-cases Inv (r == s.b) (go i store_a s) (go i store_a (record s { marks = i ∷ s.marks }))
      (λ e. moved i s v (load_b r) store_a s.a s.b own refl refl own.1.1)
      (λ e. absurd (ground (arith, t, e)))
advance-Inv i store_a s own v = moved i s v store_a store_b i s.b own refl refl refl
advance-Inv i store_b s own v = moved i s v store_b unlock s.a i own refl refl own.1
advance-Inv i unlock s own v =
    let held = sym own.0 in
    record {
      fits =
          put-all (Fits none s.a s.b) 2 s.pc i lock (refl, tt)
            (λ j l n.
              outside-Fits s.mutex none s.a s.b s.a s.b j (s.pc j) (owns-other i j s.mutex held n)
                refl (v.fits j l));
      equal = λ e. own.1;
      silent = v.silent;
    }

step-Inv : (i : ℕ) (s : State) → Inv s → Inv (step true i s)
unfolding step
step-Inv i s v =
    if-cases Inv (ltb i 2) (advance true i (s.pc i) s) s
      (λ t. advance-Inv i (s.pc i) s (v.fits i (ground (arith, t))) v) (λ t. v)

start-Inv : Inv (start true)
unfolding start
start-Inv = record { fits = λ i lt. (refl, tt); equal = λ e. refl; silent = refl }

-- Under the mutex, no thread ever finds the members unequal: after any schedule nothing has been
-- printed.
pub fixed_silent : (es : List ℕ) → (run (step true) es (start true)).marks ≡ []
fixed_silent es = (run-keeps Inv (step true) step-Inv es (start true) start-Inv).silent
