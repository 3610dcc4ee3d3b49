-- ===== src/Counter/Options.antt =====
-- Which way of adding the options of atomic-add.c choose.
use unix_linux_prog_in_c_src.Base.{
  ℕ, ◌≤◌, ◌≡◌, ◌≢◌, inl, inr, refl, arith, List, [], ◌∷◌, All, some, Option-cases,
}
use unix_linux_prog_in_c_src.Counter.{
  Mode, atomic, mutexed, plain, Flags, options, select, configure,
}

mutex_flag-stays :
    (cs : List ℕ) (f g : Flags) → f.mutex_flag ≡ 1 → options f cs ≡ some g → g.mutex_flag ≡ 1
unfolding options
mutex_flag-stays [] f g h e = ground arith
mutex_flag-stays (c ∷ cs) f g h e = ground (
  arith,
  mutex_flag-stays cs (record f { atomic_flag = 1 }) g,
  mutex_flag-stays cs (record f { mutex_flag = 1 }) g,
)

atomic_flag-stays :
    (cs : List ℕ) (f g : Flags) → f.atomic_flag ≡ 1 → options f cs ≡ some g → g.atomic_flag ≡ 1
unfolding options
atomic_flag-stays [] f g h e = ground arith
atomic_flag-stays (c ∷ cs) f g h e = ground (
  arith,
  atomic_flag-stays cs (record f { atomic_flag = 1 }) g,
  atomic_flag-stays cs (record f { mutex_flag = 1 }) g,
)

only_a :
    (cs : List ℕ) (f g : Flags) → options f cs ≡ some g → g.mutex_flag ≡ 0 → All (λ c. c ≡ b'a') cs
unfolding options
only_a [] f g e z = tt
only_a (c ∷ cs) f g e z = ground (
  arith,
  only_a cs (record f { atomic_flag = 1 }) g,
  mutex_flag-stays cs (record f { mutex_flag = 1 }) g,
)

only_m :
    (cs : List ℕ) (f g : Flags) → options f cs ≡ some g → g.atomic_flag ≡ 0 → All (λ c. c ≡ b'm') cs
unfolding options
only_m [] f g e z = tt
only_m (c ∷ cs) f g e z = ground (
  arith,
  only_m cs (record f { mutex_flag = 1 }) g,
  atomic_flag-stays cs (record f { atomic_flag = 1 }) g,
)

flags-bits :
    (cs : List ℕ) (f g : Flags)
    → f.atomic_flag ≤ 1
    → f.mutex_flag ≤ 1
    → options f cs ≡ some g
    → (g.atomic_flag ≤ 1) × (g.mutex_flag ≤ 1)
unfolding options
flags-bits [] f g a m e = ground arith
flags-bits (c ∷ cs) f g a m e = ground (
  arith,
  flags-bits cs (record f { atomic_flag = 1 }) g,
  flags-bits cs (record f { mutex_flag = 1 }) g,
)

-- What the list of options looks like, by the way of adding that it chooses.
abbrev pub Chosen : List ℕ → Mode → Type 0
Chosen cs atomic = (cs ≢ []) × All (λ c. c ≡ b'a') cs
Chosen cs mutexed = (cs ≢ []) × All (λ c. c ≡ b'm') cs
Chosen cs plain = cs ≡ []

abbrev no_flags : Flags
no_flags = record { atomic_flag = 0; mutex_flag = 0 }

-- What the flags are behind the test.
abbrev Selected : Mode → Flags → Type 0
Selected atomic g = (g.atomic_flag ≡ 1) × (g.mutex_flag ≡ 0)
Selected mutexed g = (g.atomic_flag ≡ 0) × (g.mutex_flag ≡ 1)
Selected plain g = (g.atomic_flag ≡ 0) × (g.mutex_flag ≡ 0)

select-Selected :
    (mode : Mode) (operands : ℕ) (g : Flags)
    → (g.atomic_flag ≤ 1) × (g.mutex_flag ≤ 1)
    → select g operands ≡ some mode
    → (operands ≡ 1) × Selected mode g
unfolding select
select-Selected atomic operands g b e = ground arith
select-Selected mutexed operands g b e = ground arith
select-Selected plain operands g b e = ground arith

Selected-Chosen :
    (cs : List ℕ) (mode : Mode) (g : Flags)
    → options no_flags cs ≡ some g
    → Selected mode g
    → Chosen cs mode
Selected-Chosen [] atomic g r s = absurd (unfold options in ground arith)
Selected-Chosen [] mutexed g r s = absurd (unfold options in ground arith)
Selected-Chosen [] plain g r s = refl
Selected-Chosen (c ∷ cs) atomic g r s = (λ k. cc, only_a (c ∷ cs) no_flags g r s.1)
Selected-Chosen (c ∷ cs) mutexed g r s = (λ k. cc, only_m (c ∷ cs) no_flags g r s.0)
Selected-Chosen (c ∷ cs) plain g r s =
    let all_a = only_a (c ∷ cs) no_flags g r s.1 in
    let all_m = only_m (c ∷ cs) no_flags g r s.0 in absurd (omega (arith, all_a.0, all_m.0))

-- If the program goes on to count, it was given one operand, and it adds atomically only where every
-- option is -a, under the mutex only where every option is -m, and with no protection only where
-- there is no option.
pub configure-Chosen :
    (cs : List ℕ) (operands : ℕ) (mode : Mode)
    → configure cs operands ≡ some mode
    → (operands ≡ 1) × Chosen cs mode
unfolding configure
configure-Chosen cs operands mode e = elim (Option-cases (options no_flags cs)) [
  | inl stop ↦ absurd (ground (arith, e, stop))
  | inr (g, r) ↦
      let bits = flags-bits cs no_flags g (omega arith) (omega arith) r in
      let chosen = select-Selected mode operands g bits (ground (arith, e, r)) in
      (chosen.0, Selected-Chosen cs mode g r chosen.1)
]
