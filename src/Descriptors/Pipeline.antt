-- ===== src/Descriptors/Pipeline.antt =====
-- What the two programs that pipe-and-fork.c starts find.
use unix_linux_prog_in_c_src.Base.{
  ℕ, zero, suc, ◌≡◌, ◌≢◌, ◌↔◌, inl, inr, ap, Bool-cases, refl, sym, ◌∙◌, arith, true, false, Option,
  some, ◌∷◌, ◌==◌,
}
use unix_linux_prog_in_c_src.Descriptors.{
  Handle, read_end, write_end, Table, lookup, lowest, install, close, executes, pipe_and_fork,
}
use unix_linux_prog_in_c_src.Descriptors.Tables.{
  lookup-install, lookup-free, lookup-install_self, lookup-close-install_two,
}

-- The read end stays where it was put when the write end is put elsewhere.
lookup-both : (g h : Handle) (t : Table) → lookup (lowest t) (install h (install g t)) ≡ some g
lookup-both g h t =
    let u = install g t in
    ground (
      arith,
      lookup-install (lowest t) h u,
      lookup-install_self g t,
      λ (e : (lowest u == lowest t) ≡ true). lookup-free (lowest t) u e,
    )

differ_at_one :
    (a x y : Option Handle) (left rest : Table)
    → ((k : ℕ) → lookup k left ≡ lookup k rest)
    → (k : ℕ) → k ≢ 1
    → lookup k (a ∷ x ∷ left) ≡ lookup k (a ∷ y ∷ rest)
differ_at_one a x y left rest h zero ne = refl
differ_at_one a x y left rest h (suc zero) ne = absurd (ne refl)
differ_at_one a x y left rest h (suc (suc k)) ne = h k

differ_at_zero :
    (b x y : Option Handle) (left rest : Table)
    → ((k : ℕ) → lookup k left ≡ lookup k rest)
    → (k : ℕ) → k ≢ 0
    → lookup k (x ∷ b ∷ left) ≡ lookup k (y ∷ b ∷ rest)
differ_at_zero b x y left rest h zero ne = absurd (ne refl)
differ_at_zero b x y left rest h (suc zero) ne = refl
differ_at_zero b x y left rest h (suc (suc k)) ne = h k

-- Where the descriptors 0 and 1 are open, each of the two programs is started with its end of the
-- pipe, as the descriptor 1 or 0, and all other descriptors as they were.
pub pipe_and_fork_lem :
    (a b : Handle) (rest : Table)
    → let t = some a ∷ some b ∷ rest in
      (c p : Table) × (pipe_and_fork true t ≡ executes c)
      × (pipe_and_fork false t ≡ executes p)
      × (lookup 1 c ≡ some write_end)
      × (lookup 0 p ≡ some read_end)
      × ((k : ℕ) → k ≢ 1 → lookup k c ≡ lookup k t)
      × ((k : ℕ) → k ≢ 0 → lookup k p ≡ lookup k t)
unfolding pipe_and_fork
pipe_and_fork_lem a b rest =
    let u = install read_end rest in
    let left : Table = close (lowest u) (close (lowest rest) (install write_end u)) in
    let kept : (k : ℕ) → lookup k left ≡ lookup k rest =
      λ k. lookup-close-install_two k read_end write_end rest in
    (
      some a ∷ some write_end ∷ left,
      some read_end ∷ some b ∷ left,
      rw (lookup-install_self write_end u) refl,
      rw (lookup-both read_end write_end rest) refl,
      refl,
      refl,
      differ_at_one (some a) (some write_end) (some b) left rest kept,
      differ_at_zero (some b) (some read_end) (some a) left rest kept,
    )

-- A table that differs from another one in one place, from what is known of the other one.
module _ (t t' : Table) (n : ℕ) (h : Handle) where
  only_place :
      ((k : ℕ) → k ≢ n → lookup k t' ≡ lookup k t)
      → lookup n t' ≡ some h
      → ((k : ℕ) → lookup k t ≢ some h)
      → (k : ℕ) → (lookup k t' ≡ some h) ↔ (k ≡ n)
  only_place same here clean k = (
    λ e. elim (Bool-cases (k == n)) [
      | inl q ↦ ground (arith, q)
      | inr q ↦ absurd (clean k (sym (same k (ground (arith, q))) ∙ e))
    ],
    λ e. ap (λ (j : ℕ). lookup j t') e ∙ here,
  )

  no_place :
      (g : Handle)
      → ((k : ℕ) → k ≢ n → lookup k t' ≡ lookup k t)
      → lookup n t' ≡ some h
      → h ≢ g
      → ((k : ℕ) → lookup k t ≢ some g)
      → (k : ℕ) → lookup k t' ≢ some g
  no_place g same here ne clean k e = elim (Bool-cases (k == n)) [
    | inl q ↦
        let at : k ≡ n = ground (arith, q) in
        let both : some h ≡ some g = sym (ap (λ (j : ℕ). lookup j t') at ∙ here) ∙ e in ne (cc)
    | inr q ↦ clean k (sym (same k (ground (arith, q))) ∙ e)
  ]

-- Where the descriptors 0 and 1 are open and none is an end of a pipe at the start, both processes
-- start their program: the producer with the descriptor 1 as its only write end and with no read end,
-- the consumer with the descriptor 0 as its only read end and with no write end.
pub pipe_and_fork-ends :
    (a b : Handle) (rest : Table)
    → ((k : ℕ) → lookup k (some a ∷ some b ∷ rest) ≢ some write_end)
    → ((k : ℕ) → lookup k (some a ∷ some b ∷ rest) ≢ some read_end)
    → (c p : Table) × (pipe_and_fork true (some a ∷ some b ∷ rest) ≡ executes c)
      × (pipe_and_fork false (some a ∷ some b ∷ rest) ≡ executes p)
      × ((k : ℕ) → (lookup k c ≡ some write_end) ↔ (k ≡ 1))
      × ((k : ℕ) → lookup k c ≢ some read_end)
      × ((k : ℕ) → lookup k p ≢ some write_end)
      × ((k : ℕ) → (lookup k p ≡ some read_end) ↔ (k ≡ 0))
pipe_and_fork-ends a b rest no_write no_read =
    let (c, p, runs_c, runs_p, one, zeroth, same_c, same_p) = pipe_and_fork_lem a b rest in
    let t = some a ∷ some b ∷ rest in
    (
      c,
      p,
      runs_c,
      runs_p,
      only_place t c 1 write_end same_c one no_write,
      no_place t c 1 write_end read_end same_c one (λ e. ground (arith, e)) no_read,
      no_place t p 0 read_end write_end same_p zeroth (λ e. ground (arith, e)) no_write,
      only_place t p 0 read_end same_p zeroth no_read,
    )
