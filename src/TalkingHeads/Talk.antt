-- ===== src/TalkingHeads/Talk.antt =====
-- What a child of talking-heads.c says in one turn.
use unix_linux_prog_in_c_src.Base.{
  ℕ, zero, suc, ◌+◌, ◌-◌, ◌%◌, ◌<◌, ◌≡◌, refl, arith, [], ◌∷◌, ◌++◌, replicate, length,
  length-append, length-replicate,
}
use unix_linux_prog_in_c_src.TalkingHeads.{max_secs, said, last_said, talk_loop, talk}

talk_loop-eq :
    (id left : ℕ) → talk_loop id (suc left) ≡ replicate left (said id) ++ (last_said id ∷ [])
unfolding talk_loop
talk_loop-eq id zero = refl
talk_loop-eq id (suc left) = rw (talk_loop-eq id left)

-- Whatever rand() returns, a turn lasts from one to six seconds; the child says its number once each
-- second, all but the last time without the parentheses, and the last time with them.
pub talk_lem :
    (id r : ℕ)
    → (n : ℕ) × (n < max_secs - 1)
      × (talk id r ≡ replicate n (said id) ++ (last_said id ∷ []))
      × (length (talk id r) ≡ n + 1)
unfolding talk
talk_lem id r =
    let n : ℕ = r % 6 in
    let e : talk_loop id (n + 1) ≡ replicate n (said id) ++ (last_said id ∷ []) =
      let f : n + 1 ≡ suc n = omega arith in rw f (talk_loop-eq id n) in
    (
      n,
      omega arith,
      e,
      rw e (
          omega (
            arith,
            length-append (replicate n (said id)) (last_said id ∷ []),
            length-replicate n (said id),
          )),
    )
