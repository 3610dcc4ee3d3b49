-- ===== src/Race/Inside.antt =====
-- What the locked programs of race/ have in common in their proofs: where a process holds the lock,
-- and what it may rely on in the body of the loop.
use unix_linux_prog_in_c_src.Base.{
  ℕ, ◌≡◌, ◌⊎◌, inl, inr, refl, arith, Bool, true, false, Option, none, some,
}
use unix_linux_prog_in_c_src.Race.{
  Bytes, Pc, loop, acquire, check, release, bump, reap, done, load0, load1, tally, store1, store0,
}

abbrev pub holds : Pc → ℕ
holds loop = 0
holds acquire = 0
holds (check b) = 1
holds release = 1
holds bump = 0
holds reap = 0
holds (done status) = 0

-- The bytes may differ only while a process stands between its two stores, ...
abbrev pub is_dirty : Pc → Bool
is_dirty (check store0) = true
is_dirty (check load0) = false
is_dirty (check (load1 v)) = false
is_dirty (check tally) = false
is_dirty (check store1) = false
is_dirty loop = false
is_dirty acquire = false
is_dirty release = false
is_dirty bump = false
is_dirty reap = false
is_dirty (done status) = false

-- ... and what a process has seen or written is still there.
abbrev pub Seen : ℕ → Bytes → Pc → Type 0
Seen k m (check (load1 v)) = m.b0 ≡ v
Seen k m (check tally) = ⊥
Seen k m (check store0) = m.b1 ≡ k
Seen k m (check load0) = Unit
Seen k m (check store1) = Unit
Seen k m loop = Unit
Seen k m acquire = Unit
Seen k m release = Unit
Seen k m bump = Unit
Seen k m reap = Unit
Seen k m (done status) = Unit

abbrev pub NoneCounted : Option (ℕ × ℕ) → Type 0
NoneCounted none = Unit
NoneCounted (some t) = t.0 ≡ 0

pub said_none : (o : Option (ℕ × ℕ)) → NoneCounted o → (o ≡ none) ⊎ ((n : ℕ) × (o ≡ some (0, n)))
said_none none h = inl refl
said_none (some t) h = inr (t.1, ground (arith, h))
