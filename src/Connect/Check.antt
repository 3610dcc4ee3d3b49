-- ===== src/Connect/Check.antt =====
-- What one check of all sockets does in non-blocking-connect.c.
use unix_linux_prog_in_c_src.Base.{
  ℕ, ◌+◌, ◌≤◌, ◌≡◌, inl, inr, refl, arith, Bool, not, ◌&&◌, Option, none, some, List, [], ◌∷◌, ltb,
  leb, ◌==◌, if◌then◌else◌, length, subst, Bool-cases,
}
use unix_linux_prog_in_c_src.Base.Family.{weigh}
use unix_linux_prog_in_c_src.Connect.{
  Report, timed_out, Host, Progress, settle, verdict, check_slots, check_hosts, late_slots,
  late_hosts,
}
use unix_linux_prog_in_c_src.Connect.Setup.{bit, about, mentions, Consecutive, HostsFrom}

abbrev pub within : ℕ → ℕ → ℕ → Bool
within lo hi fd = leb lo fd && ltb fd hi

-- The descriptors of `w` from `lo` up to `hi` are settled, each by one line.
pub record Effect (lo hi : ℕ) (w : ℕ → Bool) (p q : Progress) : Type 0 where
  pub ordered : lo ≤ hi
  pub cleared : (fd : ℕ) → q.orig fd ≡ (p.orig fd && not (within lo hi fd && w fd))
  pub told : (fd : ℕ) → mentions fd q.lines ≡ mentions fd p.lines + bit (within lo hi fd && w fd)
  pub counted : q.finished + weigh bit w lo ≡ p.finished + weigh bit w hi

none-Effect : (lo : ℕ) (w : ℕ → Bool) (p : Progress) → Effect lo lo w p p
none-Effect lo w p = record {
  ordered = omega arith;
  cleared = λ fd. ground arith;
  told = λ fd. ground arith;
  counted = refl;
}

then-Effect :
    (lo m hi : ℕ) (w : ℕ → Bool) (p q r : Progress)
    → Effect lo m w p q
    → Effect m hi w q r
    → Effect lo hi w p r
then-Effect lo m hi w p q r a b = record {
  ordered = omega (arith, a.ordered, b.ordered);
  cleared = λ fd. ground (arith, a.cleared fd, b.cleared fd, a.ordered, b.ordered);
  told = λ fd. ground (arith, a.told fd, b.told fd, a.ordered, b.ordered);
  counted = omega (arith, a.counted, b.counted);
}

about-verdict : (k fd error : ℕ) → about k (verdict fd error) ≡ bit (fd == k)
about-verdict k fd error = ground arith

settle-Effect :
    (lo error : ℕ) (w : ℕ → Bool) (p : Progress)
    → Effect lo (lo + 1) w p (if w lo then settle lo error p else p)
unfolding mentions weigh
settle-Effect lo error w p = elim (Bool-cases (w lo)) [
  | inl t ↦ rw t (record {
    ordered = omega arith;
    cleared = λ fd. ground (arith, t);
    told = λ fd. ground (arith, t, about-verdict fd lo error);
    counted = ground (arith, t);
  })
  | inr t ↦ rw t (record {
    ordered = omega arith;
    cleared = λ fd. ground (arith, t);
    told = λ fd. ground (arith, t);
    counted = ground (arith, t);
  })
]

check_slots-Effect :
    (w : ℕ → Bool) (error : ℕ → ℕ) (slots : List (Option ℕ)) (lo hi : ℕ) (p : Progress)
    → Consecutive lo slots hi
    → Effect lo hi w p (check_slots w error (length slots) slots p)
unfolding check_slots
check_slots-Effect w error [] lo hi p c = subst (λ k. Effect lo k w p p) c (none-Effect lo w p)
check_slots-Effect w error (none ∷ slots) lo hi p c = absurd c
check_slots-Effect w error (some fd ∷ slots) lo hi p (e, c) =
    let q : Progress = if w lo then settle lo (error lo) p else p in
    rw e (
      then-Effect lo (lo + 1) hi w p q (check_slots w error (length slots) slots q)
        (settle-Effect lo (error lo) w p) (check_slots-Effect w error slots (lo + 1) hi q c))

pub check_hosts-Effect :
    (w : ℕ → Bool) (error : ℕ → ℕ) (hosts : List Host) (lo hi : ℕ) (p : Progress)
    → HostsFrom lo hosts hi
    → Effect lo hi w p (check_hosts w error hosts p)
unfolding check_hosts
check_hosts-Effect w error [] lo hi p c = subst (λ k. Effect lo k w p p) c (none-Effect lo w p)
check_hosts-Effect w error (h ∷ hs) lo hi p (m, c, e, rest) =
    let q = check_slots w error (length h.sockets) h.sockets p in
    rw e (
      then-Effect lo m hi w p q (check_hosts w error hs q)
        (check_slots-Effect w error h.sockets lo m p c) (check_hosts-Effect w error hs m hi q rest))

-- The lines of the last loop.
pub record Late (lo hi : ℕ) (orig : ℕ → Bool) (p q : List Report) : Type 0 where
  pub ordered : lo ≤ hi
  pub told : (fd : ℕ) → mentions fd q ≡ mentions fd p + bit (within lo hi fd && orig fd)

none-Late : (lo : ℕ) (orig : ℕ → Bool) (p : List Report) → Late lo lo orig p p
none-Late lo orig p = record { ordered = omega arith; told = λ fd. ground arith }

then-Late :
    (lo m hi : ℕ) (orig : ℕ → Bool) (p q r : List Report)
    → Late lo m orig p q
    → Late m hi orig q r
    → Late lo hi orig p r
then-Late lo m hi orig p q r a b = record {
  ordered = omega (arith, a.ordered, b.ordered);
  told = λ fd. ground (arith, a.told fd, b.told fd, a.ordered, b.ordered);
}

timed_out-Late :
    (lo : ℕ) (orig : ℕ → Bool) (p : List Report)
    → Late lo (lo + 1) orig p (if orig lo then timed_out lo ∷ p else p)
unfolding mentions
timed_out-Late lo orig p = record { ordered = omega arith; told = λ fd. ground arith }

late_slots-Late :
    (orig : ℕ → Bool) (slots : List (Option ℕ)) (lo hi : ℕ) (p : List Report)
    → Consecutive lo slots hi
    → Late lo hi orig p (late_slots orig (length slots) slots p)
unfolding late_slots
late_slots-Late orig [] lo hi p c = subst (λ k. Late lo k orig p p) c (none-Late lo orig p)
late_slots-Late orig (none ∷ slots) lo hi p c = absurd c
late_slots-Late orig (some fd ∷ slots) lo hi p (e, c) =
    let q : List Report = if orig lo then timed_out lo ∷ p else p in
    rw e (
      then-Late lo (lo + 1) hi orig p q (late_slots orig (length slots) slots q)
        (timed_out-Late lo orig p) (late_slots-Late orig slots (lo + 1) hi q c))

pub late_hosts-Late :
    (orig : ℕ → Bool) (hosts : List Host) (lo hi : ℕ) (p : List Report)
    → HostsFrom lo hosts hi
    → Late lo hi orig p (late_hosts orig hosts p)
unfolding late_hosts
late_hosts-Late orig [] lo hi p c = subst (λ k. Late lo k orig p p) c (none-Late lo orig p)
late_hosts-Late orig (h ∷ hs) lo hi p (m, c, e, rest) =
    let q = late_slots orig (length h.sockets) h.sockets p in
    rw e (
      then-Late lo m hi orig p q (late_hosts orig hs q) (late_slots-Late orig h.sockets lo m p c)
        (late_hosts-Late orig hs m hi q rest))
