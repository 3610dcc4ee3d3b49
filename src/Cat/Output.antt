-- ===== src/Cat/Output.antt =====
-- What cat.c prints.
use unix_linux_prog_in_c_src.Base.{
  ℕ, zero, suc, ◌+◌, ◌<◌, ◌≡◌, ◌≢◌, ◌⊎◌, inl, inr, refl, arith, Bool, true, false, none, some, List,
  [], ◌∷◌, ◌++◌, length, take, drop, take-append-drop, length-drop, All, ap, sym, subst, if-cases,
}
use unix_linux_prog_in_c_src.Cat.{
  Answer, fails, gives, File, smaller, Result, is_empty, printed_before, read_round, copy, do_cat,
  followed_by, cat,
}

abbrev pub contents : List File → List ℕ
contents [] = []
contents (f ∷ fs) = f.content ++ contents fs

-- A result that is there; if `ret` is 0, all has been printed.
abbrev Complete : List ℕ → Result → Type 0
Complete bytes none = ⊥
Complete bytes (some (out, ret)) = (ret ≡ true) ⊎ (out ≡ bytes)

empty-drop : (n : ℕ) (xs : List ℕ) → 0 < n → is_empty (take n xs) ≡ true → xs ≡ []
empty-drop n [] h e = refl
empty-drop zero (x ∷ xs) h e = absurd (omega (arith, h))
empty-drop (suc n) (x ∷ xs) h e = ground (arith, e)

full-length : (n : ℕ) (xs : List ℕ) → is_empty (take n xs) ≡ false → (0 < length xs) × (0 < n)
full-length n [] e = ground (arith, e)
full-length zero (x ∷ xs) e = ground (arith, e)
full-length (suc n) (x ∷ xs) e = (omega arith, omega arith)

printed_before-Complete :
    (bytes rest : List ℕ) (r : Result)
    → Complete rest r
    → Complete (bytes ++ rest) (printed_before bytes r)
printed_before-Complete bytes rest none c = c
printed_before-Complete bytes rest (some (out, ret)) (inl t) = inl t
printed_before-Complete bytes rest (some (out, ret)) (inr e) =
    inr (ap (λ (o : List ℕ). bytes ++ o) e)

read_round-Complete :
    (a : Answer) (bufsize : ℕ) (rest : List ℕ) (later : ℕ → Result)
    → 0 < bufsize
    → ((n : ℕ) → 0 < n → 0 < length rest → Complete (drop n rest) (later n))
    → Complete rest (read_round a bufsize rest later)
unfolding read_round
read_round-Complete fails bufsize rest later b h = inl refl
read_round-Complete (gives more) bufsize rest later b h =
    let n = smaller bufsize (suc more) in
    let pos : 0 < n = ground arith in
    if-cases (Complete rest) (is_empty (take n rest)) (some ([], false))
      (printed_before (take n rest) (later n)) (λ t. inr (sym (empty-drop n rest pos t)))
      (λ t.
        subst (λ bytes. Complete bytes (printed_before (take n rest) (later n)))
          (take-append-drop n rest)
          (printed_before-Complete (take n rest) (drop n rest) (later n)
            (h n pos (full-length n rest t).0)))

copy-Complete :
    (fuel bufsize : ℕ) (answer : ℕ → Answer) (call : ℕ) (rest : List ℕ)
    → 0 < bufsize
    → length rest < fuel
    → Complete rest (copy fuel bufsize answer call rest)
unfolding copy
copy-Complete zero bufsize answer call rest b lt = absurd (omega (arith, lt))
copy-Complete (suc fuel) bufsize answer call rest b lt =
    read_round-Complete (answer call) bufsize rest
      (λ n. copy fuel bufsize answer (call + 1) (drop n rest)) b
      (λ n pos full.
        copy-Complete fuel bufsize answer (call + 1) (drop n rest) b
          (omega (arith, length-drop n rest, lt, pos, full)))

do_cat-Complete : (bufsize : ℕ) (f : File) → 0 < bufsize → Complete f.content (do_cat bufsize f)
unfolding do_cat
do_cat-Complete bufsize f b =
    if-cases (Complete f.content) f.opens (copy (length f.content + 1) bufsize f.answer 0 f.content)
      (some ([], true))
      (λ t. copy-Complete (length f.content + 1) bufsize f.answer 0 f.content b (omega arith))
      (λ t. inl refl)

followed_by-Complete :
    (xs ys : List ℕ) (a b : Result)
    → Complete xs a
    → Complete ys b
    → Complete (xs ++ ys) (followed_by a b)
followed_by-Complete xs ys none b c d = c
followed_by-Complete xs ys (some a) none c d = d
followed_by-Complete xs ys (some (out, ret)) (some (out', ret')) (inl t) d = inl (rw t refl)
followed_by-Complete xs ys (some (out, ret)) (some (out', ret')) (inr e) (inl t) =
    inl (ground (arith, t))
followed_by-Complete xs ys (some (out, ret)) (some (out', ret')) (inr e) (inr f) =
    inr (rw (e, f) refl)

cat-Complete :
    (bufsize : ℕ) (fs : List File) → 0 < bufsize → Complete (contents fs) (cat bufsize fs)
unfolding cat
cat-Complete bufsize [] b = inr refl
cat-Complete bufsize (f ∷ fs) b =
    followed_by-Complete f.content (contents fs) (do_cat bufsize f) (cat bufsize fs)
      (do_cat-Complete bufsize f b) (cat-Complete bufsize fs b)

-- With a buffer that is not empty, the program ends, whatever the files and however many bytes each
-- call of read() gives; and where it returns 0, it has printed all files, one after another.
pub cat_lem :
    (bufsize : ℕ) (fs : List File)
    → 0 < bufsize
    → (out : List ℕ) × (ret : Bool) × (cat bufsize fs ≡ some (out, ret))
      × ((ret ≡ true) ⊎ (out ≡ contents fs))
cat_lem bufsize fs b = result (cat bufsize fs) refl (cat-Complete bufsize fs b)
  where
    result :
        (r : Result)
        → cat bufsize fs ≡ r
        → Complete (contents fs) r
        → (out : List ℕ) × (ret : Bool) × (cat bufsize fs ≡ some (out, ret))
          × ((ret ≡ true) ⊎ (out ≡ contents fs))
    result none e c = absurd c
    result (some (out, ret)) e c = (out, ret, e, c)

-- Nothing goes wrong with a file.
pub record IsReadable (f : File) : Type 0 where
  pub opened : f.opens ≡ true
  pub answered : (call : ℕ) → f.answer call ≢ fails

-- Where no call fails, `ret` is 0.
abbrev Clean : Result → Type 0
Clean none = Unit
Clean (some (out, ret)) = ret ≡ false

read_round-Clean :
    (a : Answer) (bufsize : ℕ) (rest : List ℕ) (later : ℕ → Result)
    → a ≢ fails
    → ((n : ℕ) → Clean (later n))
    → Clean (read_round a bufsize rest later)
unfolding read_round
read_round-Clean fails bufsize rest later ne h = absurd (ne refl)
read_round-Clean (gives more) bufsize rest later ne h =
    let n = smaller bufsize (suc more) in
    if-cases Clean (is_empty (take n rest)) (some ([], false))
      (printed_before (take n rest) (later n)) (λ t. refl)
      (λ t. printed_before-Clean (take n rest) (later n) (h n))
  where
    printed_before-Clean : (bytes : List ℕ) (r : Result) → Clean r → Clean (printed_before bytes r)
    printed_before-Clean bytes none c = tt
    printed_before-Clean bytes (some (out, ret)) c = c

copy-Clean :
    (fuel bufsize : ℕ) (answer : ℕ → Answer) (call : ℕ) (rest : List ℕ)
    → ((k : ℕ) → answer k ≢ fails)
    → Clean (copy fuel bufsize answer call rest)
unfolding copy
copy-Clean zero bufsize answer call rest ne = tt
copy-Clean (suc fuel) bufsize answer call rest ne =
    read_round-Clean (answer call) bufsize rest
      (λ n. copy fuel bufsize answer (call + 1) (drop n rest)) (ne call)
      (λ n. copy-Clean fuel bufsize answer (call + 1) (drop n rest) ne)

followed_by-Clean : (a b : Result) → Clean a → Clean b → Clean (followed_by a b)
followed_by-Clean none b c d = tt
followed_by-Clean (some a) none c d = tt
followed_by-Clean (some (out, ret)) (some (out', ret')) c d = rw (c, d) refl

cat-Clean : (bufsize : ℕ) (fs : List File) → All IsReadable fs → Clean (cat bufsize fs)
unfolding cat do_cat
cat-Clean bufsize [] h = refl
cat-Clean bufsize (f ∷ fs) h =
    followed_by-Clean (do_cat bufsize f) (cat bufsize fs)
      (if-cases Clean f.opens (copy (length f.content + 1) bufsize f.answer 0 f.content)
        (some ([], true))
        (λ t. copy-Clean (length f.content + 1) bufsize f.answer 0 f.content h.0.answered)
        (λ t. ground (arith, t, h.0.opened)))
      (cat-Clean bufsize fs h.1)

-- If no call fails, the program does what the concatenation of the files is: whatever the size of the
-- buffer, as long as it is not 0, and however many bytes each call of read() gives.
pub cat-contents :
    (bufsize : ℕ) (fs : List File)
    → 0 < bufsize
    → All IsReadable fs
    → cat bufsize fs ≡ some (contents fs, false)
cat-contents bufsize fs b h =
    result (cat bufsize fs) (cat-Complete bufsize fs b) (cat-Clean bufsize fs h)
  where
    result : (r : Result) → Complete (contents fs) r → Clean r → r ≡ some (contents fs, false)
    result none c d = absurd c
    result (some (out, ret)) (inl t) d = ground (arith, t, d)
    result (some (out, ret)) (inr e) d = rw (e, d) refl

zero_round :
    (a : Answer) (rest : List ℕ) (later : ℕ → Result)
    → a ≢ fails
    → read_round a 0 rest later ≡ some ([], false)
unfolding read_round
zero_round fails rest later ne = absurd (ne refl)
zero_round (gives more) [] later ne = refl
zero_round (gives more) (x ∷ rest) later ne =
    let e : smaller 0 (suc more) ≡ 0 = ground arith in rw e refl

zero-do_cat : (f : File) → IsReadable f → do_cat 0 f ≡ some ([], false)
unfolding do_cat copy
zero-do_cat f h =
    let e : length f.content + 1 ≡ suc (length f.content) = omega arith in
    if-cases (λ (r : Result). r ≡ some ([], false)) f.opens
      (copy (length f.content + 1) 0 f.answer 0 f.content) (some ([], true))
      (λ t. rw e (
        zero_round (f.answer 0) f.content
          (λ n. copy (length f.content) 0 f.answer 1 (drop n f.content)) (h.answered 0)))
      (λ t. ground (arith, t, h.opened))

-- With a buffer of no bytes (-b 0), nothing is printed of any files, and 0 is returned.
pub zero_buffer_prints_nothing : (fs : List File) → All IsReadable fs → cat 0 fs ≡ some ([], false)
unfolding cat
zero_buffer_prints_nothing [] h = refl
zero_buffer_prints_nothing (f ∷ fs) h =
    rw (zero-do_cat f h.0, zero_buffer_prints_nothing fs h.1) refl
