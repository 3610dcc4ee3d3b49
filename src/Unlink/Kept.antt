-- ===== src/Unlink/Kept.antt =====
-- What unlink.c reads at its end, and what it leaves.
use unix_linux_prog_in_c_src.Base.{
  ℕ, ◌≡◌, refl, ap, ◌∙◌, take, arith, true, false, subst, ◌≢◌, Option, none, some, List, [],
  replicate, ◌==◌,
}
use unix_linux_prog_in_c_src.Base.Family.{put}
use unix_linux_prog_in_c_src.Unlink.{
  Fs, creat_at, unlink, overwrite, write, buf, done, Outcome, finish, opened, main,
}

put_same : {A : Type 0} (n : ℕ) (a : A) (f : ℕ → A) → put n a f n ≡ a
put_same n a f = let same : (n == n) ≡ true = ground arith in rw same refl

put_other : {A : Type 0} (n k : ℕ) (a : A) (f : ℕ → A) → k ≢ n → put n a f k ≡ f k
put_other n k a f ne = let t : (n == k) ≡ false = ground arith in rw t refl

-- Everything is done, both writes have been read, and another name, `k`, stands for what it did.
abbrev Good : (name k : ℕ) → Option ℕ → Outcome → Type 0
Good name k old o =
    (o.ending ≡ done)
    × (o.readbuf ≡ replicate 32 65)
    × (o.fs.names name ≡ none)
    × (o.fs.names k ≡ old)

finish_lem :
    (name k file : ℕ) (old at : Option ℕ) (fs : Fs)
    → at ≡ none
    → fs.names name ≡ none
    → fs.names k ≡ old
    → fs.contents file ≡ buf
    → Good name k old (finish file at fs)
finish_lem name k file old at fs gone e o c =
    let last : put file (overwrite 16 buf (fs.contents file)) fs.contents file ≡ replicate 32 65 =
      put_same file (overwrite 16 buf (fs.contents file)) fs.contents ∙ rw c refl in
    rw gone (refl, ap (λ (xs : List ℕ). take 64 xs) last, e, o)

-- Behind creat(), when the file is empty.
opened_lem :
    (name k file : ℕ) (at : Option ℕ) (fs : Fs)
    → k ≢ name
    → at ≡ some file
    → fs.contents file ≡ []
    → Good name k (fs.names k) (opened true name at fs)
opened_lem name k file at fs ne e c =
    let first : put file (overwrite 0 buf (fs.contents file)) fs.contents file ≡ buf =
      put_same file (overwrite 0 buf (fs.contents file)) fs.contents ∙ rw c refl in
    let gone : put name none fs.names name ≡ none = put_same name none fs.names in
    rw e (
      finish_lem name k file (fs.names k) (put name none fs.names name)
        (unlink name (write file 0 buf fs)) gone gone (put_other name k none fs.names ne) first)

creat_lem :
    (name k : ℕ) (fs : Fs) (at : Option ℕ)
    → k ≢ name
    → fs.names name ≡ at
    → Good name k
        (fs.names k)
        (opened true name ((creat_at at name fs).names name) (creat_at at name fs))
creat_lem name k fs none ne e =
    let same : put name (some fs.next) fs.names k ≡ fs.names k =
      put_other name k (some fs.next) fs.names ne in
    subst
      (λ old.
        Good name k old
          (opened true name ((creat_at none name fs).names name) (creat_at none name fs)))
      same
      (opened_lem name k fs.next ((creat_at none name fs).names name) (creat_at none name fs) ne
        (put_same name (some fs.next) fs.names) (put_same fs.next [] fs.contents))
creat_lem name k fs (some file) ne e =
    opened_lem name k file ((creat_at (some file) name fs).names name)
      (creat_at (some file) name fs) ne e (put_same file [] fs.contents)

-- With calls that succeed, whether the file has been there or not: the name is gone at the end, every
-- other name stands for what it did before, and the program has read what it has written before and
-- behind the unlink, 32 bytes.
pub unlink_lem :
    (name k : ℕ) (fs : Fs)
    → k ≢ name
    → let o = main true true name fs in
      (o.ending ≡ done)
      × (o.readbuf ≡ replicate 32 65)
      × (o.fs.names name ≡ none)
      × (o.fs.names k ≡ fs.names k)
unfolding main
unlink_lem name k fs ne = creat_lem name k fs (fs.names name) ne refl
