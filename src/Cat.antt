-- ===== src/Cat.antt =====
-- read/cat.c: prints files one after another, through a buffer of a given size. write() to the
-- terminal is taken to write all, as the source says.
pub mod Output
mod Tests
use unix_linux_prog_in_c_src.Base.{
  ℕ, zero, suc, ◌+◌, ◌-◌, Bool, true, false, ◌||◌, Option, none, some, List, [], ◌∷◌, ◌++◌, ltb,
  if◌then◌else◌, length, take, drop,
}

-- How a call of read() goes: it fails, or gives some bytes, one more than `more` where there are as
-- many and the buffer has place for them.
pub data Answer : Type 0 where
  fails : Answer
  gives : (more : ℕ) → Answer

-- A file as open() and the calls of read() find it.
pub record File : Type 0 where
  pub opens : Bool
  pub content : List ℕ
  pub answer : (call : ℕ) → Answer

abbrev pub smaller : ℕ → ℕ → ℕ
smaller a b = if ltb b a then b else a

-- The output and the value of `ret`.
abbrev pub Result : Type 0
Result = Option (List ℕ × Bool)

abbrev pub is_empty : List ℕ → Bool
is_empty [] = true
is_empty (x ∷ xs) = false

abbrev pub printed_before : List ℕ → Result → Result
printed_before bytes none = none
printed_before bytes (some (out, ret)) = some (bytes ++ out, ret)

-- A call of read() and what follows: `later` is the loop behind a write of so many bytes.
pub read_round : Answer → (bufsize : ℕ) → List ℕ → (later : ℕ → Result) → Result
read_round fails bufsize rest later = some ([], true)
read_round (gives more) bufsize rest later =
    let n = smaller bufsize (suc more) in
    if is_empty (take n rest) then some ([], false) else printed_before (take n rest) (later n)

-- The loop of `do_cat` and the test behind it, with fuel: `none` if it runs out.
pub copy : (fuel bufsize : ℕ) → (ℕ → Answer) → (call : ℕ) → List ℕ → Result
unfolding read_round
copy zero bufsize answer call rest = none
copy (suc fuel) bufsize answer call rest =
    read_round (answer call) bufsize rest (λ n. copy fuel bufsize answer (call + 1) (drop n rest))

-- A round gives a byte or is the last one, so there are at most as many as bytes and one.
pub do_cat : (bufsize : ℕ) → File → Result
unfolding copy
do_cat bufsize f =
    if f.opens then copy (length f.content + 1) bufsize f.answer 0 f.content else some ([], true)

abbrev pub followed_by : Result → Result → Result
followed_by none later = none
followed_by (some a) none = none
followed_by (some (out, ret)) (some (out', ret')) = some (out ++ out', ret || ret')

-- The loop of `main` over the files.
pub cat : (bufsize : ℕ) → List File → Result
unfolding do_cat
cat bufsize [] = some ([], false)
cat bufsize (f ∷ fs) = followed_by (do_cat bufsize f) (cat bufsize fs)
