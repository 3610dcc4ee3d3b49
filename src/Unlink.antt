-- ===== src/Unlink.antt =====
-- unlink/unlink.c, on a file system: names stand for files, and a file stays as long as it is open.
-- No other process changes the file system meanwhile; write() writes all.
pub mod Kept
mod Tests
use unix_linux_prog_in_c_src.Base.{
  ℕ, zero, suc, ◌+◌, ◌-◌, Bool, true, false, Option, none, some, List, [], ◌∷◌, ◌++◌, length, take,
  drop, replicate, ltb, ◌==◌, if◌then◌else◌,
}
use unix_linux_prog_in_c_src.Base.Family.{put}

-- Names and files have numbers; `next` is the number of the next new file.
pub record Fs : Type 0 where
  pub names : ℕ → Option ℕ
  pub contents : ℕ → List ℕ
  pub next : ℕ

-- creat(): a file that is there is truncated.
abbrev pub creat_at : Option ℕ → ℕ → Fs → Fs
creat_at (some file) name fs = record fs { contents = put file [] fs.contents }
creat_at none name fs = record fs {
  names = put name (some fs.next) fs.names;
  contents = put fs.next [] fs.contents;
  next = fs.next + 1;
}

abbrev pub creat : ℕ → Fs → Fs
creat name fs = creat_at (fs.names name) name fs

abbrev pub unlink : ℕ → Fs → Fs
unlink name fs = record fs { names = put name none fs.names }

-- Bytes at an offset; a gap is filled with zeros.
abbrev pub overwrite : (offset : ℕ) → (bytes old : List ℕ) → List ℕ
overwrite offset bytes old =
    take offset old
    ++ replicate (offset - length old) 0
    ++ bytes
    ++ drop (offset + length bytes) old

abbrev pub write : (file offset : ℕ) → List ℕ → Fs → Fs
write file offset bytes fs = record fs {
  contents = put file (overwrite offset bytes (fs.contents file)) fs.contents;
}

-- "A", 16 times.
abbrev pub buf : List ℕ
buf = replicate 16 65

pub data Ending : Type 0 where
  creat_failed open_failed unlink_failed still_there done : Ending

-- What the program leaves: the file system, what it has read at the end, and how it ends.
pub record Outcome : Type 0 where
  pub fs : Fs
  pub readbuf : List ℕ
  pub ending : Ending

abbrev pub stop : Ending → Fs → Outcome
stop e fs = record { fs = fs; readbuf = []; ending = e }

-- Behind the unlink: stat() has to fail; then the second write and the read, on the open file.
abbrev pub finish : (file : ℕ) → Option ℕ → Fs → Outcome
finish file (some there) fs = stop still_there fs
finish file none fs =
    let after = write file 16 buf fs in
    record { fs = after; readbuf = take 64 (after.contents file); ending = done }

abbrev pub unlinked : (ok : Bool) → (name file : ℕ) → Fs → Outcome
unlinked true name file fs = finish file ((unlink name fs).names name) (unlink name fs)
unlinked false name file fs = stop unlink_failed fs

-- Behind creat().
abbrev pub opened : (unlinks : Bool) → (name : ℕ) → Option ℕ → Fs → Outcome
opened unlinks name none fs = stop open_failed fs
opened unlinks name (some file) fs = unlinked unlinks name file (write file 0 buf fs)

-- `main`; the first arguments are whether creat() and unlink() succeed.
pub main : (creates unlinks : Bool) → (name : ℕ) → Fs → Outcome
main true unlinks name fs = opened unlinks name ((creat name fs).names name) (creat name fs)
main false unlinks name fs = stop creat_failed fs
