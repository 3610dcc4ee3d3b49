-- ===== src/RwLock/Values.antt =====
-- Readers and writers of pthread-rwlock.c exclude each other, and what that gives.
use unix_linux_prog_in_c_src.Base.{
  ℕ, ◌<◌, ◌≡◌, ◌≢◌, true, false, Option, List, run, subst, sym, ◌∙◌,
}
use unix_linux_prog_in_c_src.RwLock.{get_unlock, start, Event, step}
use unix_linux_prog_in_c_src.RwLock.Invariant.{
  reads, writes, holds, AllWritten, Current, holds-other, no_readers,
}
use unix_linux_prog_in_c_src.RwLock.Steps.{run-Inv}

-- After any schedule, while a thread has the lock for writing, no other one has it for writing or for
-- reading.
pub writer_alone :
    (es : List Event) (i j : ℕ)
    → i < 32
    → j < 32
    → j ≢ i
    → writes ((run step es start).pc i) ≡ true
    → (writes ((run step es start).pc j) ≡ false) × (reads ((run step es start).pc j) ≡ 0)
writer_alone es i j lt l n w =
    let s = run step es start in
    let v = run-Inv es in
    let held : holds i s.writer ≡ true = sym (v.fits i lt).0 ∙ w in
    ((v.fits j l).0 ∙ holds-other i j s.writer held n, no_readers i s held v j l)

-- After any schedule, what a reader has read is still the value of the property when it gives up the
-- lock, however long it has had it.
pub read_is_current :
    (es : List Event) (i left idx : ℕ) (val : Option ℕ)
    → i < 32
    → (run step es start).pc i ≡ get_unlock left idx val
    → (run step es start).properties idx ≡ val
read_is_current es i left idx val lt e =
    let s = run step es start in subst (Current s.properties) e ((run-Inv es).fits i lt).1

-- After any schedule, every value that has been printed is null, or the pointer that `main` has given
-- to a writer.
pub printed_written : (es : List Event) → AllWritten (run step es start).output
printed_written es = (run-Inv es).printed
