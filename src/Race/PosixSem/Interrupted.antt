-- ===== src/Race/PosixSem/Interrupted.antt =====
-- How the lock of posix-sem-fixed-race.c fails: sem_wait is interrupted, or the semaphore of an
-- earlier run is found.
use unix_linux_prog_in_c_src.Base.{
  ℕ, zero, suc, ◌+◌, ◌%◌, ◌^◌, ◌≤◌, ◌≡◌, ◌≢◌, some, List, ◌∷◌, ◌++◌, refl, arith, run, replicate,
}
use unix_linux_prog_in_c_src.Race.{parent, child, acquire, check, bump, store1, store0, examine}
use unix_linux_prog_in_c_src.Race.PosixSem.{State, start, Event, turn, interrupted, step}

-- Wherever the child is blocked in sem_wait while the parent is between its two stores and the bytes
-- differ, a signal that interrupts the child makes it count one more race (modulo 2^32), with the
-- parent still between its stores.
pub interrupted_wait_races :
    (s : State)
    → s.second.pc ≡ acquire
    → s.shared.sem ≡ 0
    → s.first.pc ≡ check store0
    → s.shared.mem.b0 ≢ s.shared.mem.b1
    → let s' = run step (interrupted child ∷ replicate 3 (turn child)) s in
      (s'.second.races ≡ (s.second.races + 1) % 2 ^ 32) × (s'.first.pc ≡ check store0)
unfolding run step examine
interrupted_wait_races s a z b d = ground arith

-- After an interrupted sem_wait the semaphore is worth one more for good: the call of sem_post that
-- follows gives back what was never taken.
pub interrupted_wait_leaks :
    (s : State)
    → s.second.pc ≡ acquire
    → s.shared.sem ≡ 0
    → s.shared.mem.b0 ≡ s.shared.mem.b1
    → let s' = run step (interrupted child ∷ replicate 5 (turn child)) s in
      (s'.shared.sem ≡ 1) × (s'.second.pc ≡ bump) × (s'.first ≡ s.first)
unfolding run step examine
interrupted_wait_leaks s a z d = ground arith

-- The parent stops between its stores; the child then goes through its test.
abbrev pub both_inside : List Event
both_inside = replicate 5 (turn parent) ++ replicate 5 (turn child)

-- If sem_open finds a semaphore that is worth 2 or more, there is a schedule without any signal in
-- which the child counts a race.
pub leftover_semaphore_races :
    (v : ℕ)
    → 2 ≤ v
    → let s = run step both_inside (start (some v)) in
      (s.second.races ≡ 1) × (s.first.pc ≡ check store0) × (s.second.pc ≡ check store1)
unfolding run step examine start
leftover_semaphore_races zero h = absurd (omega arith)
leftover_semaphore_races (suc zero) h = absurd (omega arith)
leftover_semaphore_races (suc (suc v)) h = (refl, refl, refl)
