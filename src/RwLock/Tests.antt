-- ===== src/RwLock/Tests.antt =====
-- Runs of pthread-rwlock.c, and the theorems there.
use unix_linux_prog_in_c_src.Base.{ℕ, ◌<◌, ◌≡◌, refl, arith, some, List, [], ◌∷◌, ◌++◌, run}
use unix_linux_prog_in_c_src.RwLock.{set, get_lock, get_unlock, finished, start, Event, runs, step}
use unix_linux_prog_in_c_src.RwLock.Values.{read_is_current}
use unix_linux_prog_in_c_src.RwLock.Progress.{rwlock_completes}

-- Writer 4 sets the property 7, while reader 1 has to wait; then the reader reads it.
abbrev writing : List Event
writing = runs 1 7 ∷ runs 4 7 ∷ runs 4 0 ∷ runs 1 0 ∷ []

abbrev reading : List Event
reading = writing ++ (runs 4 0 ∷ runs 4 0 ∷ runs 1 0 ∷ runs 1 0 ∷ [])

writing_result :
    let s = run step writing start in
    (s.pc 4 ≡ set 7) × (s.pc 1 ≡ get_lock 99 7) × (s.writer ≡ some 4) × (s.readers ≡ 0)
unfolding run step start
writing_result = (refl, refl, refl, refl)

reading_result :
    let s = run step reading start in
    (s.pc 4 ≡ finished) × (s.pc 1 ≡ get_unlock 99 7 (some 4)) × (s.readers ≡ 1)
unfolding run step start
reading_result = (refl, refl, refl)

read_is_current_example : (run step reading start).properties 7 ≡ some 4
read_is_current_example =
    read_is_current reading 1 99 7 (some 4) (omega arith) (unfold run step start in refl)

rwlock_completes_example :
    (fs : List Event) × ((i : ℕ) → i < 32 → (run step fs (run step reading start)).pc i ≡ finished)
rwlock_completes_example = rwlock_completes reading (unfold run step start in refl)
