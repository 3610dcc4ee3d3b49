-- ===== src/LockFile/Tests.antt =====
-- Runs of lock-unlock.c and of its workers, and the theorems there.
use unix_linux_prog_in_c_src.Base.{ℕ, ◌≡◌, refl, true, false, List, [], ◌∷◌, run}
use unix_linux_prog_in_c_src.LockFile.{start, lock_unlock, opl, opunl, filename, Event, runs, step}
use unix_linux_prog_in_c_src.LockFile.Exclusion.{workers_exclude}

-- Locking twice, unlocking twice, another word, and a missing one.
lock_unlock_result :
    (lock_unlock (filename ∷ opl ∷ []) false false ≡ record { status = 0; exists = true })
    × (lock_unlock (filename ∷ opl ∷ []) false true ≡ record { status = 1; exists = true })
    × (lock_unlock (filename ∷ opunl ∷ []) false true ≡ record { status = 0; exists = false })
    × (lock_unlock (filename ∷ opunl ∷ []) false false ≡ record { status = 2; exists = false })
    × (lock_unlock (filename ∷ (108 ∷ []) ∷ []) false true ≡ record { status = 1; exists = true })
    × (lock_unlock (filename ∷ []) false true ≡ record { status = 1; exists = true })
unfolding lock_unlock
lock_unlock_result = (refl, refl, refl, refl, refl, refl)

-- Worker 0 works, worker 1 has to wait, then takes over.
abbrev turns : List Event
turns = runs 0 false ∷ runs 1 false ∷ runs 0 false ∷ runs 1 false ∷ []

abbrev second : ℕ
second = 1

workers_exclude_example : (second ≡ second) × ((run step turns start).exists ≡ true)
unfolding run step start
workers_exclude_example = workers_exclude turns second second (tt, (tt, (tt, (tt, tt)))) refl refl
