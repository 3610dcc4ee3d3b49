-- ===== src/LockFile/Exclusion.antt =====
-- Who works under the lock of lock-unlock.c.
use unix_linux_prog_in_c_src.Base.{
  ℕ, ◌≡◌, ◌≢◌, ◌⊎◌, inl, inr, refl, sym, arith, Bool, true, false, List, [], ◌∷◌, All, run,
  run-keeps_of_all, ◌∙◌,
}
use unix_linux_prog_in_c_src.Base.Family.{put}
use unix_linux_prog_in_c_src.LockFile.{
  Pc, trying, working, gone, State, start, lock, unlock, lock_unlock, behind_lock, worker, Event,
  runs, crashes, killed, step,
}

-- No worker is ended by a signal that its trap catches.
abbrev pub IsUntrapped : Event → Type 0
IsUntrapped (runs i fails) = Unit
IsUntrapped (crashes i) = Unit
IsUntrapped (killed i) = ⊥

record Inv (s : State) : Type 0 where
  held : (i : ℕ) → s.pc i ≡ working → s.exists ≡ true
  alone : (i j : ℕ) → s.pc i ≡ working → s.pc j ≡ working → i ≡ j

-- A worker that goes on without the lock; if it had it, the file may be gone.
unlocked-Inv :
    (i : ℕ) (p : Pc) (e : Bool) (s : State)
    → p ≢ working
    → (s.exists ≡ e) ⊎ (s.pc i ≡ working)
    → Inv s
    → Inv (record { exists = e; pc = put i p s.pc })
unlocked-Inv i p e s ne h v = record {
  held = λ j f.
      let other : j ≢ i = ground (arith, ne, f) in
      let works : s.pc j ≡ working = ground (arith, other, f) in
      elim h [
        | inl same ↦ sym same ∙ v.held j works
        | inr own ↦ absurd (other (v.alone j i works own))
      ];
  alone = λ j k f g.
      let other_j : j ≢ i = ground (arith, ne, f) in
      let other_k : k ≢ i = ground (arith, ne, g) in
      v.alone j k (ground (arith, other_j, f)) (ground (arith, other_k, g));
}

locked-Inv :
    (i : ℕ) (s : State)
    → s.exists ≡ false
    → Inv s
    → Inv (record { exists = true; pc = put i working s.pc })
locked-Inv i s free v =
    let none_works : (j : ℕ) → s.pc j ≢ working = λ j f. ground (arith, free, v.held j f) in
    let only : (j : ℕ) → put i working s.pc j ≡ working → j ≡ i =
      λ j f. ground (arith, none_works j, f) in
    record { held = λ j f. refl; alone = λ j k f g. only j f ∙ sym (only k g) }

lock-Inv :
    (fails e : Bool) (i : ℕ) (s : State)
    → s.exists ≡ e
    → Inv s
    → Inv (record {
      exists = (lock fails e).exists;
      pc = put i (behind_lock (lock fails e).status) s.pc;
    })
unfolding lock
lock-Inv true e i s h v = unlocked-Inv i trying e s (λ t. ground (arith, t)) (inl h) v
lock-Inv false false i s h v = locked-Inv i s h v
lock-Inv false true i s h v = unlocked-Inv i trying true s (λ t. ground (arith, t)) (inl h) v

worker-Inv :
    (fails : Bool) (i : ℕ) (p : Pc) (s : State) → s.pc i ≡ p → Inv s → Inv (worker fails i p s)
unfolding worker lock_unlock
worker-Inv fails i trying s h v = lock-Inv fails s.exists i s refl v
worker-Inv fails i working s h v =
    unlocked-Inv i trying (unlock fails s.exists).exists s (λ t. ground (arith, t)) (inr h) v
worker-Inv fails i gone s h v = v

step-Inv : (e : Event) (s : State) → IsUntrapped e → Inv s → Inv (step e s)
unfolding step
step-Inv (runs i fails) s ok v = worker-Inv fails i (s.pc i) s refl v
step-Inv (crashes i) s ok v = unlocked-Inv i gone s.exists s (λ t. ground (arith, t)) (inl refl) v
step-Inv (killed i) s ok v = absurd ok

start-Inv : Inv start
unfolding start
start-Inv = record { held = λ i e. ground (arith, e); alone = λ i j e f. ground (arith, e) }

run-Inv : (es : List Event) → All IsUntrapped es → Inv (run step es start)
run-Inv es ok = run-keeps_of_all IsUntrapped Inv step step-Inv es start ok start-Inv

-- As long as no worker is ended by a signal that its trap catches, whatever crashes and whichever calls
-- fail: at most one worker works at a time, and the lock file is there while it does.
pub workers_exclude :
    (es : List Event) (i j : ℕ)
    → All IsUntrapped es
    → (run step es start).pc i ≡ working
    → (run step es start).pc j ≡ working
    → (i ≡ j) × ((run step es start).exists ≡ true)
workers_exclude es i j ok h k = let v = run-Inv es ok in (v.alone i j h k, v.held i h)

-- The file is there, and nobody works.
record Stale (s : State) : Type 0 where
  left : s.exists ≡ true
  idle : (j : ℕ) → s.pc j ≢ working

stay-Stale :
    (i : ℕ) (p : Pc) (s : State)
    → p ≢ working
    → Stale s
    → Stale (record { exists = true; pc = put i p s.pc })
stay-Stale i p s ne v = record { left = refl; idle = λ j e. ground (arith, ne, v.idle j, e) }

lock-Stale :
    (fails e : Bool) (i : ℕ) (s : State)
    → e ≡ true
    → Stale s
    → Stale (record {
      exists = (lock fails e).exists;
      pc = put i (behind_lock (lock fails e).status) s.pc;
    })
unfolding lock
lock-Stale true false i s h v = ground (arith, h)
lock-Stale false false i s h v = ground (arith, h)
lock-Stale true true i s h v = stay-Stale i trying s (λ t. ground (arith, t)) v
lock-Stale false true i s h v = stay-Stale i trying s (λ t. ground (arith, t)) v

worker-Stale :
    (fails : Bool) (i : ℕ) (p : Pc) (s : State) → s.pc i ≡ p → Stale s → Stale (worker fails i p s)
unfolding worker lock_unlock
worker-Stale fails i trying s h v = lock-Stale fails s.exists i s v.left v
worker-Stale fails i working s h v = absurd (v.idle i h)
worker-Stale fails i gone s h v = v

step-Stale : (e : Event) (s : State) → IsUntrapped e → Stale s → Stale (step e s)
unfolding step
step-Stale (runs i fails) s ok v = worker-Stale fails i (s.pc i) s refl v
step-Stale (crashes i) s ok v = rw v.left (stay-Stale i gone s (λ t. ground (arith, t)) v)
step-Stale (killed i) s ok v = absurd ok

-- As long as no worker is ended by a signal that its trap catches: once the worker that has the lock
-- crashes, nobody works again.
pub stale_lock_stays :
    (es later : List Event) (i j : ℕ)
    → All IsUntrapped es
    → All IsUntrapped later
    → (run step es start).pc i ≡ working
    → (run step later (step (crashes i) (run step es start))).pc j ≢ working
unfolding step
stale_lock_stays es later i j ok ok' h =
    let v = run-Inv es ok in
    let s = run step es start in
    (run-keeps_of_all IsUntrapped Stale step step-Stale later (step (crashes i) s) ok' (record {
      left = v.held i h;
      idle = λ k e.
          let other : k ≢ i = ground (arith, e) in other (v.alone k i (ground (arith, other, e)) h);
    })).idle
      j

-- A waiting worker that is ended by SIGINT or SIGTERM removes the lock of another one, and a third one
-- then works beside that.
pub killed_waiter_breaks_lock :
    (i j k : ℕ)
    → i ≢ j
    → i ≢ k
    → j ≢ k
    → let s = run step (runs i false ∷ killed j ∷ runs k false ∷ []) start in
      (s.pc i ≡ working) × (s.pc k ≡ working)
unfolding run step worker start lock_unlock lock
killed_waiter_breaks_lock i j k ne nf ng =
    let e : put j gone (put i working start.pc) k ≡ trying = ground arith in
    rw e (ground arith, ground arith)
