-- ===== src/Waiting/Reports.antt =====
-- What the parent of wait.c reports.
use unix_linux_prog_in_c_src.Base.{
  ℕ, ◌≡◌, ◌≢◌, ◌⊎◌, inl, inr, ◌∙◌, refl, subst, arith, true, false, Option, none, some, List, [],
  ◌∷◌, run, run-keeps, All,
}
use unix_linux_prog_in_c_src.Waiting.{
  Report, exited, signaled, was_stopped, was_continued, Child, running, stopped, gone, ParentPc,
  waiting, ended, State, start, Event, parent_runs, stop, continue, kill, runs_out, becomes,
  stop_child, continue_child, kill_child, end_child, is_final, collect, parent_step, step,
}

-- Reports of a child that goes on.
abbrev pub Passing : List Report → Type 0
Passing rs = All (λ r. is_final r ≡ false) rs

abbrev ChangeOk : Child → Option Report → Type 0
ChangeOk running none = Unit
ChangeOk running (some r) = is_final r ≡ false
ChangeOk stopped none = Unit
ChangeOk stopped (some r) = is_final r ≡ false
ChangeOk (gone how) none = ⊥
ChangeOk (gone how) (some r) = (r ≡ how) × (is_final how ≡ true)

-- Before the end nothing final is printed; behind it, the first line is how the child is gone.
abbrev Phase : ParentPc → Child → Option Report → List Report → Type 0
Phase waiting c change printed = ChangeOk c change × Passing printed
Phase ended (gone how) change [] = ⊥
Phase ended (gone how) change (r ∷ rs) = (r ≡ how) × (is_final how ≡ true) × Passing rs
Phase ended running change printed = ⊥
Phase ended stopped change printed = ⊥

abbrev Inv : State → Type 0
Inv s = Phase s.parent_pc s.child s.change s.printed

-- The child becomes something while it is not gone.
becomes-Phase :
    (p : ParentPc) (c : Child) (change : Option Report) (printed : List Report) (d : Child)
    (r : Report)
    → ((how : Report) → c ≢ gone how)
    → ChangeOk d (some r)
    → Phase p c change printed
    → Phase p d (some r) printed
becomes-Phase waiting c change printed d r live ok v = (ok, v.1)
becomes-Phase ended running change printed d r live ok v = absurd v
becomes-Phase ended stopped change printed d r live ok v = absurd v
becomes-Phase ended (gone how) change printed d r live ok v = absurd (live how refl)

becomes-Inv :
    (d : Child) (r : Report) (s : State)
    → ((how : Report) → s.child ≢ gone how)
    → ChangeOk d (some r)
    → Inv s
    → Inv (becomes d r s)
becomes-Inv d r s live ok v = becomes-Phase s.parent_pc s.child s.change s.printed d r live ok v

running-live : (s : State) → s.child ≡ running → (how : Report) → s.child ≢ gone how
running-live s e how t = ground (arith, e, t)

stopped-live : (s : State) → s.child ≡ stopped → (how : Report) → s.child ≢ gone how
stopped-live s e how t = ground (arith, e, t)

collect-Phase :
    (change : Option Report) (c : Child) (s : State)
    → Phase waiting c change s.printed
    → s.change ≡ change
    → s.child ≡ c
    → s.parent_pc ≡ waiting
    → Inv (collect change s)
collect-Phase none c s v e f g = rw (g, f, e) v
collect-Phase (some r) running s v e f g = rw (f, v.0) (tt, (v.0, v.1))
collect-Phase (some r) stopped s v e f g = rw (f, v.0) (tt, (v.0, v.1))
collect-Phase (some r) (gone how) s v e f g = rw (f, v.0.0, v.0.1) (refl, v.0.1, v.1)

parent_step-Inv : (p : ParentPc) (s : State) → s.parent_pc ≡ p → Inv s → Inv (parent_step p s)
unfolding parent_step
parent_step-Inv waiting s e v =
    collect-Phase s.change s.child s (subst (λ p. Phase p s.child s.change s.printed) e v) refl refl
      e
parent_step-Inv ended s e v = v

stop_child-Inv : (c : Child) (s : State) → s.child ≡ c → Inv s → Inv (stop_child c s)
unfolding stop_child
stop_child-Inv running s e v = becomes-Inv stopped was_stopped s (running-live s e) refl v
stop_child-Inv stopped s e v = v
stop_child-Inv (gone how) s e v = v

continue_child-Inv : (c : Child) (s : State) → s.child ≡ c → Inv s → Inv (continue_child c s)
unfolding continue_child
continue_child-Inv running s e v = v
continue_child-Inv stopped s e v = becomes-Inv running was_continued s (stopped-live s e) refl v
continue_child-Inv (gone how) s e v = v

kill_child-Inv : (sig : ℕ) (c : Child) (s : State) → s.child ≡ c → Inv s → Inv (kill_child sig c s)
unfolding kill_child
kill_child-Inv sig running s e v =
    becomes-Inv (gone (signaled sig)) (signaled sig) s (running-live s e) (refl, refl) v
kill_child-Inv sig stopped s e v =
    becomes-Inv (gone (signaled sig)) (signaled sig) s (stopped-live s e) (refl, refl) v
kill_child-Inv sig (gone how) s e v = v

end_child-Inv : (code : ℕ) (c : Child) (s : State) → s.child ≡ c → Inv s → Inv (end_child code c s)
unfolding end_child
end_child-Inv code running s e v =
    becomes-Inv (gone (exited code)) (exited code) s (running-live s e) (refl, refl) v
end_child-Inv code stopped s e v = v
end_child-Inv code (gone how) s e v = v

step-Inv : (e : Event) (s : State) → Inv s → Inv (step e s)
unfolding step
step-Inv parent_runs s v = parent_step-Inv s.parent_pc s refl v
step-Inv stop s v = stop_child-Inv s.child s refl v
step-Inv continue s v = continue_child-Inv s.child s refl v
step-Inv (kill sig) s v = kill_child-Inv sig s.child s refl v
step-Inv (runs_out code) s v = end_child-Inv code s.child s refl v

start-Inv : Inv start
unfolding start
start-Inv = (tt, tt)

reached-Inv : (es : List Event) → Inv (run step es start)
reached-Inv es = run-keeps Inv step step-Inv es start start-Inv

-- What is printed when the loop has ended.
abbrev pub Told : Child → List Report → Type 0
Told running printed = ⊥
Told stopped printed = ⊥
Told (gone how) [] = ⊥
Told (gone how) (r ∷ rs) = (r ≡ how) × Passing rs

ended-Told :
    (c : Child) (change : Option Report) (printed : List Report)
    → Phase ended c change printed
    → Told c printed
ended-Told running change printed v = v
ended-Told stopped change printed v = v
ended-Told (gone how) change [] v = v
ended-Told (gone how) change (r ∷ rs) v = (v.0, v.2)

-- After any schedule by which the parent has ended, the child is gone, the last report is how, and the
-- reports before are of stops and continuations.
pub final_report :
    (es : List Event)
    → (run step es start).parent_pc ≡ ended
    → Told (run step es start).child (run step es start).printed
final_report es e =
    let s = run step es start in
    ended-Told s.child s.change s.printed
      (subst (λ p. Phase p s.child s.change s.printed) e (reached-Inv es))

collect-ended :
    (change : Option Report) (how : Report) (s : State)
    → ChangeOk (gone how) change
    → (collect change s).parent_pc ≡ ended
collect-ended none how s v = absurd v
collect-ended (some r) how s v = rw (v.0, v.1) refl

parent_step-ended :
    (p : ParentPc) (s : State) (how : Report)
    → s.parent_pc ≡ p
    → s.child ≡ gone how
    → Phase p s.child s.change s.printed
    → (parent_step p s).parent_pc ≡ ended
unfolding parent_step
parent_step-ended waiting s how e g v =
    collect-ended s.change how s (subst (λ c. ChangeOk c s.change) g v.0)
parent_step-ended ended s how e g v = e

-- When the child is gone, after any schedule, one step of the parent ends it.
pub gone_ends :
    (es : List Event) (how : Report)
    → (run step es start).child ≡ gone how
    → (step parent_runs (run step es start)).parent_pc ≡ ended
unfolding step
gone_ends es how g =
    let s = run step es start in parent_step-ended s.parent_pc s how refl g (reached-Inv es)

-- The child goes on, and the parent waits.
abbrev pub Live : State → Type 0
Live s = (s.parent_pc ≡ waiting) × ((s.child ≡ running) ⊎ (s.child ≡ stopped)) × Passing s.printed

child_cases :
    (p : ParentPc) (c : Child) (s : State)
    → s.parent_pc ≡ p
    → s.child ≡ c
    → Phase p c s.change s.printed
    → Live s ⊎ ((how : Report) × (s.child ≡ gone how))
child_cases waiting running s e f v = inl (e, inl f, v.1)
child_cases waiting stopped s e f v = inl (e, inr f, v.1)
child_cases ended running s e f v = absurd v
child_cases ended stopped s e f v = absurd v
child_cases waiting (gone how) s e f v = inr (how, f)
child_cases ended (gone how) s e f v = inr (how, f)

collect-child : (change : Option Report) (s : State) → (collect change s).child ≡ s.child
collect-child none s = refl
collect-child (some r) s = refl

parent_step-child : (p : ParentPc) (s : State) → (parent_step p s).child ≡ s.child
unfolding parent_step
parent_step-child waiting s = collect-child s.change s
parent_step-child ended s = refl

-- After any schedule: the child goes on, the parent waits, and what it has reported are stops and
-- continuations; or the child is gone, and the next step of the parent, if it has not ended yet, ends
-- it, with reports of stops and continuations and last of how the child is gone.
pub reports_in_order :
    (es : List Event)
    → let s = run step es start in
      let s' = step parent_runs s in
      Live s
      ⊎ ((how : Report) × (s.child ≡ gone how)
          × (s'.parent_pc ≡ ended)
          × Told (gone how) s'.printed)
unfolding step
reports_in_order es =
    let s = run step es start in
    elim (child_cases s.parent_pc s.child s refl refl (reached-Inv es)) [
      | inl live ↦ inl live
      | inr (how, g) ↦
          let s' = step parent_runs s in
          let at_end : s'.parent_pc ≡ ended = gone_ends es how g in
          let told = ended-Told s'.child s'.change s'.printed (
            subst (λ p. Phase p s'.child s'.change s'.printed) at_end
              (step-Inv parent_runs s (reached-Inv es))) in
          inr (
            how,
            g,
            at_end,
            subst (λ c. Told c s'.printed) (parent_step-child s.parent_pc s ∙ g) told,
          )
    ]
