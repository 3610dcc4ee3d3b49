-- ===== src/Cancel/Deferred.antt =====
-- When the thread of pthread-setcanceltype.c is canceled, and how the program ends.
use unix_linux_prog_in_c_src.Base.{
  ◌≡◌, ◌≢◌, refl, sym, arith, Bool, true, false, if-cases, List, ◌&&◌, run, run-keeps, ◌∙◌,
}
use unix_linux_prog_in_c_src.Cancel.{
  Place, set_type, say_start, spin, say_passed, open_fifo, say_error, Pc, running, canceled,
  returned, MainPc, wait, cancel, join, ended, State, start, Choice, stops, proceed, mythread,
  cancel_result, joined, main_step, Event, thread_runs, main_runs, step,
}

abbrev Spared : State → Type 0
Spared s = (s.asynchronous ≡ false) × (s.pc ≢ canceled spin)

proceed-Spared : (ch : Choice) (p : Place) (s : State) → Spared s → Spared (proceed false ch p s)
unfolding proceed
proceed-Spared ch set_type s v = ground (arith, v)
proceed-Spared ch say_start s v = ground (arith, v)
proceed-Spared ch spin s v = ground (arith, v)
proceed-Spared ch say_passed s v = ground (arith, v)
proceed-Spared ch open_fifo s v = ground (arith, v)
proceed-Spared ch say_error s v = ground (arith, v)

mythread-Spared : (ch : Choice) (p : Pc) (s : State) → Spared s → Spared (mythread false ch p s)
unfolding mythread
mythread-Spared ch (running spin) s v =
    if-cases Spared (s.requested && stops spin s.asynchronous ch.acts)
      (record s { pc = canceled spin }) (proceed false ch spin s)
      (λ t. absurd (ground (arith, t, v.0))) (λ t. proceed-Spared ch spin s v)
mythread-Spared ch (running p) s v =
    if-cases Spared (s.requested && stops p s.asynchronous ch.acts) (record s { pc = canceled p })
      (proceed false ch p s) (λ t. (v.0, λ e. ground (arith, e))) (λ t. proceed-Spared ch p s v)
mythread-Spared ch (canceled p) s v = v
mythread-Spared ch returned s v = v

-- `main` changes nothing of the thread.
cancel_result-same :
    (r : Bool) (p : Pc) (s : State)
    → ((cancel_result r p s).pc ≡ s.pc) × ((cancel_result r p s).asynchronous ≡ s.asynchronous)
cancel_result-same r (running p) s = (refl, refl)
cancel_result-same r (canceled p) s = (refl, refl)
cancel_result-same true returned s = (refl, refl)
cancel_result-same false returned s = (refl, refl)

joined-same :
    (p : Pc) (s : State) → ((joined p s).pc ≡ s.pc) × ((joined p s).asynchronous ≡ s.asynchronous)
joined-same (running p) s = (refl, refl)
joined-same (canceled p) s = (refl, refl)
joined-same returned s = (refl, refl)

main_step-same :
    (r : Bool) (m : MainPc) (s : State)
    → ((main_step r m s).pc ≡ s.pc) × ((main_step r m s).asynchronous ≡ s.asynchronous)
unfolding main_step
main_step-same r wait s = (refl, refl)
main_step-same r cancel s = cancel_result-same r s.pc s
main_step-same r join s = joined-same s.pc s
main_step-same r (ended n) s = (refl, refl)

step-Spared : (e : Event) (s : State) → Spared s → Spared (step false e s)
unfolding step
step-Spared (thread_runs ch) s v = mythread-Spared ch s.pc s v
step-Spared (main_runs r) s v =
    let same = main_step-same r s.main_pc s in (same.1 ∙ v.0, λ e. v.1 (sym same.0 ∙ e))

start-Spared : Spared start
unfolding start
start-Spared = (refl, λ e. ground (arith, e))

-- With deferred cancellation the thread is never canceled in its loop.
pub spin_spared : (es : List Event) → (run (step false) es start).pc ≢ canceled spin
spin_spared es = (run-keeps Spared (step false) step-Spared es start start-Spared).1
