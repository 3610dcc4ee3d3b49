-- ===== src/Cancel/Tests.antt =====
-- Runs of pthread-setcanceltype.c, and the theorems there.
use unix_linux_prog_in_c_src.Base.{
  ◌≤◌, ◌≡◌, ◌≢◌, refl, Bool, true, false, List, [], ◌∷◌, ◌++◌, replicate, length, All, run,
}
use unix_linux_prog_in_c_src.Cancel.{
  spin, say_error, open_fifo, running, canceled, returned, ended, start, Event, thread_runs,
  main_runs, step, configure, dash_a,
}
use unix_linux_prog_in_c_src.Cancel.Success.{IsBlocked, cancel_succeeds}

abbrev on : (acts passed writer : Bool) → Event
on acts passed writer =
    thread_runs (record { acts = acts; passed = passed; writer = writer; fails = false })

-- open() fails.
abbrev on_failing : Event
on_failing = thread_runs (record { acts = false; passed = true; writer = false; fails = true })

-- The thread is in its loop when it is canceled, and has no time left there after a while.
abbrev usual : List Event
usual =
    on false false false
    ∷ on false false false
    ∷ main_runs false
    ∷ main_runs false
    ∷ on true false false
    ∷ on true true false
    ∷ on false false false
    ∷ on false false false
    ∷ main_runs false
    ∷ []

usual_result :
    ((run (step false) usual start).pc ≡ canceled open_fifo)
    × ((run (step false) usual start).main_pc ≡ ended 0)
    × ((run (step true) usual start).pc ≡ canceled spin)
    × ((run (step true) usual start).main_pc ≡ ended 0)
unfolding run step start
usual_result = (refl, refl, refl, refl)

-- With no fifo, the thread prints its error and returns before it is canceled, and `main` ends with 1.
abbrev no_fifo : List Event
no_fifo = replicate 6 on_failing ++ main_runs false ∷ main_runs false ∷ main_runs false ∷ []

no_fifo_result :
    ((run (step false) no_fifo start).pc ≡ returned)
    × ((run (step false) no_fifo start).main_pc ≡ ended 1)
unfolding run step start
no_fifo_result = (refl, refl)

configure_result :
    (configure [] ≡ false)
    × (configure (dash_a ∷ []) ≡ true)
    × (configure ((45 ∷ 98 ∷ []) ∷ dash_a ∷ []) ≡ false)
unfolding configure
configure_result = (refl, refl, refl)

abbrev early : List Event
early = main_runs false ∷ on false false false ∷ main_runs false ∷ []

cancel_succeeds_example :
    let s = run (step true) early start in
    (s.pc ≢ running say_error)
    × (s.pc ≢ returned)
    × (s.main_pc ≢ ended 1)
    × (fs : List Event) × All IsBlocked fs
    × (length fs ≤ 5)
    × ((run (step true) fs s).main_pc ≡ ended 0)
cancel_succeeds_example = cancel_succeeds true early (tt, (refl, (tt, tt)))
