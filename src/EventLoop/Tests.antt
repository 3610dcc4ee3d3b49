-- ===== src/EventLoop/Tests.antt =====
-- Runs of event-loop.c.
use unix_linux_prog_in_c_src.Base.{◌≡◌, refl, List, ◌∷◌, ◌++◌, run, replicate}
use unix_linux_prog_in_c_src.EventLoop.{
  start, sig_handler, loop, Event, loop_runs, signal_comes, step,
}

abbrev announced : List Event
announced = signal_comes ∷ replicate 3 loop_runs

-- A signal between the message and the clearing of the flag.
abbrev lost : List Event
lost = signal_comes ∷ loop_runs ∷ loop_runs ∷ signal_comes ∷ replicate 7 loop_runs

event_loop_result :
    ((run step announced start).messages ≡ 1)
    × ((run step (announced ++ announced) start).messages ≡ 2)
    × ((run step lost start).signals ≡ 2)
    × ((run step lost start).messages ≡ 1)
unfolding run step sig_handler loop start
event_loop_result = (refl, refl, refl, refl)
