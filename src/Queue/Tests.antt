-- ===== src/Queue/Tests.antt =====
-- Runs of queue-simulation.c at a capacity of 1, and the theorems there.
use unix_linux_prog_in_c_src.Base.{
  false, ◌<◌, ◌≡◌, ◌≢◌, ◌⊎◌, some, List, [], ◌∷◌, ◌++◌, refl, arith, run, replicate,
}
use unix_linux_prog_in_c_src.Queue.{
  poll, wait, notify, start, Event, producer_runs, consumer_runs, main_runs, step, render, pos,
  negsuc,
}
use unix_linux_prog_in_c_src.Queue.Safety.{Counts, step_refines}
use unix_linux_prog_in_c_src.Queue.Progress.{
  no_lost_wakeup, never_stuck, ProducerMoves, ConsumerMoves,
}

-- One message goes in.
abbrev put_one : List Event
put_one = replicate 6 (producer_runs 1)

-- The producer then finds the queue full, and sleeps.
abbrev put_two : List Event
put_two = put_one ++ replicate 3 (producer_runs 1)

-- The consumer finds the queue empty, and sleeps.
abbrev take_one : List Event
take_one = replicate 3 (consumer_runs 1)

put_one_result :
    let s = run step put_one (start (some (pos 1))) in (s.in_queue ≡ 1) × (s.prod ≡ poll)
unfolding run step start
put_one_result = (refl, refl)

put_two_result :
    let s = run step put_two (start (some (pos 1))) in (s.in_queue ≡ 1) × (s.prod ≡ wait)
unfolding run step start
put_two_result = (refl, refl)

take_one_result : (run step take_one (start (some (pos 1)))).cons ≡ wait
unfolding run step start
take_one_result = refl

line_result :
    (run step (put_one ++ main_runs ∷ main_runs ∷ []) (start (some (pos 2)))).line
    ≡ b' ' ∷ b'|' ∷ b'.' ∷ b' ' ∷ b'|' ∷ 0x0a ∷ []
unfolding run step start render
line_result = refl

-- With a capacity of -1 the producer adds to any count.
unbounded_result :
    let s = run step (put_one ++ put_one ++ main_runs ∷ main_runs ∷ []) (start (some (negsuc 0))) in
    (s.in_queue ≡ 2) × (s.prod ≡ poll) × (s.line ≡ b' ' ∷ b'|' ∷ b'.' ∷ b'.' ∷ b'|' ∷ 0x0a ∷ [])
unfolding run step start render
unbounded_result = (refl, refl, refl)

step_refines_example :
    let s = run step put_two (start (some (pos 1))) in
    Counts s.negative s.capacity s.in_queue (step (consumer_runs 1) s).in_queue
step_refines_example = step_refines put_two (consumer_runs 1) (some (pos 1))

has_room : 0 < (start (some (pos 1))).capacity
unfolding start
has_room = omega arith

no_lost_wakeup_example :
    let s = run step put_two (start (some (pos 1))) in
    ((s.prod ≢ wait) ⊎ (s.cons ≢ wait))
    × ((s.prod ≢ wait)
        ⊎ ((s.negative ≡ false)
            × ((s.in_queue ≡ s.capacity) ⊎ ((s.cons ≡ notify) × (s.orig_in_queue ≡ s.capacity)))))
    × ((s.cons ≢ wait) ⊎ (s.in_queue ≡ 0) ⊎ ((s.prod ≡ notify) × (s.in_queue ≡ 1)))
no_lost_wakeup_example = no_lost_wakeup put_two (some (pos 1)) has_room

never_stuck_example :
    ProducerMoves (run step put_two (start (some (pos 1))))
    ⊎ ConsumerMoves (run step put_two (start (some (pos 1))))
never_stuck_example = never_stuck put_two (some (pos 1)) has_room (unfold run step start in refl)
