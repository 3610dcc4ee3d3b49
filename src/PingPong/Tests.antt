-- ===== src/PingPong/Tests.antt =====
-- Runs of ping-pong.c, and the theorems there.
use unix_linux_prog_in_c_src.Base.{ℕ, ◌≡◌, ◌≢◌, arith, ◌⊎◌, refl, List, [], ◌∷◌, ◌++◌, run}
use unix_linux_prog_in_c_src.PingPong.{Who, parent, child, dead, start, advance, step}
use unix_linux_prog_in_c_src.PingPong.Turns.{pairs, printed_alternates, ping_pong_goes_on}

abbrev child_ready : List Who
child_ready = child ∷ child ∷ child ∷ []

abbrev played : List Who
played = child_ready ++ parent ∷ child ∷ child ∷ parent ∷ parent ∷ child ∷ child ∷ []

-- Three lines, where the second signal for the child comes in its handler; a signal before the child has set its handler, and one before it has set its message.
ping_pong_result :
    ((run step played start).printed ≡ child ∷ parent ∷ child ∷ [])
    × ((run step (parent ∷ []) start).child_process.pc ≡ dead)
    × ((run step (child ∷ parent ∷ []) start).child_process.pc ≡ dead)
unfolding run step advance start
ping_pong_result = (refl, refl, refl)

printed_alternates_example :
    (k : ℕ) × (((run step played start).printed ≡ pairs k)
      ⊎ ((run step played start).printed ≡ child ∷ pairs k))
printed_alternates_example = printed_alternates played

alive : (run step played start).child_process.pc ≢ dead
unfolding run step advance start
alive e = ground (arith, e)

ping_pong_goes_on_example :
    (fs : List Who) × (w : Who) × ((run step fs (run step played start)).printed
      ≡ w ∷ (run step played start).printed)
ping_pong_goes_on_example = ping_pong_goes_on played alive
