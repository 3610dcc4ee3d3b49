-- ===== src/Connect/Tests.antt =====
-- Runs of non-blocking-connect.c, and the theorems there.
use unix_linux_prog_in_c_src.Base.{
  ℕ, ◌+◌, ◌-◌, ◌%◌, ◌<◌, ◌≡◌, ◌⊎◌, refl, arith, true, false, ◌&&◌, none, some, List, [], ◌∷◌, ltb,
  leb, ◌==◌, length, replicate, run,
}
use unix_linux_prog_in_c_src.Base.Family.{weigh}
use unix_linux_prog_in_c_src.Connect.{
  Address, made, in_progress, connected_now, connected, timed_out, Host, Init, State, select_from,
  Event, second, step, init_host, init_hosts, check_slots, late_slots, before,
}
use unix_linux_prog_in_c_src.Connect.Setup.{bit, mentions}
use unix_linux_prog_in_c_src.Connect.Reports.{over, reported_once}
use unix_linux_prog_in_c_src.Connect.Rounds.{waiting_ends}

-- Two hosts: the sockets 3 and 4 are in progress, 5 is connected at once.
abbrev two_hosts : List (List Address)
two_hosts = (made in_progress ∷ made in_progress ∷ []) ∷ (made connected_now ∷ []) ∷ []

-- Only `fd` gets ready, and an odd descriptor has no error.
abbrev news : ℕ → Event
news fd = second (λ k. k == fd) (λ k. k % 2 - 1)

-- Socket 3 connects, and 4 times out.
abbrev waiting : List Event
waiting = news 3 ∷ replicate 10 (news 0)

abbrev started : State
started = elim (init_hosts two_hosts before) [
  | none ↦ select_from ([], before)
  | some r ↦ select_from r
]

waiting_result :
    let s = run step waiting started in
    (s.ended ≡ true)
    × (s.printed ≡ timed_out 4 ∷ connected 3 ∷ connected 5 ∷ [])
    × (s.n ≡ 2)
    × (s.timeouts ≡ 10)
unfolding run step init_hosts init_host check_slots late_slots
waiting_result = (refl, refl, refl, refl)

-- Socket 4 gets ready in the third second, but after a second without news it is not noticed.
late_news_result :
    let s = run step (news 3 ∷ news 0 ∷ replicate 9 (news 4)) started in
    (s.ended ≡ true) × (s.printed ≡ timed_out 4 ∷ connected 3 ∷ connected 5 ∷ [])
unfolding run step init_hosts init_host check_slots late_slots
late_news_result = (refl, refl)

reported_once_example :
    (r : List Host × Init) × (init_hosts two_hosts before ≡ some r)
    × (let s = run step waiting (select_from r) in
        (s.n + weigh bit s.wrfds_orig s.next_fd ≡ s.num_sockets)
        × ((over s ≡ false) ⊎ (mentions 4 s.printed ≡ bit (leb 3 4 && ltb 4 (3 + s.num_sockets)))))
reported_once_example =
    reported_once two_hosts waiting 4 (((tt, (tt, tt)), omega arith), (((tt, tt), omega arith), tt))

waiting_ends_example :
    (r : List Host × Init) × (init_hosts two_hosts before ≡ some r)
    × ((length waiting < r.1.num_sockets + 10) ⊎ ((run step waiting (select_from r)).ended ≡ true))
waiting_ends_example =
    waiting_ends two_hosts waiting (((tt, (tt, tt)), omega arith), (((tt, tt), omega arith), tt))
