-- ===== src/Servers/Tests.antt =====
-- Runs of the servers, and the theorems there.
use unix_linux_prog_in_c_src.Base.{ℕ, ◌≡◌, refl, true, false, none, some, List, [], ◌∷◌}
use unix_linux_prog_in_c_src.Servers.{
  bytes, eof, failed, waiting, ended, error, overrun, simple_cat, refused, connection, Round,
  select_loop, connect_only, sink_server, echo_server,
}

-- Two lines from the terminal, and a connection between them.
abbrev rounds : List Round
rounds =
    record { input = some (bytes (1 ∷ [])); client = none }
    ∷ record { input = none; client = some (connection (bytes (7 ∷ 8 ∷ []) ∷ eof ∷ [])) }
    ∷ record { input = some (bytes (2 ∷ [])); client = none }
    ∷ record { input = some eof; client = some refused }
    ∷ []

rounds_result : select_loop rounds ≡ record { out = 1 ∷ 7 ∷ 8 ∷ 2 ∷ []; status = ended }
unfolding select_loop
rounds_result = refl

-- An error is an error for all of them but simple-cat.c.
broken_result :
    (connect_only false (bytes (7 ∷ []) ∷ failed ∷ []) ≡ record { out = 7 ∷ []; status = error })
    × (simple_cat (bytes (7 ∷ []) ∷ failed ∷ []) ≡ record { out = 7 ∷ []; status = ended })
    × (connect_only true (failed ∷ []) ≡ record { out = []; status = waiting })
unfolding connect_only simple_cat
broken_result = (refl, refl, refl)

-- Two clients after one another, and a third one that breaks the connection.
servers_result :
    (sink_server (
        connection (bytes (1 ∷ []) ∷ eof ∷ [])
        ∷ connection (bytes (2 ∷ []) ∷ eof ∷ [])
        ∷ refused
        ∷ [])
      ≡ record { out = 1 ∷ 2 ∷ []; status = error })
    × (echo_server (connection (bytes (1 ∷ []) ∷ eof ∷ []) ∷ connection (failed ∷ []) ∷ [])
        ≡ (record { out = 1 ∷ []; status = overrun }, (1 ∷ []) ∷ [] ∷ []))
unfolding sink_server echo_server
servers_result = (refl, refl)

abbrev lines : List (List ℕ)
lines = (1 ∷ 2 ∷ []) ∷ (3 ∷ []) ∷ []
