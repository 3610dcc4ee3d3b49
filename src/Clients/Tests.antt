-- ===== src/Clients/Tests.antt =====
-- Runs of connect.c and linger.c.
use unix_linux_prog_in_c_src.Base.{
  ℕ, ◌≡◌, refl, Bool, true, false, none, some, List, [], ◌∷◌, length,
}
use unix_linux_prog_in_c_src.Servers.{bytes, eof, ended}
use unix_linux_prog_in_c_src.Clients.{Round, connect, linger_option, unknown, read_options}

abbrev reads : List ℕ → (writes : Bool) → Round
reads b writes = record { input = bytes b; writes = writes }

abbrev ends : Round
ends = record { input = eof; writes = true }

connect_result :
    (connect (reads (1 ∷ 2 ∷ []) true ∷ ends ∷ [])
      ≡ record { sent = 1 ∷ 2 ∷ []; closes = 1; server_closed = false; status = ended })
    × (connect (reads (1 ∷ []) true ∷ reads (2 ∷ []) false ∷ ends ∷ [])
        ≡ record { sent = 1 ∷ []; closes = 1; server_closed = true; status = ended })
unfolding connect
connect_result = (refl, refl)

options_result :
    (read_options length none (linger_option (5 ∷ 5 ∷ []) ∷ []) ≡ some (some 2))
    × (read_options length none [] ≡ some none)
    × (read_options length none (linger_option [] ∷ unknown ∷ []) ≡ none)
unfolding read_options
options_result = (refl, refl, refl)
