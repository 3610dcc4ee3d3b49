-- ===== src/Datagrams/Tests.antt =====
-- Runs of udp-client.c and udp-server.c, and the theorems there.
use unix_linux_prog_in_c_src.Base.{
  ℕ, ◌≡◌, refl, arith, true, false, List, [], ◌∷◌, ◌++◌, length, replicate,
}
use unix_linux_prog_in_c_src.Servers.{bytes, eof, waiting, ended, error}
use unix_linux_prog_in_c_src.Datagrams.{client, datagram, fails, server}
use unix_linux_prog_in_c_src.Datagrams.Transfer.{
  heads, joined, arriving, reading, server_ends, transfer,
}

abbrev chunks : List (List ℕ)
chunks = (1 ∷ 2 ∷ []) ∷ (3 ∷ []) ∷ []

client_result :
    (client (reading chunks ++ record { input = eof; sends = true } ∷ [])
      ≡ record { datagrams = chunks; status = ended })
    × (client (record { input = bytes (7 ∷ []); sends = false } ∷ [])
        ≡ record { datagrams = []; status = error })
unfolding client
client_result = (refl, refl)

-- A datagram of 1500 bytes is cut.
cut_result : length (server (datagram (replicate 1500 7) ∷ [])).out ≡ 1024
unfolding server
cut_result = refl

server_ends_example :
    (server (arriving chunks []) ≡ record { out = heads chunks; status = waiting })
    × (server (arriving chunks (datagram [] ∷ datagram (4 ∷ []) ∷ []))
        ≡ record { out = heads chunks; status = ended })
    × (server (arriving chunks (fails ∷ datagram (4 ∷ []) ∷ []))
        ≡ record { out = heads chunks; status = error })
server_ends_example = server_ends chunks (datagram (4 ∷ []) ∷ []) (refl, (refl, tt))

transfer_example :
    let sent = client (reading chunks ++ record { input = eof; sends = true } ∷ []) in
    (sent.status ≡ ended)
    × (server (arriving sent.datagrams []) ≡ record { out = joined chunks; status = waiting })
transfer_example = transfer chunks [] (refl, (refl, tt)) (omega arith, (omega arith, tt))
