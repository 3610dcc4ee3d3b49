-- ===== src/Datagrams/Transfer.antt =====
-- What gets from the client to the server.
use unix_linux_prog_in_c_src.Base.{
  ℕ, zero, suc, ◌≤◌, ◌≡◌, refl, ap, ◌∙◌, arith, true, false, List, [], ◌∷◌, ◌++◌, take, length, All,
}
use mathlib.Core.List.{append_assoc, append-nil}
use unix_linux_prog_in_c_src.Servers.{bytes, eof, waiting, ended, error}
use unix_linux_prog_in_c_src.Datagrams.{Round, client, Received, datagram, fails, is_empty, server}

-- The first bytes of each datagram.
abbrev pub heads : List (List ℕ) → List ℕ
heads [] = []
heads (d ∷ ds) = take 1024 d ++ heads ds

abbrev pub joined : List (List ℕ) → List ℕ
joined [] = []
joined (d ∷ ds) = d ++ joined ds

abbrev pub IsFull : List ℕ → Type 0
IsFull d = is_empty d ≡ false

abbrev pub arriving : List (List ℕ) → List Received → List Received
arriving [] rs = rs
arriving (d ∷ ds) rs = datagram d ∷ arriving ds rs

take-all : (n : ℕ) (xs : List ℕ) → length xs ≤ n → take n xs ≡ xs
take-all n [] h = refl
take-all zero (x ∷ xs) h = absurd (omega (arith, h))
take-all (suc n) (x ∷ xs) h = ap (λ (ys : List ℕ). x ∷ ys) (take-all n xs (omega (arith, h)))

take-full : (d : List ℕ) → IsFull d → is_empty (take 1024 d) ≡ false
take-full [] h = h
take-full (x ∷ xs) h = refl

-- Whatever datagrams come that are not empty, the server prints the first 1024 bytes of each, and goes
-- on with what comes behind them.
pub server-arriving :
    (ds : List (List ℕ)) (rs : List Received)
    → All IsFull ds
    → server (arriving ds rs)
      ≡ record { out = heads ds ++ (server rs).out; status = (server rs).status }
unfolding server
server-arriving [] rs h = refl
server-arriving (d ∷ ds) rs h =
    rw
      (
        take-full d h.0,
        server-arriving ds rs h.1,
        append_assoc (take 1024 d) (heads ds) (server rs).out,
      )
      refl

-- Behind datagrams that are not empty the server has printed the first 1024 bytes of each, and waits
-- for the next one. An empty one ends it there, with no error, and a failure of recvfrom() ends it with
-- an error, whatever comes behind them.
pub server_ends :
    (ds : List (List ℕ)) (rs : List Received)
    → All IsFull ds
    → (server (arriving ds []) ≡ record { out = heads ds; status = waiting })
      × (server (arriving ds (datagram [] ∷ rs)) ≡ record { out = heads ds; status = ended })
      × (server (arriving ds (fails ∷ rs)) ≡ record { out = heads ds; status = error })
unfolding server
server_ends ds rs h = (
  rw (server-arriving ds [] h, append-nil (heads ds)) refl,
  rw (server-arriving ds (datagram [] ∷ rs) h, append-nil (heads ds)) refl,
  rw (server-arriving ds (fails ∷ rs) h, append-nil (heads ds)) refl,
)

-- The rounds in which the client reads some chunks and sends them.
abbrev pub reading : List (List ℕ) → List Round
reading [] = []
reading (d ∷ ds) = record { input = bytes d; sends = true } ∷ reading ds

client-reading :
    (ds : List (List ℕ)) (rs : List Round)
    → client (reading ds ++ rs)
      ≡ record { datagrams = ds ++ (client rs).datagrams; status = (client rs).status }
unfolding client
client-reading [] rs = refl
client-reading (d ∷ ds) rs = rw (client-reading ds rs) refl

heads-joined : (ds : List (List ℕ)) → All (λ d. length d ≤ 1024) ds → heads ds ≡ joined ds
heads-joined [] h = refl
heads-joined (d ∷ ds) h = rw (take-all 1024 d h.0, heads-joined ds h.1) refl

-- The two programs together, where the network delivers all datagrams in order: if the client reads
-- chunks of at most 1024 bytes, and then comes to the end of its input, the server prints the input.
pub transfer :
    (ds : List (List ℕ)) (rs : List Round)
    → All IsFull ds
    → All (λ d. length d ≤ 1024) ds
    → let sent = client (reading ds ++ record { input = eof; sends = true } ∷ rs) in
      (sent.status ≡ ended)
      × (server (arriving sent.datagrams []) ≡ record { out = joined ds; status = waiting })
unfolding client
transfer ds rs full short =
    let end : Round = record { input = eof; sends = true } in
    let sends : client (reading ds ++ end ∷ rs) ≡ record { datagrams = ds; status = ended } =
      rw (client-reading ds (end ∷ rs), append-nil ds) refl in
    rw sends (refl, (server_ends ds [] full).0 ∙ rw (heads-joined ds short) refl)
