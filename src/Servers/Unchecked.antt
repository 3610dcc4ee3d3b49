-- ===== src/Servers/Unchecked.antt =====
-- What the TCP servers print and send back, and what a failed read() does to them.
use unix_linux_prog_in_c_src.Base.{ℕ, ◌≡◌, refl, List, [], ◌∷◌, ◌++◌}
use unix_linux_prog_in_c_src.Servers.{
  Got, bytes, eof, failed, ended, error, overrun, serve, sink, echo,
}

abbrev pub received : List (List ℕ) → List ℕ
received [] = []
received (b ∷ bs) = b ++ received bs

abbrev pub sending : List (List ℕ) → List Got → List Got
sending [] gs = gs
sending (b ∷ bs) gs = bytes b ∷ sending bs gs

-- Whatever a client sends before it closes its side, the echo server prints it and sends it back, and
-- the sink server prints it; both go on to the next client.
pub echo-received :
    (bs : List (List ℕ)) (gs : List Got)
    → (echo (sending bs (eof ∷ gs)) ≡ (record { out = received bs; status = ended }, received bs))
      × (sink (sending bs (eof ∷ gs)) ≡ record { out = received bs; status = ended })
unfolding echo sink
echo-received [] gs = (refl, refl)
echo-received (b ∷ bs) gs = let h = echo-received bs gs in (rw (h.0) refl, rw (h.1) refl)

-- If a read() from the connection fails after any data, both TCP servers call write() with a size of
-- -1, where select.c ends with an error.
pub failed_read_overruns :
    (bs : List (List ℕ)) (gs : List Got)
    → ((echo (sending bs (failed ∷ gs))).0.status ≡ overrun)
      × ((sink (sending bs (failed ∷ gs))).status ≡ overrun)
      × ((serve (sending bs (failed ∷ gs))).status ≡ error)
unfolding echo sink serve
failed_read_overruns [] gs = (refl, refl, refl)
failed_read_overruns (b ∷ bs) gs = failed_read_overruns bs gs
