-- ===== src/Writer/Total.antt =====
-- What the total of write-select.c counts.
use unix_linux_prog_in_c_src.Base.{
  ℕ, ◌+◌, ◌-◌, ◌%◌, ◌^◌, ◌≤◌, ◌<◌, ◌≡◌, ◌⊎◌, inl, inr, Bool, true, ◌&&◌, refl, ◌∙◌, subst, arith,
  ltb, ◌==◌, if◌then◌else◌, if-cases, List, run, run-keeps,
}
use unix_linux_prog_in_c_src.Writer.{
  buf_len, Pc, selecting, writing, failed, State, start, add, cut, write, server_step, taken,
  client_reads, discard, Event, server_runs, reads, closes, discards, step,
}

-- What a write() that has not returned has got rid of.
abbrev pub pending : Pc → ℕ
pending selecting = 0
pending (writing left) = buf_len - left
pending failed = 0

abbrev Left : Pc → Type 0
Left selecting = Unit
Left (writing left) = left ≤ buf_len
Left failed = Unit

record Inv (limit : ℕ) (s : State) : Type 0 where
  enough : pending s.pc ≤ s.read_bytes + s.queued + s.lost
  counted : s.total ≡ (s.read_bytes + s.queued + s.lost - pending s.pc) % 2 ^ 64
  room : s.queued ≤ limit
  left_le : Left s.pc
  nothing_lost : (s.closed ≡ true) ⊎ (s.lost ≡ 0)

add_lem : (t x n : ℕ) → t ≡ x % 2 ^ 64 → add t n ≡ (x + n) % 2 ^ 64
add_lem t x n e = rw e (omega arith)

-- The parts of the invariant, for a place.
abbrev At : (limit : ℕ) → Pc → State → Type 0
At limit p s =
    (pending p ≤ s.read_bytes + s.queued + s.lost)
    × (s.total ≡ (s.read_bytes + s.queued + s.lost - pending p) % 2 ^ 64)
    × (s.queued ≤ limit)
    × Left p
    × ((s.closed ≡ true) ⊎ (s.lost ≡ 0))

to_At : (limit : ℕ) (p : Pc) (s : State) → s.pc ≡ p → Inv limit s → At limit p s
to_At limit p s e v =
    subst (λ q. At limit q s) e (v.enough, v.counted, v.room, v.left_le, v.nothing_lost)

cut-Inv : (limit left : ℕ) (s : State) → At limit (writing left) s → Inv limit (cut left s)
cut-Inv limit left s v =
    if-cases (Inv limit) (left == buf_len) (record s { pc = failed })
      (record s { total = add s.total (buf_len - left); pc = selecting })
      (λ t.
        let full : left ≡ 1024 = ground (arith, t) in
        record {
          enough = omega arith;
          counted = v.1 ∙ omega (arith, full);
          room = v.2;
          left_le = tt;
          nothing_lost = v.4;
        })
      (λ t. record {
        enough = omega arith;
        counted =
            add_lem s.total (s.read_bytes + s.queued + s.lost - (buf_len - left)) (buf_len - left)
              v.1
            ∙ omega (arith, v.0);
        room = v.2;
        left_le = tt;
        nothing_lost = v.4;
      })

write-Inv :
    (limit left : ℕ) (s : State)
    → s.pc ≡ writing left
    → At limit (writing left) s
    → Inv limit (write limit left s)
write-Inv limit left s e v =
    if-cases (Inv limit) (ltb (limit - s.queued) left)
      (record s {
        queued = s.queued + (limit - s.queued);
        pc = writing (left - (limit - s.queued));
      })
      (record s { queued = s.queued + left; total = add s.total buf_len; pc = selecting })
      (λ t.
        let short : limit - s.queued < left = ground (arith, t) in
        record {
          enough = omega (arith, v.0, v.3, short);
          counted = v.1 ∙ omega (arith, v.0, v.3, short);
          room = omega (arith, v.2);
          left_le = omega (arith, v.3);
          nothing_lost = v.4;
        })
      (λ t.
        let fits : left ≤ limit - s.queued = ground (arith, t) in
        record {
          enough = omega arith;
          counted =
              add_lem s.total (s.read_bytes + s.queued + s.lost - (buf_len - left)) buf_len v.1
              ∙ omega (arith, v.0, v.3);
          room = omega (arith, v.2, fits);
          left_le = tt;
          nothing_lost = v.4;
        })

opened-Inv :
    (limit : ℕ) (s : State) → At limit selecting s → Inv limit (record s { pc = writing buf_len })
opened-Inv limit s v = record {
  enough = omega arith;
  counted = v.1;
  room = v.2;
  left_le = omega arith;
  nothing_lost = v.4;
}

server_step-Inv :
    (limit : ℕ) (broken : Bool) (p : Pc) (s : State)
    → s.pc ≡ p
    → Inv limit s
    → Inv limit (server_step limit broken p s)
unfolding server_step
server_step-Inv limit broken selecting s e v =
    let opened = opened-Inv limit s (to_At limit selecting s e v) in
    if-cases (Inv limit) (s.closed && broken) (record s { pc = writing buf_len })
      (if ltb s.queued limit then record s { pc = writing buf_len } else s) (λ t. opened)
      (λ t.
        if-cases (Inv limit) (ltb s.queued limit) (record s { pc = writing buf_len }) s
          (λ u. opened) (λ u. v))
server_step-Inv limit broken (writing left) s e v =
    if-cases (Inv limit) (s.closed && broken) (cut left s) (write limit left s)
      (λ t. cut-Inv limit left s (to_At limit (writing left) s e v))
      (λ t. write-Inv limit left s e (to_At limit (writing left) s e v))
server_step-Inv limit broken failed s e v = v

taken-le : (n queued : ℕ) → taken n queued ≤ queued
taken-le n queued = ground arith

client_reads-Inv : (limit n : ℕ) (s : State) → Inv limit s → Inv limit (client_reads n s)
client_reads-Inv limit n s v =
    let le = taken-le n s.queued in
    let same : s.read_bytes + taken n s.queued + (s.queued - taken n s.queued) + s.lost
        ≡ s.read_bytes + s.queued + s.lost =
      omega (arith, le) in
    record {
      enough = rw same v.enough;
      counted = rw same v.counted;
      room = omega (arith, v.room);
      left_le = v.left_le;
      nothing_lost = v.nothing_lost;
    }

discard-Inv : (limit n : ℕ) (s : State) → s.closed ≡ true → Inv limit s → Inv limit (discard n s)
discard-Inv limit n s gone v =
    let le = taken-le n s.queued in
    let same : s.read_bytes + (s.queued - taken n s.queued) + (s.lost + taken n s.queued)
        ≡ s.read_bytes + s.queued + s.lost =
      omega (arith, le) in
    record {
      enough = rw same v.enough;
      counted = rw same v.counted;
      room = omega (arith, v.room);
      left_le = v.left_le;
      nothing_lost = inl gone;
    }

step-Inv : (limit : ℕ) (e : Event) (s : State) → Inv limit s → Inv limit (step limit e s)
unfolding step
step-Inv limit (server_runs broken) s v = server_step-Inv limit broken s.pc s refl v
step-Inv limit (reads n) s v =
    if-cases (Inv limit) s.closed s (client_reads n s) (λ t. v) (λ t. client_reads-Inv limit n s v)
step-Inv limit closes s v = record {
  enough = v.enough;
  counted = v.counted;
  room = v.room;
  left_le = v.left_le;
  nothing_lost = inl refl;
}
step-Inv limit (discards n) s v =
    if-cases (Inv limit) s.closed (discard n s) s (λ t. discard-Inv limit n s t v) (λ t. v)

start-Inv : (limit : ℕ) → Inv limit (start)
unfolding start
start-Inv limit = record {
  enough = omega arith;
  counted = refl;
  room = omega arith;
  left_le = tt;
  nothing_lost = inr refl;
}

-- After any schedule, the total is, modulo 2 ^ 64, the number of bytes that the client has read, that the
-- system keeps for it, or that are lost, less those of a write() that has not returned. The system does
-- not keep more than it has room for, and nothing is lost before the client goes away.
pub total_counts :
    (limit : ℕ) (es : List Event)
    → let s = run (step limit) es start in
      (s.total ≡ (s.read_bytes + s.queued + s.lost - pending s.pc) % 2 ^ 64)
      × (s.queued ≤ limit)
      × ((s.closed ≡ true) ⊎ (s.lost ≡ 0))
total_counts limit es =
    let v = run-keeps (Inv limit) (step limit) (step-Inv limit) es start (start-Inv limit) in
    (v.counted, v.room, v.nothing_lost)

-- After any schedule, when the bytes that the client has read, the lost ones and the room of the system
-- together are fewer than 2 ^ 64, the total is at most their sum.
pub total-le :
    (limit : ℕ) (es : List Event)
    → let s = run (step limit) es start in
      s.read_bytes + s.lost + limit < 2 ^ 64 → s.total ≤ s.read_bytes + s.lost + limit
total-le limit es lt =
    let s = run (step limit) es start in
    let v = run-keeps (Inv limit) (step limit) (step-Inv limit) es start (start-Inv limit) in
    omega (arith, v.counted, v.room, lt)
