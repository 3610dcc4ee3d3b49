-- ===== src/RwLock/Steps.antt =====
-- Every step of pthread-rwlock.c keeps the invariant.
use unix_linux_prog_in_c_src.Base.{
  ℕ, zero, suc, ◌+◌, ◌-◌, ◌%◌, ◌<◌, ◌≡◌, inl, inr, refl, arith, true, false, Option, none, some,
  List, ◌∷◌, ltb, ◌==◌, if◌then◌else◌, if-cases, run, run-keeps, subst, sym, ◌∙◌,
}
use unix_linux_prog_in_c_src.Base.Family.{put, weigh, weigh-put}
use unix_linux_prog_in_c_src.RwLock.{
  Pc, choose, set_lock, set, set_unlock, top, get_lock, get, get_unlock, show, finished, State,
  is_writer, start, go, can_write, can_read, advance, refuse, Event, runs, fails, step, max_iter,
}
use unix_linux_prog_in_c_src.RwLock.Invariant.{
  reads, holds, Written, Fits, Inv, Fits-but, unlocked-write, unlocked-read, Current-any,
  holds-other, no_readers,
}

module _ (i r : ℕ) (s : State) (lt : i < 32) (v : Inv s) where
  moved : (p : Pc) → reads p ≡ reads (s.pc i) → Fits s.properties s.writer i p → Inv (go i p s)
  moved p same own = record {
    counted = omega (arith, weigh-put reads s.pc i p 32 lt, v.counted, same);
    fits = Fits-but s.pc s.properties s.writer i p own (λ j l n. v.fits j l);
    alone = v.alone;
    written = v.written;
    printed = v.printed;
    holder = v.holder;
  }

  set_lock-Inv :
      (idx : ℕ)
      → s.pc i ≡ set_lock idx
      → i % 4 ≡ 0
      → can_write s.writer s.readers ≡ true
      → Inv (go i (set idx) (record s { writer = some i }))
  set_lock-Inv idx e role t =
      let (free, quiet) = unlocked-write s.writer s.readers t in
      record {
        counted = ground (arith, weigh-put reads s.pc i (set idx) 32 lt, v.counted);
        fits =
            Fits-but s.pc s.properties (some i) i (set idx) (ground arith, tt, role)
              (λ j l n.
                let f = v.fits j l in
                let unheld : holds j s.writer ≡ false = rw free refl in
                (ground (arith, f.0, unheld, n), f.1, f.2));
        alone = inr quiet;
        written = v.written;
        printed = v.printed;
        holder = lt;
      }

  set-Inv :
      (idx : ℕ)
      → s.pc i ≡ set idx
      → Fits s.properties s.writer i (set idx)
      → Inv (go i set_unlock (record s { properties = put idx (some i) s.properties }))
  set-Inv idx e own =
      let held = sym own.0 in
      record {
        counted = ground (arith, weigh-put reads s.pc i set_unlock 32 lt, v.counted);
        fits =
            Fits-but s.pc (put idx (some i) s.properties) s.writer i set_unlock (own.0, tt, own.2)
              (λ j l n.
                let f = v.fits j l in
                (
                  f.0,
                  Current-any s.properties (put idx (some i) s.properties) (s.pc j)
                      (no_readers i s held v j l) f.1,
                  f.2,
                ));
        alone = v.alone;
        written = λ k.
            if-cases Written (idx == k) (some i) (s.properties k) (λ t. (lt, own.2))
              (λ t. v.written k);
        printed = v.printed;
        holder = v.holder;
      }

  set_unlock-Inv :
      s.pc i ≡ set_unlock
      → Fits s.properties s.writer i set_unlock
      → Inv (go i finished (record s { writer = none }))
  set_unlock-Inv e own = record {
    counted = ground (arith, weigh-put reads s.pc i finished 32 lt, v.counted);
    fits =
        Fits-but s.pc s.properties none i finished (refl, tt, tt)
          (λ j l n. let f = v.fits j l in (f.0 ∙ holds-other i j s.writer (sym own.0) n, f.1, f.2));
    alone = inl refl;
    written = v.written;
    printed = v.printed;
    holder = tt;
  }

  get_lock-Inv :
      (left idx : ℕ)
      → s.pc i ≡ get_lock left idx
      → Fits s.properties s.writer i (get_lock left idx)
      → can_read s.writer ≡ true
      → Inv (go i (get left idx) (record s { readers = s.readers + 1 }))
  get_lock-Inv left idx e own t = record {
    counted = ground (arith, weigh-put reads s.pc i (get left idx) 32 lt, v.counted);
    fits = Fits-but s.pc s.properties s.writer i (get left idx) own (λ j l n. v.fits j l);
    alone = inl (unlocked-read s.writer t);
    written = v.written;
    printed = v.printed;
    holder = v.holder;
  }

  get_unlock-Inv :
      (left idx : ℕ) (val : Option ℕ)
      → s.pc i ≡ get_unlock left idx val
      → Fits s.properties s.writer i (get_unlock left idx val)
      → Inv (go i (show left idx val) (record s { readers = s.readers - 1 }))
  get_unlock-Inv left idx val e own =
      let (out, read, role) = own in
      record {
        counted = ground (arith, weigh-put reads s.pc i (show left idx val) 32 lt, v.counted);
        fits =
            Fits-but s.pc s.properties s.writer i (show left idx val)
              (out, subst Written read (v.written idx), tt) (λ j l n. v.fits j l);
        alone = elim (v.alone) [ inl a ↦ inl a | inr a ↦ inr (omega (arith, a)) ];
        written = v.written;
        printed = v.printed;
        holder = v.holder;
      }

  show-Inv :
      (left idx : ℕ) (val : Option ℕ)
      → s.pc i ≡ show left idx val
      → Fits s.properties s.writer i (show left idx val)
      → Inv (go i (top left) (record s { output = (idx, val) ∷ s.output }))
  show-Inv left idx val e own = record {
    counted = ground (arith, weigh-put reads s.pc i (top left) 32 lt, v.counted);
    fits = Fits-but s.pc s.properties s.writer i (top left) (own.0, tt, tt) (λ j l n. v.fits j l);
    alone = v.alone;
    written = v.written;
    printed = (own.1, v.printed);
    holder = v.holder;
  }

advance-Inv :
    (i r : ℕ) (p : Pc) (s : State)
    → i < 32
    → s.pc i ≡ p
    → Fits s.properties s.writer i p
    → Inv s
    → Inv (advance i r p s)
unfolding advance
advance-Inv i r choose s lt e own v = moved i r s lt v (set_lock (r % 64)) (rw e refl) own
advance-Inv i r (set_lock idx) s lt e own v =
    if-cases Inv (can_write s.writer s.readers) (go i (set idx) (record s { writer = some i })) s
      (λ t. set_lock-Inv i r s lt v idx e own.2 t) (λ t. v)
advance-Inv i r (set idx) s lt e own v = set-Inv i r s lt v idx e own
advance-Inv i r set_unlock s lt e own v = set_unlock-Inv i r s lt v e own
advance-Inv i r (top zero) s lt e own v = moved i r s lt v finished (rw e refl) own
advance-Inv i r (top (suc left)) s lt e own v =
    moved i r s lt v (get_lock left (r % 64)) (rw e refl) own
advance-Inv i r (get_lock left idx) s lt e own v =
    if-cases Inv (can_read s.writer) (go i (get left idx) (record s { readers = s.readers + 1 })) s
      (λ t. get_lock-Inv i r s lt v left idx e own t) (λ t. v)
advance-Inv i r (get left idx) s lt e own v =
    moved i r s lt v (get_unlock left idx (s.properties idx)) (rw e refl) (own.0, refl, tt)
advance-Inv i r (get_unlock left idx val) s lt e own v =
    get_unlock-Inv i r s lt v left idx val e own
advance-Inv i r (show left idx val) s lt e own v = show-Inv i r s lt v left idx val e own
advance-Inv i r finished s lt e own v = v

refuse-Inv : (p : Pc) (s : State) → Inv s → Inv (refuse p s)
unfolding refuse
refuse-Inv (set_lock idx) s v = record {
  counted = v.counted;
  fits = v.fits;
  alone = v.alone;
  written = v.written;
  printed = v.printed;
  holder = v.holder;
}
refuse-Inv (get_lock left idx) s v = record {
  counted = v.counted;
  fits = v.fits;
  alone = v.alone;
  written = v.written;
  printed = v.printed;
  holder = v.holder;
}
refuse-Inv choose s v = v
refuse-Inv (set idx) s v = v
refuse-Inv set_unlock s v = v
refuse-Inv (top left) s v = v
refuse-Inv (get left idx) s v = v
refuse-Inv (get_unlock left idx val) s v = v
refuse-Inv (show left idx val) s v = v
refuse-Inv finished s v = v

pub step-Inv : (e : Event) (s : State) → Inv s → Inv (step e s)
unfolding step
step-Inv (runs i r) s v =
    if-cases Inv s.exited s (if ltb i 32 then advance i r (s.pc i) s else s) (λ t. v)
      (λ x.
        if-cases Inv (ltb i 32) (advance i r (s.pc i) s) s
          (λ t.
            let lt : i < 32 = ground (arith, t) in
            advance-Inv i r (s.pc i) s lt refl (v.fits i lt) v)
          (λ t. v))
step-Inv (fails i) s v =
    if-cases Inv s.exited s (if ltb i 32 then refuse (s.pc i) s else s) (λ t. v)
      (λ x. if-cases Inv (ltb i 32) (refuse (s.pc i) s) s (λ t. refuse-Inv (s.pc i) s v) (λ t. v))

start-Fits : (i : ℕ) → Fits (λ idx. none) none i (if is_writer i then choose else top max_iter)
start-Fits i =
    if-cases (Fits (λ idx. none) none i) (is_writer i) choose (top 100)
      (λ t. (refl, tt, ground (arith, t))) (λ t. (refl, tt, tt))

start-reads : (n : ℕ) → weigh reads start.pc n ≡ 0
unfolding weigh start
start-reads zero = refl
start-reads (suc n) =
    let e : reads (if is_writer n then choose else top 100) ≡ 0 =
      if-cases (λ (p : Pc). reads p ≡ 0) (is_writer n) choose (top 100) (λ t. refl) (λ t. refl) in
    omega (arith, e, start-reads n)

start-Inv : Inv start
unfolding start
start-Inv = record {
  counted = start-reads 32;
  fits = λ i lt. start-Fits i;
  alone = inl refl;
  written = λ idx. tt;
  printed = tt;
  holder = tt;
}

pub run-Inv : (es : List Event) → Inv (run step es start)
run-Inv es = run-keeps Inv step step-Inv es start start-Inv
