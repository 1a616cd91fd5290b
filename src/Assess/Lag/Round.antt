-- ===== src/Assess/Lag/Round.antt =====
-- One round of the loop keeps the rings, and scores as the direct comparison does.
use is_there_entropy_down_th.Common.{
  ℕ, zero, suc, ◌≡◌, ◌+◌, ◌-◌, ◌%◌, ◌<◌, ◌≤◌, refl, true, false, Option, some, List, [], ◌∷◌, leb,
  ◌==◌, drop, AllBelow, Bool-cases, inl, inr, arith,
}
use is_there_entropy_down_th.Common.Words.{u8}
use is_there_entropy_down_th.Assess.Lag.{LagBuf, Lag, store, update_ring, in_use, add_symbol}
use is_there_entropy_down_th.Assess.Lag.Direct.{Descends, AllBelow-le, position_scores}
use is_there_entropy_down_th.Assess.Lag.Ring.{
  Stored, Stored-drop, Stored-store, Scanned, Scanned-last, update_counters-Scanned,
}

-- A ring with n entries from t on, before position i, with the given start.
pub record Holds (i start : ℕ) (ring : LagBuf) (ps : List ℕ) : Type 0 where
  pub t : ℕ
  pub n : ℕ
  pub small : n ≤ 128
  pub starts : start ≡ t % 256
  pub ends : ring.end ≡ (t + n) % 256
  pub stored : Stored ring.buf t n ps
  pub old : AllBelow (i - 128) (drop n ps)

-- Entries that are dropped move the start.
Holds-drop :
    (i start : ℕ) (ring : LagBuf) (ps : List ℕ) (lag : Lag) (result : Option (ℕ × Lag))
    → (h : Holds i start ring ps) → Scanned i h.t h.n ps lag result
    → (start' : ℕ) × (result ≡ some (start', position_scores i ps lag)) × Holds i start' ring ps
Holds-drop i start ring ps lag result h s =
    let all = s.all in
    let small = h.small in
    let ends = h.ends in
    (
      (h.t + s.dropped) % 256,
      s.scanned,
      record {
        t = h.t + s.dropped;
        n = s.kept;
        small = omega arith;
        starts = refl;
        ends = omega arith;
        stored =
            Stored-drop ring.buf h.t (h.t + s.dropped) s.dropped h.n s.kept ps refl all h.stored;
        old = s.old;
      },
    )

scan_or_not :
    (i : ℕ) (ring : LagBuf) (ps : List ℕ) (lag : Lag) (t n : ℕ)
    → AllBelow i ps
    → Descends ps
    → n ≤ 128
    → ring.start ≡ t % 256
    → ring.end ≡ (t + n) % 256
    → Stored ring.buf t n ps
    → AllBelow (i - 128) (drop n ps)
    → Scanned i t n ps lag (update_ring i ring lag)
unfolding update_ring
scan_or_not i ring ps lag t zero below desc small starts ends stored old =
    let empty : (ring.start == ring.end) ≡ true = ground arith in
    rw empty (Scanned-last i t ring.start ps lag old starts)
scan_or_not i ring ps lag t (suc n) below desc small starts ends stored old =
    let entries : (ring.start == ring.end) ≡ false = ground arith in
    rw entries (
      update_counters-Scanned 256 i t n ring ring.end ps lag (omega arith) (omega arith) ends starts
        below desc stored old)

pub update_ring_lem :
    (i : ℕ) (ring : LagBuf) (ps : List ℕ) (lag : Lag)
    → AllBelow i ps
    → Descends ps
    → Holds i ring.start ring ps
    → (start : ℕ) × (update_ring i ring lag ≡ some (start, position_scores i ps lag))
      × Holds i start ring ps
update_ring_lem i ring ps lag below desc h =
    Holds-drop i ring.start ring ps lag (update_ring i ring lag) h
      (scan_or_not i ring ps lag h.t h.n below desc h.small h.starts h.ends h.stored h.old)

-- The k-th position is at least k before the first.
drop-AllBelow : (b k : ℕ) (ps : List ℕ) → AllBelow b ps → Descends ps → AllBelow (b - k) (drop k ps)
drop-AllBelow b zero ps h d = AllBelow-le b (b - 0) ps (omega arith) h
drop-AllBelow b (suc k) [] h d = tt
drop-AllBelow b (suc k) (p ∷ ps) (h, hs) (d, ds) =
    AllBelow-le (p - k) (b - suc k) (drop k ps) (omega arith) (drop-AllBelow p k ps d ds)

-- The new entry, where the ring has room for it.
added :
    (i start : ℕ) (ring : LagBuf) (ps : List ℕ) (t n : ℕ)
    → n < 128
    → start ≡ t % 256
    → ring.end ≡ (t + n) % 256
    → Stored ring.buf t n ps
    → AllBelow (suc i - 128) (drop n ps)
    → Holds
        (suc i)
        start
        (record { start = start; end = u8 (ring.end + 1); buf = store (ring.end % 128) i ring.buf })
        (i ∷ ps)
added i start ring ps t n small starts ends stored old =
    let slot : ring.end % 128 ≡ (t + n) % 128 = omega arith in
    let here : ((t + n) % 128 == ring.end % 128) ≡ true = ground arith in
    record {
      t = t;
      n = suc n;
      small = omega arith;
      starts = starts;
      ends = omega arith;
      stored = (
        rw here refl,
        Stored-store ring.buf (ring.end % 128) i t n n ps slot (omega arith) small stored,
      );
      old = old;
    }

-- A new symbol: its ring holds one more position, at the cost of the oldest where it is full.
pub add_symbol_lem :
    (i start : ℕ) (ring : LagBuf) (ps : List ℕ)
    → AllBelow i ps
    → Descends ps
    → Holds i start ring ps
    → (ring' : LagBuf) × (add_symbol i start ring ≡ some ring')
      × Holds (suc i) ring'.start ring' (i ∷ ps)
unfolding add_symbol
add_symbol_lem i start ring ps below desc h =
    let small = h.small in
    let starts = h.starts in
    let ends = h.ends in
    let used : in_use start ring.end ≡ h.n = omega arith in
    elim (Bool-cases (h.n == 128)) [
      | inr e ↦
          let room : h.n < 128 = ground arith in
          let fits : leb (in_use start (u8 (ring.end + 1))) 128 ≡ true = ground arith in
          (
            _,
            rw (used, e, fits) refl,
            added i start ring ps h.t h.n room starts ends h.stored
                (AllBelow-le (i - 128) (suc i - 128) (drop h.n ps) (omega arith) h.old),
          )
      | inl e ↦
          let full : h.n ≡ 128 = ground arith in
          let start_at : u8 (start + 1) ≡ (h.t + 1) % 256 = omega arith in
          let end_at : u8 (ring.end + 1) ≡ (h.t + 129) % 256 = omega arith in
          let still : in_use (u8 (start + 1)) (u8 (ring.end + 1)) ≡ 128 = omega arith in
          let fits : leb (in_use (u8 (start + 1)) (u8 (ring.end + 1))) 128 ≡ true = rw still refl in
          (
            _,
            rw (used, e, fits) refl,
            added i (u8 (start + 1)) ring ps (h.t + 1) 127 (omega arith) (omega arith) (omega arith)
                (Stored-drop ring.buf h.t (h.t + 1) 1 h.n 127 ps refl full h.stored)
                (AllBelow-le (i - 127) (suc i - 128) (drop 127 ps) (omega arith)
                  (drop-AllBelow i 127 ps below desc)),
          )
    ]
