-- ===== src/Assess/Lag/Ring.antt =====
-- A ring buffer holds the last positions of its symbol, and `update_counters` scores them down to the
-- first that is too far away.
use mathlib.Core.Path.{subst}
use is_there_entropy_down_th.Common.{
  ℕ, zero, suc, ◌≡◌, ◌∙◌, ◌+◌, ◌-◌, ◌%◌, ◌<◌, ◌≤◌, refl, ap, true, false, Option, some, List, [],
  ◌∷◌, if◌then◌else◌, ltb, leb, ◌==◌, ◌&&◌, drop, AllBelow, Bool-cases, inl, inr, arith,
}
use is_there_entropy_down_th.Common.Words.{u8}
use is_there_entropy_down_th.Assess.Lag.{LagBuf, Lag, store, score, update_counters}
use is_there_entropy_down_th.Assess.Lag.Direct.{
  Descends, AllBelow-le, position_scores, position_scores-old,
}

-- The first n positions are in the n entries from t on, the last one first.
abbrev pub Stored : (buf : ℕ → ℕ) → (t n : ℕ) → List ℕ → Type 0
Stored buf t zero ps = Unit
Stored buf t (suc n) [] = ⊥
Stored buf t (suc n) (p ∷ ps) = (buf ((t + n) % 128) ≡ p) × Stored buf t n ps

-- The oldest entries are left out.
pub Stored-drop :
    (buf : ℕ → ℕ) (t t' r n n' : ℕ) (ps : List ℕ)
    → t' ≡ t + r
    → n ≡ r + n'
    → Stored buf t n ps
    → Stored buf t' n' ps
Stored-drop buf t t' r n zero ps e e' h = tt
Stored-drop buf t t' r zero (suc n') ps e e' h = absurd (omega arith)
Stored-drop buf t t' r (suc n) (suc n') [] e e' h = h
Stored-drop buf t t' r (suc n) (suc n') (p ∷ ps) e e' (h, hs) =
    let same : t + n ≡ t' + n' = omega arith in
    (subst (λ j. buf (j % 128) ≡ p) same h, Stored-drop buf t t' r n n' ps e (omega arith) hs)

-- A write behind the entries.
pub Stored-store :
    (buf : ℕ → ℕ) (slot i t n m : ℕ) (ps : List ℕ)
    → slot ≡ (t + m) % 128
    → n ≤ m
    → m < 128
    → Stored buf t n ps
    → Stored (store slot i buf) t n ps
Stored-store buf slot i t zero m ps e le h k = tt
Stored-store buf slot i t (suc n) m [] e le h k = k
Stored-store buf slot i t (suc n) m (p ∷ ps) e le h (k, ks) =
    let other : ((t + n) % 128 == slot) ≡ false = ground arith in
    (rw other k, Stored-store buf slot i t n m ps e (omega arith) h ks)

-- The result of the loop over n entries from t on: some of them are kept, and the other positions are
-- too far away.
pub record Scanned (i t n : ℕ) (ps : List ℕ) (lag : Lag) (result : Option (ℕ × Lag)) : Type 0 where
  pub dropped : ℕ
  pub kept : ℕ
  pub all : n ≡ dropped + kept
  pub old : AllBelow (i - 128) (drop kept ps)
  pub scanned : result ≡ some ((t + dropped) % 256, position_scores i ps lag)

-- A near position, and the scan of the others.
Scanned-near :
    (i t n p : ℕ) (ps : List ℕ) (lag : Lag) (result : Option (ℕ × Lag))
    → leb (i - 128) p ≡ true
    → Scanned i t n ps (score (i - p - 1) lag) result
    → Scanned i t (suc n) (p ∷ ps) lag result
Scanned-near i t n p ps lag result near s = record {
  dropped = s.dropped;
  kept = suc s.kept;
  all = omega arith;
  old = s.old;
  scanned = rw near s.scanned;
}

Scanned-far :
    (i t n p : ℕ) (ps : List ℕ) (lag : Lag) (start : ℕ)
    → leb (i - 128) p ≡ false
    → AllBelow p ps
    → start ≡ (t + n) % 256
    → Scanned i t n (p ∷ ps) lag (some (start, lag))
Scanned-far i t n p ps lag start far below e = record {
  dropped = n;
  kept = 0;
  all = omega arith;
  old =
      let p_old : p < i - 128 = ground arith in
      (p_old, AllBelow-le p (i - 128) ps (omega arith) below);
  scanned = rw (far, e) refl;
}

pub Scanned-last :
    (i t start : ℕ) (ps : List ℕ) (lag : Lag)
    → AllBelow (i - 128) ps
    → start ≡ t % 256
    → Scanned i t 0 ps lag (some (start, lag))
Scanned-last i t start ps lag old e = record {
  dropped = 0;
  kept = 0;
  all = refl;
  old = old;
  scanned =
      let same : start ≡ (t + 0) % 256 = omega arith in
      rw (position_scores-old i ps lag old, same) refl;
}

-- One round of the loop at the n-th entry, whatever comes behind it.
round-Scanned :
    (fuel i t n : ℕ) (ring : LagBuf) (counter p : ℕ) (ps : List ℕ) (lag : Lag)
    → counter ≡ (t + suc n) % 256
    → p < i
    → AllBelow p ps
    → ring.buf ((t + n) % 128) ≡ p
    → Scanned i t n ps (score (i - p - 1) lag) (
        if u8 (counter + 255) == ring.start
        then some (ring.start, score (i - p - 1) lag)
        else update_counters fuel i ring (u8 (counter + 255)) (score (i - p - 1) lag))
    → Scanned i t (suc n) (p ∷ ps) lag (update_counters (suc fuel) i ring counter lag)
unfolding update_counters
round-Scanned fuel i t n ring counter p ps lag e b below at rest =
    let mask : u8 (counter + 255) % 128 ≡ (t + n) % 128 = omega arith in
    let entry : ring.buf (u8 (counter + 255) % 128) ≡ p = ap ring.buf mask ∙ at in
    rw entry (elim (Bool-cases (leb (i - 128) p)) [
      | inr far ↦ rw far (Scanned-far i t (suc n) p ps lag _ far below (omega arith))
      | inl near ↦
          let in_range : (ltb p i && ltb (i - p - 1) 128) ≡ true = ground arith in
          rw (near, in_range) (Scanned-near i t n p ps lag _ near rest)
    ])

-- The loop over the entries of a ring ends, and scores the positions of the symbol.
pub update_counters-Scanned :
    (fuel i t n : ℕ) (ring : LagBuf) (counter : ℕ) (ps : List ℕ) (lag : Lag)
    → suc n ≤ fuel
    → n < 128
    → counter ≡ (t + suc n) % 256
    → ring.start ≡ t % 256
    → AllBelow i ps
    → Descends ps
    → Stored ring.buf t (suc n) ps
    → AllBelow (i - 128) (drop (suc n) ps)
    → Scanned i t (suc n) ps lag (update_counters fuel i ring counter lag)
update_counters-Scanned zero i t n ring counter ps lag le h e e' below desc stored old =
    absurd (omega arith)
update_counters-Scanned (suc fuel) i t n ring counter [] lag le h e e' below desc stored old =
    absurd stored
update_counters-Scanned (suc fuel) i t zero ring counter (p ∷ ps) lag le h e e' (b, below) (d, desc)
      (at, stored) old =
    let last : (u8 (counter + 255) == ring.start) ≡ true = ground arith in
    round-Scanned fuel i t 0 ring counter p ps lag e b d at
      (rw last (Scanned-last i t ring.start ps (score (i - p - 1) lag) old e'))
update_counters-Scanned (suc fuel) i t (suc n) ring counter (p ∷ ps) lag le h e e' (b, below)
      (d, desc) (at, stored) old =
    let more : (u8 (counter + 255) == ring.start) ≡ false = ground arith in
    round-Scanned fuel i t (suc n) ring counter p ps lag e b d at (
      rw more (
        update_counters-Scanned fuel i t n ring (u8 (counter + 255)) ps (score (i - p - 1) lag)
          (omega arith) (omega arith) (omega arith) e' below desc stored old))
