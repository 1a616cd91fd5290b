-- ===== src/Assess/Estimates/WaitTimes.antt =====
-- The sums of the collision estimate against the pieces into which the samples divide.
use mathlib.Core.Path.{ap₂}
use is_there_entropy_down_th.Common.{
  ℕ, ◌+◌, ◌*◌, ◌≡◌, ◌≢◌, refl, ap, true, false, List, [], ◌∷◌, ◌++◌, ◌==◌, length, Bool-cases, inl,
  inr, arith,
}
use is_there_entropy_down_th.Assess.Estimates.{WaitSums, wait, wait_times}

-- A collision after two symbols or, with three, when the first two differ.
pub data Piece : Type 0 where
  two_same : (x : ℕ) → Piece
  three : (x y z : ℕ) → x ≢ y → Piece

abbrev pub symbols : Piece → List ℕ
symbols (two_same x) = x ∷ x ∷ []
symbols (three x y z _) = x ∷ y ∷ z ∷ []

abbrev pub all_symbols : List Piece → List ℕ
all_symbols [] = []
all_symbols (p ∷ ps) = symbols p ++ all_symbols ps

abbrev pub squares : List Piece → ℕ
squares [] = 0
squares (p ∷ ps) = length (symbols p) * length (symbols p) + squares ps

-- No collision is left: fewer than two symbols, or two that differ.
abbrev pub NoCollision : List ℕ → Type 0
NoCollision [] = Unit
NoCollision (x ∷ []) = Unit
NoCollision (x ∷ y ∷ []) = x ≢ y
NoCollision (x ∷ y ∷ z ∷ rest) = ⊥

-- The sums after the samples, from the sums before.
pub record Divides (samples : List ℕ) (w w' : WaitSums) : Type 0 where
  pub pieces : List Piece
  pub left : List ℕ
  pub parts : samples ≡ all_symbols pieces ++ left
  pub none_left : NoCollision left
  pub v : w'.v ≡ w.v + length pieces
  pub i : w'.i ≡ w.i + length (all_symbols pieces)
  pub s : w'.s ≡ w.s + squares pieces

stays : (left : List ℕ) (w : WaitSums) → NoCollision left → Divides left w w
stays left w h = record {
  pieces = [];
  left = left;
  parts = refl;
  none_left = h;
  v = omega arith;
  i = omega arith;
  s = omega arith;
}

two_more :
    {x y : ℕ} {samples : List ℕ} {w w' : WaitSums}
    → (x == y) ≡ true
    → Divides samples (wait 2 w) w'
    → Divides (x ∷ y ∷ samples) w w'
two_more {x} {y} {samples} e d =
    let same : y ≡ x = ground arith in
    record {
      pieces = two_same x ∷ d.pieces;
      left = d.left;
      parts = ap₂ (λ u l. x ∷ u ∷ l) same d.parts;
      none_left = d.none_left;
      v = omega (arith, d.v);
      i = omega (arith, d.i);
      s = omega (arith, d.s);
    }

three_more :
    {x y z : ℕ} {samples : List ℕ} {w w' : WaitSums}
    → (x == y) ≡ false
    → Divides samples (wait 3 w) w'
    → Divides (x ∷ y ∷ z ∷ samples) w w'
three_more {x} {y} {z} e d =
    let differ : x ≢ y = ground arith in
    record {
      pieces = three x y z differ ∷ d.pieces;
      left = d.left;
      parts = ap (λ l. x ∷ y ∷ z ∷ l) d.parts;
      none_left = d.none_left;
      v = omega (arith, d.v);
      i = omega (arith, d.i);
      s = omega (arith, d.s);
    }

-- The samples divide into pieces that end with a collision, of two symbols or three, and a rest with
-- none; v is the number of pieces, i their symbols, and s the sum of the squares of their sizes.
pub wait_times-Divides :
    (samples : List ℕ) (w : WaitSums) → Divides samples w (wait_times samples w)
unfolding wait_times
wait_times-Divides [] w = stays [] w tt
wait_times-Divides (x ∷ []) w = stays (x ∷ []) w tt
wait_times-Divides (x ∷ y ∷ []) w = elim (Bool-cases (x == y)) [
  | inl e ↦ rw e (two_more e (stays [] (wait 2 w) tt))
  | inr e ↦ rw e (stays (x ∷ y ∷ []) w (ground arith))
]
wait_times-Divides (x ∷ y ∷ z ∷ samples) w = elim (Bool-cases (x == y)) [
  | inl e ↦ rw (e, wait_times) (two_more e (wait_times-Divides (z ∷ samples) (wait 2 w)))
  | inr e ↦ rw (e, wait_times) (three_more e (wait_times-Divides samples (wait 3 w)))
]
