-- ===== src/Assess/Zeros.antt =====
-- A long run of equal samples, for runs of the programs in cpp/ that want a whole file.
use is_there_entropy_down_th.Common.{
  ℕ, zero, suc, ◌<◌, ◌≡◌, refl, List, [], ◌∷◌, length, AllBelow, arith,
}

pub zeros : ℕ → List ℕ
zeros zero = []
zeros (suc n) = 0 ∷ zeros n

pub length-zeros : (n : ℕ) → length (zeros n) ≡ n
unfolding zeros
length-zeros zero = refl
length-zeros (suc n) = omega (arith, length-zeros n)

pub zeros-AllBelow : (k n : ℕ) → 0 < k → AllBelow k (zeros n)
unfolding zeros
zeros-AllBelow k zero h = tt
zeros-AllBelow k (suc n) h = (h, zeros-AllBelow k n h)
