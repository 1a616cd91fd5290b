-- ===== src/Assess/Matrix/Largest.antt =====
-- The counters of the restart matrix: what one count keeps.
use native.Mathlib.Decide.{ℕ_discrete}
use mathlib.Core.Path.{subst}
use is_there_entropy_down_th.Common.{
  ℕ, zero, suc, ◌+◌, ◌≤◌, ◌<◌, ◌≡◌, ◌⊎◌, ◌∙◌, refl, ap, some, List, [], ◌∷◌, if◌then◌else◌, ltb,
  ◌==◌, length, set, get_elem?, get_or, AllBelow, inl, inr, arith, Bool-cases, length-set,
  length-replicate, get_or-set_self, get_or-set_ne, get_or-replicate,
}
use is_there_entropy_down_th.Assess.Matrix.{Tally, count, no_counts}

-- How often s is among g 0, ..., g (n-1).
unfoldable pub times : (g : ℕ → ℕ) → (n s : ℕ) → ℕ
times g zero s = 0
times g (suc n) s = (if g n == s then 1 else 0) + times g n s

-- The counters hold f, and x_i is the largest of them.
pub record Counts (f : ℕ → ℕ) (t : Tally) : Type 0 where
  pub size : length t.counts ≡ 256
  pub entries : (s : ℕ) → s < 256 → get_or t.counts s 0 ≡ f s
  pub upper : (s : ℕ) → s < 256 → f s ≤ t.x_i
  pub attained : (t.x_i ≡ 0) ⊎ (s : ℕ) × (f s ≡ t.x_i)

-- A read inside the array, with its value.
pub get_elem?-get_or :
    (xs : List ℕ) (k : ℕ)
    → AllBelow 256 xs
    → k < length xs
    → (get_elem? xs k ≡ some (get_or xs k 0)) × (get_or xs k 0 < 256)
get_elem?-get_or [] k h hk = absurd (omega arith)
get_elem?-get_or (x ∷ xs) zero (hx, h) hk = (refl, hx)
get_elem?-get_or (x ∷ xs) (suc k) (hx, h) hk = get_elem?-get_or xs k h (omega arith)

counter : (xs : List ℕ) (k : ℕ) → k < length xs → get_elem? xs k ≡ some (get_or xs k 0)
counter [] k h = absurd (omega arith)
counter (x ∷ xs) zero h = refl
counter (x ∷ xs) (suc k) h = counter xs k (omega arith)

pub count-Counts :
    (f : ℕ → ℕ) (x : ℕ) (t : Tally)
    → Counts f t
    → x < 256
    → (t' : Tally) × (count x t ≡ some t') × Counts (λ s. (if x == s then 1 else 0) + f s) t'
unfolding count
count-Counts f x t h hx =
    let n = get_or t.counts x 0 in
    let n_lem : n ≡ f x = h.entries x hx in
    let t' : Tally = record {
      counts = set t.counts x (suc n);
      x_i = if ltb t.x_i (suc n) then suc n else t.x_i;
    } in
    (
      t',
      rw (counter t.counts x (omega (arith, h.size))) refl,
      record {
        size = length-set t.counts x (suc n) ∙ h.size;
        entries = λ s hs. elim (ℕ_discrete x s) [
          | yes same ↦
              subst (λ u. get_or (set t.counts x (suc n)) u 0 ≡ (if x == u then 1 else 0) + f u)
                same
                (ground
                  (arith, get_or-set_self t.counts x (suc n) 0 (omega (arith, h.size)), n_lem))
          | no ne ↦ ground (arith, get_or-set_ne t.counts x s (suc n) 0 ne, h.entries s hs, ne)
        ];
        upper = λ s hs. elim (ℕ_discrete x s) [
          | yes same ↦
              subst (λ u. (if x == u then 1 else 0) + f u ≤ t'.x_i) same (ground (arith, n_lem))
          | no ne ↦ ground (arith, h.upper s hs, ne)
        ];
        attained = elim (Bool-cases (ltb t.x_i (suc n))) [
          | inl b ↦ inr (x, ground (arith, n_lem))
          | inr b ↦ elim h.attained [
            | inl e ↦ absurd (ground (arith, e))
            | inr (s, e) ↦ inr (
              s,
              elim (ℕ_discrete x s) [
                | yes same ↦ absurd (ground (arith, ap f same, e, n_lem, b))
                | no ne ↦ ground (arith, e, b, ne)
              ],
            )
          ]
        ];
      },
    )

pub no_counts-Counts : (g : ℕ → ℕ) → Counts (times g 0) no_counts
unfolding times
no_counts-Counts g = record {
  size = length-replicate 256 zero;
  entries = λ s hs. get_or-replicate 256 zero s;
  upper = λ s hs. omega arith;
  attained = inl refl;
}
