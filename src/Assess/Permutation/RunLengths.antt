-- ===== src/Assess/Permutation/RunLengths.antt =====
-- Runs: the statistics on a sequence against its division into runs.
use mathlib.Core.Path.{subst}
use is_there_entropy_down_th.Common.{
  ℕ, zero, suc, ◌+◌, ◌≤◌, ◌≡◌, ◌∙◌, refl, sym, ap, true, false, List, [], ◌∷◌, ◌++◌, length,
  replicate, Bool-cases, inl, inr, arith,
}
use is_there_entropy_down_th.Common.Words.{Signed, plus, minus}
use is_there_entropy_down_th.Assess.Permutation.{
  int_eq, runs_from, num_directional_runs, larger, len_from, len_directional_runs,
}

-- A run is a value and how often it stands there in a row.
abbrev pub Run : Type 0
Run = Signed × ℕ

abbrev pub expand : List Run → List Signed
expand [] = []
expand ((x, n) ∷ rs) = replicate n x ++ expand rs

-- No run is empty, and one differs from the next: the runs cannot be longer.
abbrev pub Maximal : List Run → Type 0
Maximal [] = Unit
Maximal ((x, n) ∷ []) = 1 ≤ n
Maximal ((x, n) ∷ (y, m) ∷ rs) = (1 ≤ n) × (int_eq y x ≡ false) × Maximal ((y, m) ∷ rs)

abbrev pub longest : List Run → ℕ
longest [] = 0
longest ((x, n) ∷ rs) = larger n (longest rs)

int_eq-≡ : (x y : Signed) → int_eq x y ≡ true → x ≡ y
int_eq-≡ (plus m) (plus n) e = ap plus (ground arith)
int_eq-≡ (minus m) (minus n) e = ap minus (ground arith)
int_eq-≡ (plus m) (minus n) e = cc
int_eq-≡ (minus m) (plus n) e = cc

-- The runs of a sequence that begins with `run` times x.
record IsDivided (max_run run : ℕ) (x : Signed) (seq : List Signed) : Type 0 where
  count : ℕ
  rest : List Run
  parts : expand ((x, count) ∷ rest) ≡ replicate run x ++ seq
  maximal : Maximal ((x, count) ∷ rest)
  runs : (num : ℕ) → runs_from num x seq ≡ num + length rest
  len : len_from max_run run x seq ≡ larger max_run (longest ((x, count) ∷ rest))

larger_assoc : (a b c : ℕ) → larger (larger a b) c ≡ larger a (larger b c)
larger_assoc a b c = ground arith

larger_from_one : (n : ℕ) → 1 ≤ n → larger 0 n ≡ larger 1 n
larger_from_one n h = ground arith

longest_pos :
    (x : Signed) (n : ℕ) (rs : List Run) → Maximal ((x, n) ∷ rs) → 1 ≤ longest ((x, n) ∷ rs)
longest_pos x n [] h = ground arith
longest_pos x n ((y, m) ∷ rs) (h, _, hs) = ground arith

replicate-cons :
    (n : ℕ) (x : Signed) (seq : List Signed) → replicate n x ++ x ∷ seq ≡ replicate (suc n) x ++ seq
replicate-cons zero x seq = refl
replicate-cons (suc n) x seq = ap (λ l. x ∷ l) (replicate-cons n x seq)

divide_same :
    {max_run run : ℕ} {x : Signed} {seq : List Signed}
    → IsDivided max_run (suc run) x seq
    → int_eq x x ≡ true
    → IsDivided max_run run x (x ∷ seq)
divide_same {run = run} {x = x} {seq = seq} d e = record {
  count = d.count;
  rest = d.rest;
  parts = d.parts ∙ sym (replicate-cons run x seq);
  maximal = d.maximal;
  runs = λ num. rw e (d.runs num);
  len = rw e d.len;
}

divide_other :
    {max_run run : ℕ} {x y : Signed} {seq : List Signed}
    → IsDivided (larger max_run run) 1 y seq
    → 1 ≤ run
    → int_eq y x ≡ false
    → IsDivided max_run run x (y ∷ seq)
divide_other {max_run} {run} {x} {y} {seq} d pos e = record {
  count = run;
  rest = (y, d.count) ∷ d.rest;
  parts = ap (λ l. replicate run x ++ l) d.parts;
  maximal = (pos, e, d.maximal);
  runs = λ num. rw e (d.runs (suc num) ∙ omega arith);
  len = rw e (d.len ∙ larger_assoc max_run run _);
}

int_eq_refl : (x : Signed) → int_eq x x ≡ true
int_eq_refl (plus n) = ground arith
int_eq_refl (minus n) = ground arith

divide : (max_run run : ℕ) (x : Signed) (seq : List Signed) → 1 ≤ run → IsDivided max_run run x seq
divide max_run run x [] pos = record {
  count = run;
  rest = [];
  parts = refl;
  maximal = pos;
  runs = λ num. omega arith;
  len = ap (larger max_run) (ground arith);
}
divide max_run run x (y ∷ seq) pos = elim (Bool-cases (int_eq y x)) [
  | inl e ↦
      subst (λ z. IsDivided max_run run x (z ∷ seq)) (sym (int_eq-≡ y x e))
        (divide_same (divide max_run (suc run) x seq (omega arith)) (int_eq_refl x))
  | inr e ↦ divide_other (divide (larger max_run run) 1 y seq (omega arith)) pos e
]

-- A sequence divides into maximal runs. The first statistic is their number, and the second the
-- longest's length, or 1 if there are none.
pub directional_runs_lem :
    (seq : List Signed)
    → (rs : List Run) × (expand rs ≡ seq)
      × Maximal rs
      × (num_directional_runs seq ≡ length rs)
      × (len_directional_runs seq ≡ larger 1 (longest rs))
unfolding num_directional_runs len_directional_runs
directional_runs_lem [] = ([], refl, tt, refl, refl)
directional_runs_lem (x ∷ seq) =
    let d = divide 0 1 x seq (omega arith) in
    (
      (x, d.count) ∷ d.rest,
      d.parts,
      d.maximal,
      d.runs 1 ∙ omega arith,
      d.len ∙ larger_from_one _ (longest_pos x d.count d.rest d.maximal),
    )
