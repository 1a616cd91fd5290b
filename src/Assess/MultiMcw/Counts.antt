-- ===== src/Assess/MultiMcw/Counts.antt =====
-- The counts and the last positions of a window, as it grows and as it moves on.
use mathlib.Core.Path.{subst}
use is_there_entropy_down_th.Common.{
  ℕ, zero, suc, ◌≡◌, ◌≢◌, ◌∙◌, ◌+◌, ◌-◌, ◌≤◌, refl, sym, ap, true, false, some, List, [], ◌∷◌,
  if◌then◌else◌, ◌==◌, length, take, Bool-cases, inl, inr, arith, get_elem?,
}
use is_there_entropy_down_th.Assess.Estimates.Mode.{occurrences}
use is_there_entropy_down_th.Assess.Lag.{store}

-- The position of the last occurrence, or 0 where there is none.
abbrev pub last_position : (symbol : ℕ) → (past : List ℕ) → ℕ
last_position symbol [] = 0
last_position symbol (x ∷ past) =
    let rest = last_position symbol past in if x == symbol then length past else rest

abbrev pub in_window : (before symbol : ℕ) → (past : List ℕ) → ℕ
in_window before symbol past = occurrences symbol (take (suc before) past)

take-short : (n : ℕ) (past : List ℕ) → length past ≤ n → take n past ≡ past
take-short zero [] h = refl
take-short zero (x ∷ past) h = absurd (omega arith)
take-short (suc n) [] h = refl
take-short (suc n) (x ∷ past) h = ap (λ ys. x ∷ ys) (take-short n past (omega arith))

take-last :
    (n s out : ℕ) (past : List ℕ)
    → get_elem? past n ≡ some out
    → occurrences s (take (suc n) past) ≡ occurrences s (take n past) + (if out == s then 1 else 0)
take-last n s out [] e = cc
take-last zero s out (x ∷ past) e = let same : x ≡ out = cc in rw same (omega arith)
take-last (suc n) s out (x ∷ past) e = let rest = take-last n s out past e in omega arith

-- A write of the count of x and of its position.
pub store_self : (x v : ℕ) (f : ℕ → ℕ) (s : ℕ) → x ≡ s → store x v f s ≡ v
store_self x v f s e = let t : (s == x) ≡ true = ground arith in rw t refl

pub store_ne : (x v : ℕ) (f : ℕ → ℕ) (s : ℕ) → x ≢ s → store x v f s ≡ f s
store_ne x v f s ne = let t : (s == x) ≡ false = ground arith in rw t refl

pub store-last_position :
    (x s : ℕ) (poses : ℕ → ℕ) (past : List ℕ)
    → poses s ≡ last_position s past
    → store x (length past) poses s ≡ last_position s (x ∷ past)
store-last_position x s poses past h = elim (Bool-cases (x == s)) [
  | inl e ↦ rw e (store_self x (length past) poses s (ground arith))
  | inr e ↦ rw e (store_ne x (length past) poses s (ground arith) ∙ h)
]

-- A symbol enters a window that is not full.
pub store-grown :
    (n x s : ℕ) (cnts : ℕ → ℕ) (past : List ℕ)
    → length past ≤ n
    → ((k : ℕ) → cnts k ≡ in_window n k past)
    → store x (suc (cnts x)) cnts s ≡ in_window n s (x ∷ past)
store-grown n x s cnts past h counted =
    let short = take-short n past h in
    let long = take-short (suc n) past (omega arith) in
    let count : cnts s ≡ occurrences s past = counted s ∙ ap (occurrences s) long in
    rw short (elim (Bool-cases (x == s)) [
      | inl e ↦
          let same : x ≡ s = ground arith in
          let grown : suc (cnts x) ≡ 1 + occurrences s past =
            subst (λ y. suc (cnts y) ≡ 1 + occurrences s past) (sym same) (omega arith) in
          rw e (store_self x (suc (cnts x)) cnts s same ∙ grown)
      | inr e ↦
          let added : cnts s ≡ 0 + occurrences s past = omega arith in
          rw e (store_ne x (suc (cnts x)) cnts s (ground arith) ∙ added)
    ])

-- A symbol leaves a full window.
store-fewer :
    (n out s : ℕ) (cnts : ℕ → ℕ) (past : List ℕ)
    → get_elem? past n ≡ some out
    → ((k : ℕ) → cnts k ≡ in_window n k past)
    → store out (cnts out - 1) cnts s ≡ occurrences s (take n past)
store-fewer n out s cnts past known counted =
    let count : cnts s ≡ occurrences s (take n past) + (if out == s then 1 else 0) =
      counted s ∙ take-last n s out past known in
    elim (Bool-cases (out == s)) [
      | inl e ↦
          let same : out ≡ s = ground arith in
          let count' : cnts s ≡ occurrences s (take n past) + 1 = rw e at count in
          let less : cnts out - 1 ≡ occurrences s (take n past) =
            subst (λ y. cnts y - 1 ≡ occurrences s (take n past)) (sym same) (omega arith) in
          store_self out (cnts out - 1) cnts s same ∙ less
      | inr e ↦
          let count' : cnts s ≡ occurrences s (take n past) + 0 = rw e at count in
          let kept : cnts s ≡ occurrences s (take n past) = omega arith in
          store_ne out (cnts out - 1) cnts s (ground arith) ∙ kept
    ]

-- And the next one enters it.
pub store-moved :
    (n out x s : ℕ) (cnts : ℕ → ℕ) (past : List ℕ)
    → get_elem? past n ≡ some out
    → ((k : ℕ) → cnts k ≡ in_window n k past)
    → store x (suc (store out (cnts out - 1) cnts x)) (store out (cnts out - 1) cnts) s
      ≡ in_window n s (x ∷ past)
store-moved n out x s cnts past known counted =
    let fewer : ℕ → ℕ = store out (cnts out - 1) cnts in
    let rest = λ (k : ℕ). store-fewer n out k cnts past known counted in
    elim (Bool-cases (x == s)) [
      | inl e ↦
          let same : x ≡ s = ground arith in
          let grown : suc (fewer x) ≡ 1 + occurrences s (take n past) =
            subst (λ y. suc (fewer y) ≡ 1 + occurrences s (take n past)) (sym same)
              (ap suc (rest s) ∙ omega arith) in
          rw e (store_self x (suc (fewer x)) fewer s same ∙ grown)
      | inr e ↦
          let added : occurrences s (take n past) ≡ 0 + occurrences s (take n past) = omega arith in
          rw e (store_ne x (suc (fewer x)) fewer s (ground arith) ∙ rest s ∙ added)
    ]

-- Where a symbol is last.
pub last_position-le : (s : ℕ) (past : List ℕ) → last_position s past ≤ length past
last_position-le s [] = omega arith
last_position-le s (x ∷ past) =
    let rest = last_position-le s past in
    elim (Bool-cases (x == s)) [ inl e ↦ rw e (omega arith) | inr e ↦ rw e (omega arith) ]

pub get_elem?-last_position :
    (n out : ℕ) (past : List ℕ)
    → get_elem? past n ≡ some out
    → length past - suc n ≤ last_position out past
get_elem?-last_position n out [] e = cc
get_elem?-last_position zero out (x ∷ past) e =
    let same : (x == out) ≡ true = ground arith in rw same (omega arith)
get_elem?-last_position (suc n) out (x ∷ past) e =
    let rest = get_elem?-last_position n out past e in
    elim (Bool-cases (x == out)) [ inl e' ↦ rw e' (omega arith) | inr e' ↦ rw e' (omega arith) ]
