-- ===== src/Assess/Minimum.antt =====
-- cpp/restart_main.cpp and cpp/non_iid_main.cpp: the lowest of the results in a list of test cases.
use mathlib.Core.Path.{subst}
use is_there_entropy_down_th.Common.{
  ◌≡◌, ◌⊎◌, true, false, Option, none, some, List, [], ◌∷◌, ◌++◌, if◌then◌else◌, inl, inr,
  Bool-cases,
}
use is_there_entropy_down_th.Assess.Estimates.{Double}

-- `<` of doubles that are numbers.
pub record IsOrder (d : Double) : Type 0 where
  pub irreflexive : (x : d.Value) → d.less x x ≡ false
  pub asymmetric : (x y : d.Value) → d.less x y ≡ true → d.less y x ≡ false
  pub transitive : (x y z : d.Value) → d.less y x ≡ false → d.less z y ≡ false → d.less z x ≡ false

abbrev pub AtMost : (d : Double) → d.Value → d.Value → Type 0
AtMost d x y = d.less y x ≡ false

-- `std::min`
abbrev pub smaller : (d : Double) → d.Value → d.Value → d.Value
smaller d a b = if d.less b a then b else a

module _ (d : Double) (o : IsOrder d) where
  pub smaller_left : (a b : d.Value) → AtMost d (smaller d a b) a
  smaller_left a b = elim (Bool-cases (d.less b a)) [
    | inl e ↦ rw e (o.asymmetric b a e)
    | inr e ↦ rw e (o.irreflexive a)
  ]

  pub smaller_right : (a b : d.Value) → AtMost d (smaller d a b) b
  smaller_right a b = elim (Bool-cases (d.less b a)) [
    | inl e ↦ rw e (o.irreflexive b)
    | inr e ↦ rw e e
  ]

-- The result of a case on one side, where it has one.
abbrev pub Lists : {C : Type 0} (d : Double) → (C → Option d.Value) → d.Value → List C → Type 0
Lists d side v [] = ⊥
Lists d side v (c ∷ cases) = (side c ≡ some v) ⊎ Lists d side v cases

-- The height is at most each result in the cases, and is the limit or one of them.
pub record IsLowest {C : Type 0} (d : Double) (side : C → Option d.Value) (limit height : d.Value)
    (cases : List C) : Type 0 where
  pub lower : (v : d.Value) → Lists d side v cases → AtMost d height v
  pub bounded : AtMost d height limit
  pub attained : (height ≡ limit) ⊎ Lists d side height cases

module _ {C : Type 0} (d : Double) (side : C → Option d.Value) where
  Lists-append :
      (v : d.Value) (cases : List C) (c : C)
      → Lists d side v (cases ++ c ∷ [])
      → Lists d side v cases ⊎ (side c ≡ some v)
  Lists-append v [] c (inl e) = inr e
  Lists-append v [] c (inr none_left) = absurd none_left
  Lists-append v (x ∷ cases) c (inl e) = inl (inl e)
  Lists-append v (x ∷ cases) c (inr h) = elim (Lists-append v cases c h) [
    | inl k ↦ inl (inr k)
    | inr e ↦ inr e
  ]

  Lists-left :
      (v : d.Value) (cases : List C) (c : C)
      → Lists d side v cases
      → Lists d side v (cases ++ c ∷ [])
  Lists-left v [] c h = absurd h
  Lists-left v (x ∷ cases) c (inl e) = inl e
  Lists-left v (x ∷ cases) c (inr h) = inr (Lists-left v cases c h)

  Lists-right :
      (v : d.Value) (cases : List C) (c : C) → side c ≡ some v → Lists d side v (cases ++ c ∷ [])
  Lists-right v [] c e = inl e
  Lists-right v (x ∷ cases) c e = inr (Lists-right v cases c e)

  -- One more case, with a result that counts.
  pub with_result :
      (o : IsOrder d) (limit height result : d.Value) (cases : List C) (c : C)
      → IsLowest d side limit height cases
      → side c ≡ some result
      → IsLowest d side limit (smaller d result height) (cases ++ c ∷ [])
  with_result o limit height result cases c h e = record {
    lower = λ v l. elim (Lists-append v cases c l) [
      | inl k ↦
          o.transitive (smaller d result height) height v (smaller_right d o result height)
            (h.lower v k)
      | inr e' ↦
          let same : result ≡ v = cc in
          subst (λ u. AtMost d (smaller d result height) u) same (smaller_left d o result height)
    ];
    bounded =
        o.transitive (smaller d result height) height limit (smaller_right d o result height)
          h.bounded;
    attained = elim (Bool-cases (d.less height result)) [
      | inl b ↦ rw b (elim h.attained [ inl k ↦ inl k | inr l ↦ inr (Lists-left height cases c l) ])
      | inr b ↦ rw b (inr (Lists-right result cases c e))
    ];
  }

  pub without_result :
      (limit height : d.Value) (cases : List C) (c : C)
      → IsLowest d side limit height cases
      → side c ≡ none
      → IsLowest d side limit height (cases ++ c ∷ [])
  without_result limit height cases c h e = record {
    lower = λ v l. elim (Lists-append v cases c l) [ inl k ↦ h.lower v k | inr e' ↦ absurd cc ];
    bounded = h.bounded;
    attained = elim h.attained [ inl k ↦ inl k | inr l ↦ inr (Lists-left height cases c l) ];
  }
