-- ===== src/Assess/Postfix/Best.antt =====
-- A dictionary predicts the most frequent symbol, the largest one where several are.
use native.Mathlib.Decide.{ℕ_discrete}
use mathlib.Core.Path.{subst}
use is_there_entropy_down_th.Common.{
  ℕ, suc, ◌+◌, ◌≤◌, ◌<◌, ◌≡◌, ◌≢◌, ◌⊎◌, ◌∙◌, refl, sym, ap, Bool, true, false, Option, none, some,
  List, [], ◌∷◌, if◌then◌else◌, ◌==◌, inl, inr, arith, Bool-cases, Option-cases,
}
use is_there_entropy_down_th.Assess.Postfix.{
  find, put, PostfixDictionary, empty_dictionary, predict, beats, record_count, increment_postfix,
}
use is_there_entropy_down_th.Assess.Estimates.Mode.{occurrences}

-- The count of a symbol, 0 where the map has none.
abbrev pub or_zero : Option ℕ → ℕ
or_zero none = 0
or_zero (some n) = n

abbrev pub count_of : PostfixDictionary → ℕ → ℕ
count_of d s = or_zero (find s d.postfixes)

-- `best` is the largest of the counts f, and `prediction` the largest symbol that has it.
abbrev pub Best : (f : ℕ → ℕ) → (best prediction : ℕ) → Type 0
Best f best prediction =
    ((s : ℕ) → f s ≤ best)
    × (f prediction ≡ best)
    × ((s : ℕ) → f s ≡ best → (best ≡ 0) ⊎ (s ≤ prediction))

find-put_self : (key n : ℕ) (es : List (ℕ × ℕ)) → find key (put key n es) ≡ some n
find-put_self key n [] = ground arith
find-put_self key n ((k, m) ∷ es) = ground (arith, find-put_self key n es)

find-put_ne :
    (key other n : ℕ) (es : List (ℕ × ℕ)) → key ≢ other → find other (put key n es) ≡ find other es
find-put_ne key other n [] ne = ground (arith, ne)
find-put_ne key other n ((k, m) ∷ es) ne = ground (arith, ne, find-put_ne key other n es ne)

-- One more symbol is counted.
counted :
    (symbol s : ℕ) (es : List (ℕ × ℕ))
    → or_zero (find s (put symbol (suc (or_zero (find symbol es))) es))
      ≡ (if symbol == s then 1 else 0) + or_zero (find s es)
counted symbol s es = elim (ℕ_discrete symbol s) [
  | yes same ↦
      subst
        (λ u.
          or_zero (find u (put symbol (suc (or_zero (find symbol es))) es))
          ≡ (if symbol == u then 1 else 0) + or_zero (find u es))
        same (ap or_zero (find-put_self symbol (suc (or_zero (find symbol es))) es) ∙ ground arith)
  | no ne ↦
      ap or_zero (find-put_ne symbol s (suc (or_zero (find symbol es))) es ne) ∙ ground (arith, ne)
]

-- The three facts for counts f that were g, with one more of a symbol.
record Counted (symbol : ℕ) (f g : ℕ → ℕ) : Type 0 where
  here : f symbol ≡ suc (g symbol)
  others : (s : ℕ) → symbol ≢ s → f s ≡ g s

beaten :
    (symbol : ℕ) (f g : ℕ → ℕ) (best prediction : ℕ)
    → Counted symbol f g
    → Best g best prediction
    → (best < suc (g symbol)) ⊎ ((suc (g symbol) ≡ best) × (prediction < symbol))
    → Best f (suc (g symbol)) symbol
beaten symbol f g best prediction c (upper, attained, largest) why = (
  λ s. elim (ℕ_discrete symbol s) [
    | yes same ↦ subst (λ u. f u ≤ suc (g symbol)) same (omega (arith, c.here))
    | no ne ↦ ground (arith, upper s, c.others s ne, why)
  ],
  c.here,
  λ s e. elim (ℕ_discrete symbol s) [
    | yes same ↦ inr (omega (arith, same))
    | no ne ↦ ground (arith, upper s, c.others s ne, largest s, why)
  ],
)

kept :
    (symbol : ℕ) (f g : ℕ → ℕ) (best prediction : ℕ)
    → Counted symbol f g
    → Best g best prediction
    → suc (g symbol) ≤ best
    → (suc (g symbol) < best) ⊎ (symbol ≤ prediction)
    → Best f best prediction
kept symbol f g best prediction c (upper, attained, largest) below why = (
  λ s. elim (ℕ_discrete symbol s) [
    | yes same ↦ subst (λ u. f u ≤ best) same (omega (arith, c.here))
    | no ne ↦ omega (arith, upper s, c.others s ne)
  ],
  elim (ℕ_discrete symbol prediction) [
    | yes same ↦ absurd (omega (arith, ap g same, attained))
    | no ne ↦ c.others prediction ne ∙ attained
  ],
  λ s e. elim (ℕ_discrete symbol s) [
    | yes same ↦ inr (ground (arith, ap f same, c.here, e, same, why))
    | no ne ↦ largest s (sym (c.others s ne) ∙ e)
  ],
)

abbrev IsBest : PostfixDictionary → Type 0
IsBest d = Best (count_of d) d.cur_best d.cur_prediction

record_count-IsBest :
    (symbol n : ℕ) (d : PostfixDictionary)
    → count_of d symbol ≡ n
    → IsBest d
    → IsBest (record_count symbol (suc n) d)
      × Counted symbol (count_of (record_count symbol (suc n) d)) (count_of d)
unfolding record_count
record_count-IsBest symbol n d e h =
    let after = count_of (record_count symbol (suc n) d) in
    let c : Counted symbol after (count_of d) = record {
      here = ap or_zero (find-put_self symbol (suc n) d.postfixes) ∙ ap suc (sym e);
      others = λ s ne. ap or_zero (find-put_ne symbol s (suc n) d.postfixes ne);
    } in
    (
      elim (Bool-cases (beats symbol (suc n) d)) [
        | inl b ↦ rw b (
            subst (λ k. Best after (suc k) symbol) e
              (beaten symbol after (count_of d) d.cur_best d.cur_prediction c h
                (ground (arith, e, b))))
        | inr b ↦ rw b (
            kept symbol after (count_of d) d.cur_best d.cur_prediction c h (ground (arith, e, b))
              (ground (arith, e, b)))
      ],
      c,
    )

-- A new symbol gets an entry only where that is allowed; all else is counted.
increment_postfix-IsBest :
    (symbol : ℕ) (make_new : Bool) (d : PostfixDictionary)
    → IsBest d
    → IsBest (increment_postfix symbol make_new d).1
      × (((increment_postfix symbol make_new d).1 ≡ d) × (make_new ≡ false)
          ⊎ Counted symbol (count_of (increment_postfix symbol make_new d).1) (count_of d))
unfolding increment_postfix
increment_postfix-IsBest symbol make_new d h = elim (Option-cases (find symbol d.postfixes)) [
  | inr (n, e) ↦
      let (best, c) = record_count-IsBest symbol n d (ap or_zero e) h in
      rw (e, increment_postfix) (best, inr c)
  | inl e ↦ elim (Bool-cases make_new) [
    | inl b ↦
        let (best, c) = record_count-IsBest symbol 0 d (ap or_zero e) h in
        rw (e, increment_postfix) (rw b (best, inr c))
    | inr b ↦ rw (e, increment_postfix) (rw b (h, inl (refl, refl)))
  ]
]

-- The dictionary after the symbols, each allowed an entry.
abbrev pub count_all : List ℕ → PostfixDictionary → PostfixDictionary
count_all [] d = d
count_all (x ∷ symbols) d = count_all symbols (increment_postfix x true d).1

count_all-IsBest :
    (symbols : List ℕ) (d : PostfixDictionary)
    → IsBest d
    → IsBest (count_all symbols d)
      × ((s : ℕ) → count_of (count_all symbols d) s ≡ occurrences s symbols + count_of d s)
count_all-IsBest [] d h = (h, λ s. omega arith)
count_all-IsBest (x ∷ symbols) d h =
    let (best, how) = increment_postfix-IsBest x true d h in
    let (best', counts) = count_all-IsBest symbols (increment_postfix x true d).1 best in
    let c : Counted x (count_of (increment_postfix x true d).1) (count_of d) = elim how [
      | inl (same, no_entry) ↦ cc
      | inr c ↦ c
    ] in
    (
      best',
      λ s. elim (ℕ_discrete x s) [
        | yes same ↦
            subst
              (λ u.
                count_of (count_all symbols (increment_postfix x true d).1) u
                ≡ (if x == u then 1 else 0) + occurrences u symbols + count_of d u)
              same (ground (arith, counts x, c.here))
        | no ne ↦ ground (arith, counts s, c.others s ne, ne)
      ],
    )

-- After any symbols, each allowed an entry, the dictionary predicts one that occurs most often, with
-- that number, and the largest such symbol.
pub predict-occurrences :
    (x : ℕ) (symbols : List ℕ)
    → (n : ℕ) × (p : ℕ) × (predict (count_all (x ∷ symbols) empty_dictionary) ≡ some (n, p))
      × (occurrences p (x ∷ symbols) ≡ n)
      × ((s : ℕ) → occurrences s (x ∷ symbols) ≤ n)
      × ((s : ℕ) → occurrences s (x ∷ symbols) ≡ n → s ≤ p)
unfolding predict empty_dictionary
predict-occurrences x symbols =
    let start : IsBest empty_dictionary = (λ s. omega arith, refl, λ s e. inl refl) in
    let ((upper, attained, largest), counts) =
      count_all-IsBest (x ∷ symbols) empty_dictionary start in
    let d = count_all (x ∷ symbols) empty_dictionary in
    let seen : 0 < d.cur_best = ground (arith, counts x, upper x) in
    let same : (s : ℕ) → occurrences s (x ∷ symbols) ≡ count_of d s =
      λ s. omega (arith, counts s) in
    (
      d.cur_best,
      d.cur_prediction,
      ground arith,
      same d.cur_prediction ∙ attained,
      λ s. omega (arith, same s, upper s),
      λ s e. elim (largest s (sym (same s) ∙ e)) [ inl z ↦ absurd (omega arith) | inr l ↦ l ],
    )
