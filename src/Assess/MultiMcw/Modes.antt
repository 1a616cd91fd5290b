-- ===== src/Assess/MultiMcw/Modes.antt =====
-- What is frequent in a window is the most common value of its symbols, the latest where several are.
use mathlib.Core.Path.{subst}
use is_there_entropy_down_th.Common.{
  ℕ, zero, suc, ◌≡◌, ◌≢◌, ◌∙◌, ◌+◌, ◌<◌, ◌≤◌, ◌⊎◌, refl, sym, ap, true, false, ◌&&◌, ◌||◌, List,
  ◌∷◌, ltb, leb, ◌==◌, length, Bool-cases, inl, inr, arith,
}
use is_there_entropy_down_th.Assess.Lag.{store}
use is_there_entropy_down_th.Assess.MultiMcw.{Window, Best, count_symbol, search_frequent}
use is_there_entropy_down_th.Assess.MultiMcw.Counts.{
  last_position, in_window, last_position-le, store_self, store_ne, store-last_position,
  store-grown,
}

-- A count and a position that another count and position outdo or equal.
abbrev pub Outdone : (c p c' p' : ℕ) → Type 0
Outdone c p c' p' = (c < c') ⊎ ((c ≡ c') × (p ≤ p'))

Outdone-trans :
    (c p c' p' c'' p'' : ℕ) → Outdone c p c' p' → Outdone c' p' c'' p'' → Outdone c p c'' p''
Outdone-trans c p c' p' c'' p'' h k = ground arith

-- A window of the last symbols of `past`.
pub record IsMode (alph_size : ℕ) (past : List ℕ) (w : Window) : Type 0 where
  pub counted : (s : ℕ) → w.win_cnts s ≡ in_window w.before s past
  pub latest : (s : ℕ) → w.win_poses s ≡ last_position s past
  pub known : w.frequent < alph_size
  pub top : w.max_cnt ≡ w.win_cnts w.frequent
  pub leads :
      (s : ℕ)
      → s < alph_size
      → Outdone (w.win_cnts s) (w.win_poses s) (w.win_cnts w.frequent) (w.win_poses w.frequent)

-- The search goes over all symbols from k on.
pub record IsBest (cnts poses : ℕ → ℕ) (k last : ℕ) (from b : Best) : Type 0 where
  pub above : Outdone from.cnt from.pos b.cnt b.pos
  pub all : (s : ℕ) → k ≤ s → s < last → Outdone (cnts s) (poses s) b.cnt b.pos
  pub real : (b ≡ from) ⊎ ((b.symbol < last) × (b.cnt ≡ cnts b.symbol) × (b.pos ≡ poses b.symbol))

-- The next symbol outdoes the best one so far.
IsBest-found :
    (cnts poses : ℕ → ℕ) (k last : ℕ) (from b : Best)
    → k < last
    → Outdone from.cnt from.pos (cnts k) (poses k)
    → IsBest cnts poses (suc k) last (record { cnt = cnts k; symbol = k; pos = poses k }) b
    → IsBest cnts poses k last from b
IsBest-found cnts poses k last from b h better r = record {
  above = Outdone-trans from.cnt from.pos (cnts k) (poses k) b.cnt b.pos better r.above;
  all = λ s le lt. elim (Bool-cases (s == k)) [
    | inl e ↦
        let same : k ≡ s = ground arith in
        subst (λ y. Outdone (cnts y) (poses y) b.cnt b.pos) same r.above
    | inr e ↦ r.all s (ground arith) lt
  ];
  real = elim r.real [
    | inl e ↦ inr (
        subst (λ y. (y.symbol < last) × (y.cnt ≡ cnts y.symbol) × (y.pos ≡ poses y.symbol)) (sym e)
          (h, refl, refl))
    | inr found ↦ inr found
  ];
}

-- It does not.
IsBest-kept :
    (cnts poses : ℕ → ℕ) (k last : ℕ) (from b : Best)
    → Outdone (cnts k) (poses k) from.cnt from.pos
    → IsBest cnts poses (suc k) last from b
    → IsBest cnts poses k last from b
IsBest-kept cnts poses k last from b worse r = record {
  above = r.above;
  all = λ s le lt. elim (Bool-cases (s == k)) [
    | inl e ↦
        let same : k ≡ s = ground arith in
        subst (λ y. Outdone (cnts y) (poses y) b.cnt b.pos) same
          (Outdone-trans (cnts k) (poses k) from.cnt from.pos b.cnt b.pos worse r.above)
    | inr e ↦ r.all s (ground arith) lt
  ];
  real = r.real;
}

better_lem : (c p c' p' : ℕ) → (ltb c c' || (c == c' && leb p p')) ≡ true → Outdone c p c' p'
better_lem c p c' p' e = ground arith

worse_lem : (c p c' p' : ℕ) → (ltb c c' || (c == c' && leb p p')) ≡ false → Outdone c' p' c p
worse_lem c p c' p' e = ground arith

pub search_frequent-IsBest :
    (cnts poses : ℕ → ℕ) (left k last : ℕ) (from : Best)
    → k + left ≡ last
    → IsBest cnts poses k last from (search_frequent cnts poses left k from)
unfolding search_frequent
search_frequent-IsBest cnts poses zero k last from e = record {
  above = inr (refl, omega arith);
  all = λ s h h'. absurd (omega arith);
  real = inl refl;
}
search_frequent-IsBest cnts poses (suc left) k last from e =
    elim (Bool-cases (ltb from.cnt (cnts k) || (from.cnt == cnts k && leb from.pos (poses k)))) [
      | inl e' ↦
          let found : Best = record { cnt = cnts k; symbol = k; pos = poses k } in
          rw e' (
            IsBest-found cnts poses k last from (search_frequent cnts poses left (suc k) found)
              (omega arith) (better_lem from.cnt from.pos (cnts k) (poses k) e')
              (search_frequent-IsBest cnts poses left (suc k) last found (omega arith)))
      | inr e' ↦ rw e' (
          IsBest-kept cnts poses k last from (search_frequent cnts poses left (suc k) from)
            (worse_lem from.cnt from.pos (cnts k) (poses k) e')
            (search_frequent-IsBest cnts poses left (suc k) last from (omega arith)))
    ]

-- What a write of the count and the position of x does to the comparison of the symbols.
module _ (cnts poses : ℕ → ℕ) (x c i : ℕ) where
  -- x gets ahead.
  pub Outdone-first :
      (s m : ℕ)
      → m ≤ c
      → (x ≢ s → cnts s ≤ m)
      → poses s ≤ i
      → Outdone (store x c cnts s) (store x i poses s) (store x c cnts x) (store x i poses x)
  Outdone-first s m le h h' =
      let self = store_self x c cnts x refl in
      let self' = store_self x i poses x refl in
      elim (Bool-cases (x == s)) [
        | inl e ↦
            let same = store_self x c cnts s (ground arith) in
            let same' = store_self x i poses s (ground arith) in inr (same ∙ sym self, omega arith)
        | inr e ↦
            let ne : x ≢ s = ground arith in
            let same = store_ne x c cnts s ne in
            let same' = store_ne x i poses s ne in let bound = h ne in ground arith
      ]

  -- x stays behind f.
  pub Outdone-kept :
      (s f : ℕ)
      → x ≢ f
      → c < cnts f
      → (x ≢ s → Outdone (cnts s) (poses s) (cnts f) (poses f))
      → Outdone (store x c cnts s) (store x i poses s) (store x c cnts f) (store x i poses f)
  Outdone-kept s f ne lt h =
      let first = store_ne x c cnts f ne in
      let first' = store_ne x i poses f ne in
      elim (Bool-cases (x == s)) [
        | inl e ↦ let same = store_self x c cnts s (ground arith) in inl (omega arith)
        | inr e ↦
            let ne' : x ≢ s = ground arith in
            let same = store_ne x c cnts s ne' in
            let same' = store_ne x i poses s ne' in
            let before = h ne' in rw (first, first', same, same') before
      ]

pub count_symbol-IsMode :
    (alph_size x : ℕ) (past : List ℕ) (w : Window)
    → x < alph_size
    → length past ≤ w.before
    → IsMode alph_size past w
    → IsMode alph_size (x ∷ past) (count_symbol (length past) x w)
unfolding count_symbol
count_symbol-IsMode alph_size x past w h room m =
    let c = suc (w.win_cnts x) in
    let i = length past in
    let fits : leb i w.before ≡ true = ground arith in
    let top = m.top in
    rw fits (elim (Bool-cases (leb w.max_cnt c)) [
      | inl e ↦ rw e (record {
        counted = λ s. store-grown w.before x s w.win_cnts past room m.counted;
        latest = λ s. store-last_position x s w.win_poses past (m.latest s);
        known = h;
        top = sym (store_self x c w.win_cnts x refl);
        leads = λ s lt.
            Outdone-first w.win_cnts w.win_poses x c i s w.max_cnt (ground arith)
              (λ ne. let led = m.leads s lt in ground arith)
              (let latest = m.latest s in let le = last_position-le s past in omega arith);
      })
      | inr e ↦
          let ahead : c < w.win_cnts w.frequent = ground arith in
          let other : x ≢ w.frequent = λ same.
            let equal : w.win_cnts x ≡ w.win_cnts w.frequent = ap w.win_cnts same in omega arith in
          rw e (record {
            counted = λ s. store-grown w.before x s w.win_cnts past room m.counted;
            latest = λ s. store-last_position x s w.win_poses past (m.latest s);
            known = m.known;
            top = m.top ∙ sym (store_ne x c w.win_cnts w.frequent other);
            leads = λ s lt.
                Outdone-kept w.win_cnts w.win_poses x c i s w.frequent other ahead
                  (λ ne. m.leads s lt);
          })
    ])
