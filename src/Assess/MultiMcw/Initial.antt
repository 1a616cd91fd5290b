-- ===== src/Assess/MultiMcw/Initial.antt =====
-- The initial counts: each window has those of as many symbols as fit.
use mathlib.Core.Path.{subst}
use is_there_entropy_down_th.Common.{
  ℕ, zero, suc, ◌≡◌, ◌∙◌, ◌+◌, ◌-◌, ◌<◌, ◌≤◌, refl, sym, ap, false, some, List, [], ◌∷◌, map,
  lt→ltb, leb, length, length-map, length-take, take, drop, AllBelow, Bool-cases, inl, inr, arith,
}
use is_there_entropy_down_th.Assess.MultiMcw.{
  Window, empty_window, empty_windows, count_symbol, initial_counts, passed,
}
use is_there_entropy_down_th.Assess.MultiMcw.Modes.{IsMode, count_symbol-IsMode}
use is_there_entropy_down_th.Assess.MultiMcw.Passed.{
  AllWindows, AllWindows-map, AllWindows-weaken, length-passed, first_symbol-IsMode, passed-take,
  passed-drop,
}

drop-suc : (k x : ℕ) (ys zs : List ℕ) → drop k ys ≡ x ∷ zs → drop (suc k) ys ≡ zs
drop-suc zero x [] zs e = cc
drop-suc zero x (y ∷ ys) zs e = cc
drop-suc (suc k) x [] zs e = cc
drop-suc (suc k) x (y ∷ ys) zs e = drop-suc k x ys zs e

drop-passed_all :
    (k : ℕ) (data_t past : List ℕ) → k ≤ length data_t → drop k (passed k data_t past) ≡ past
drop-passed_all zero data_t past h = refl
drop-passed_all (suc k) [] past h = absurd (omega arith)
drop-passed_all (suc k) (x ∷ data_t) past h =
    drop-suc k x (passed k data_t (x ∷ past)) past
      (drop-passed_all k data_t (x ∷ past) (omega arith))

drop-passed :
    (n k m : ℕ) (data_t past : List ℕ)
    → m ≡ n + k
    → m ≤ length data_t
    → drop k (passed m data_t past) ≡ passed n data_t past
drop-passed zero k m data_t past e h =
    let same : m ≡ k = omega arith in
    subst (λ j. drop k (passed j data_t past) ≡ past) (sym same)
      (drop-passed_all k data_t past (omega arith))
drop-passed (suc n) k zero data_t past e h = absurd (omega arith)
drop-passed (suc n) k (suc m) [] past e h = absurd (omega arith)
drop-passed (suc n) k (suc m) (x ∷ data_t) past e h =
    drop-passed n k m data_t (x ∷ past) (omega arith) (omega arith)

-- The sizes are between 63 and 4095.
pub IsSized : Window → Type 0
IsSized w = (62 ≤ w.before) × (w.before < 4_095)

-- A window over the first symbols of those that were read.
Partial : (alph_size : ℕ) → (past : List ℕ) → Window → Type 0
Partial alph_size past w = IsSized w × IsMode alph_size (drop (length past - suc w.before) past) w

count_symbol_before : (i x : ℕ) (w : Window) → (count_symbol i x w).before ≡ w.before
unfolding count_symbol
count_symbol_before i x w = elim (Bool-cases (leb i w.before)) [
  | inl e ↦ rw e refl
  | inr e ↦ rw e refl
]

count_symbol-full : (i x : ℕ) (w : Window) → w.before < i → count_symbol i x w ≡ w
unfolding count_symbol
count_symbol-full i x w h = let full : leb i w.before ≡ false = ground arith in rw full refl

count_symbol-IsSized : (i x : ℕ) (w : Window) → IsSized w → IsSized (count_symbol i x w)
unfolding IsSized
count_symbol-IsSized i x w (low, high) =
    let same = count_symbol_before i x w in (omega arith, omega arith)

count_symbol-Partial :
    (alph_size x : ℕ) (past : List ℕ) (w : Window)
    → x < alph_size
    → Partial alph_size past w
    → Partial alph_size (x ∷ past) (count_symbol (length past) x w)
unfolding Partial
count_symbol-Partial alph_size x past w h (sized, m) =
    let same = count_symbol_before (length past) x w in
    elim (Bool-cases (leb (length past) w.before)) [
      | inl e ↦
          let none_out : length past - suc w.before ≡ 0 = ground arith in
          let none_out' : suc (length past) - suc (count_symbol (length past) x w).before ≡ 0 =
            ground arith in
          (
            count_symbol-IsSized (length past) x w sized,
            subst (λ k. IsMode alph_size (drop k (x ∷ past)) (count_symbol (length past) x w))
                (sym none_out')
                (count_symbol-IsMode alph_size x past w h (ground arith)
                  (subst (λ k. IsMode alph_size (drop k past) w) none_out m)),
          )
      | inr e ↦
          let full = count_symbol-full (length past) x w (ground arith) in
          let more : suc (length past) - suc w.before ≡ suc (length past - suc w.before) =
            ground arith in
          subst
            (λ w'.
              IsSized w'
              × IsMode alph_size (drop (suc (length past) - suc w'.before) (x ∷ past)) w')
            (sym full) (sized, subst (λ k. IsMode alph_size (drop k (x ∷ past)) w) (sym more) m)
    ]

initial_counts-Partial :
    (alph_size : ℕ) (symbols past : List ℕ) (windows : List Window)
    → AllBelow alph_size symbols
    → AllWindows (Partial alph_size past) windows
    → (windows' : List Window) × (initial_counts alph_size symbols (length past) windows
        ≡ some windows')
      × (length windows' ≡ length windows)
      × AllWindows (Partial alph_size (passed (length symbols) symbols past)) windows'
unfolding initial_counts
initial_counts-Partial alph_size [] past windows h ps = (windows, refl, refl, ps)
initial_counts-Partial alph_size (x ∷ symbols) past windows (h, hs) ps =
    let small = lt→ltb x alph_size h in
    let stepped =
      AllWindows-map (Partial alph_size past) (Partial alph_size (x ∷ past))
        (count_symbol (length past) x) windows (λ w p. count_symbol-Partial alph_size x past w h p)
        ps in
    let (windows', counted, long, all) =
      initial_counts-Partial alph_size symbols (x ∷ past)
        (map (count_symbol (length past) x) windows) hs stepped in
    (
      windows',
      rw (small, counted) refl,
      long ∙ length-map windows (count_symbol (length past) x),
      all,
    )

-- A window is full, or will be when more of the symbols ahead are read.
unfoldable pub Ready : (alph_size : ℕ) → (past symbols : List ℕ) → Window → Type 0
Ready alph_size past symbols w =
    IsMode alph_size (passed (suc w.before - length past) symbols past) w

Partial-Ready :
    (alph_size m n : ℕ) (data_t : List ℕ) (w : Window)
    → m ≤ length data_t
    → 4_095 ≤ m
    → n ≤ 63
    → Partial alph_size (passed m (take m data_t) []) w
    → Ready alph_size (passed n data_t []) (drop n data_t) w
unfolding Partial IsSized Ready
Partial-Ready alph_size m n data_t w long most few ((low, high), mode) =
    let taken : length (take m data_t) ≡ m = length-take m data_t ∙ omega arith in
    let all : length (passed m (take m data_t) []) ≡ m =
      length-passed m (take m data_t) [] (omega arith) ∙ omega arith in
    let some_read : length (passed n data_t []) ≡ n =
      length-passed n data_t [] (omega arith) ∙ omega arith in
    let count : length (passed m (take m data_t) []) - suc w.before ≡ m - suc w.before =
      omega arith in
    let left : suc w.before - length (passed n data_t []) ≡ suc w.before - n = omega arith in
    let sum : n + (suc w.before - n) ≡ suc w.before = omega arith in
    let first : drop (m - suc w.before) (passed m (take m data_t) [])
        ≡ passed (suc w.before) data_t [] =
      drop-passed (suc w.before) (m - suc w.before) m (take m data_t) [] (omega arith) (omega arith)
      ∙ passed-take (suc w.before) m data_t [] (omega arith) in
    let again : passed (suc w.before - n) (drop n data_t) (passed n data_t [])
        ≡ passed (suc w.before) data_t [] =
      passed-drop n (suc w.before - n) data_t [] (omega arith) ∙ ap (λ k. passed k data_t []) sum in
    rw (left, again, sym first, sym count) mode

first_symbol-Partial :
    (alph_size x before frequent : ℕ)
    → x < alph_size
    → 62 ≤ before
    → before < 4_095
    → Partial alph_size (x ∷ []) (count_symbol 0 x (empty_window before frequent))
unfolding Partial IsSized
first_symbol-Partial alph_size x before frequent h low high =
    let w = empty_window before frequent in
    let same = count_symbol_before 0 x w in
    let none_out : 1 - suc (count_symbol 0 x w).before ≡ 0 = omega arith in
    (
      (omega arith, omega arith),
      subst (λ k. IsMode alph_size (drop k (x ∷ [])) (count_symbol 0 x w)) (sym none_out)
          (first_symbol-IsMode alph_size x before frequent h),
    )

pub initial_counts-Ready :
    (alph_size m : ℕ) (data_t : List ℕ) (frequent : ℕ → ℕ)
    → m ≡ 4_095
    → m ≤ length data_t
    → AllBelow alph_size (take m data_t)
    → (windows : List Window) × (initial_counts alph_size (take m data_t) 0 (empty_windows frequent)
        ≡ some windows)
      × (length windows ≡ 4)
      × AllWindows (Ready alph_size (passed 63 data_t []) (drop 63 data_t)) windows
unfolding initial_counts
initial_counts-Ready alph_size zero data_t frequent e long h = absurd (omega arith)
initial_counts-Ready alph_size (suc m) [] frequent e long h = absurd (omega arith)
initial_counts-Ready alph_size (suc m) (x ∷ data_t) frequent e long (h, hs) =
    let small = lt→ltb x alph_size h in
    let (windows, counted, four, all) =
      initial_counts-Partial alph_size (take m data_t) (x ∷ [])
        (map (count_symbol 0 x) (empty_windows frequent)) hs
        (
          first_symbol-Partial alph_size x 62 (frequent 0) h (omega arith) (omega arith),
          (
            first_symbol-Partial alph_size x 254 (frequent 1) h (omega arith) (omega arith),
            (
              first_symbol-Partial alph_size x 1_022 (frequent 2) h (omega arith) (omega arith),
              (
                first_symbol-Partial alph_size x 4_094 (frequent 3) h (omega arith) (omega arith),
                tt,
              ),
            ),
          ),
        ) in
    let taken : length (take m data_t) ≡ m = length-take m data_t ∙ omega arith in
    (
      windows,
      rw (small, counted) refl,
      four,
      AllWindows-weaken (Partial alph_size (passed m (take m data_t) (x ∷ [])))
          (Ready alph_size (passed 63 (x ∷ data_t) []) (drop 63 (x ∷ data_t))) windows
          (λ w. Partial-Ready alph_size (suc m) 63 (x ∷ data_t) w long (omega arith) (omega arith))
          (subst (λ k. AllWindows (Partial alph_size (passed k (take m data_t) (x ∷ []))) windows)
            taken all),
    )
