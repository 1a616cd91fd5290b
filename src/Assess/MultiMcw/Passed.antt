-- ===== src/Assess/MultiMcw/Passed.antt =====
-- The symbols that were read, and the windows that have been counted over them.
use is_there_entropy_down_th.Common.{
  ℕ, zero, suc, ◌≡◌, ◌∙◌, ◌+◌, ◌<◌, ◌≤◌, refl, sym, ap, true, List, [], ◌∷◌, map, leb, length, take,
  drop, arith,
}
use is_there_entropy_down_th.Assess.MultiMcw.{Window, empty_window, count_symbol, passed}
use is_there_entropy_down_th.Assess.MultiMcw.Counts.{store_self, store-last_position, store-grown}
use is_there_entropy_down_th.Assess.MultiMcw.Modes.{IsMode, Outdone-first}

abbrev pub AllWindows : (P : Window → Type 0) → List Window → Type 0
AllWindows P [] = Unit
AllWindows P (w ∷ windows) = P w × AllWindows P windows

pub AllWindows-map :
    (P Q : Window → Type 0) (f : Window → Window) (windows : List Window)
    → ((w : Window) → P w → Q (f w))
    → AllWindows P windows
    → AllWindows Q (map f windows)
AllWindows-map P Q f [] h hs = tt
AllWindows-map P Q f (w ∷ windows) h (p, ps) = (h w p, AllWindows-map P Q f windows h ps)

pub AllWindows-weaken :
    (P Q : Window → Type 0) (windows : List Window)
    → ((w : Window) → P w → Q w)
    → AllWindows P windows
    → AllWindows Q windows
AllWindows-weaken P Q [] h hs = tt
AllWindows-weaken P Q (w ∷ windows) h (p, ps) = (h w p, AllWindows-weaken P Q windows h ps)

pub passed-drop :
    (m n : ℕ) (data_t past : List ℕ)
    → m ≤ length data_t
    → passed n (drop m data_t) (passed m data_t past) ≡ passed (m + n) data_t past
passed-drop zero n data_t past h =
    let same : n ≡ 0 + n = omega arith in ap (λ k. passed k data_t past) same
passed-drop (suc m) n [] past h = absurd (omega arith)
passed-drop (suc m) n (x ∷ data_t) past h =
    let same : suc (m + n) ≡ suc m + n = omega arith in
    passed-drop m n data_t (x ∷ past) (omega arith) ∙ ap (λ k. passed k (x ∷ data_t) past) same

pub passed-take :
    (n m : ℕ) (data_t past : List ℕ) → n ≤ m → passed n (take m data_t) past ≡ passed n data_t past
passed-take zero m data_t past h = refl
passed-take (suc n) zero data_t past h = absurd (omega arith)
passed-take (suc n) (suc m) [] past h = refl
passed-take (suc n) (suc m) (x ∷ data_t) past h = passed-take n m data_t (x ∷ past) (omega arith)

pub length-passed :
    (n : ℕ) (data_t past : List ℕ)
    → n ≤ length data_t
    → length (passed n data_t past) ≡ n + length past
length-passed zero data_t past h = omega arith
length-passed (suc n) [] past h = absurd (omega arith)
length-passed (suc n) (x ∷ data_t) past h =
    let rest = length-passed n data_t (x ∷ past) (omega arith) in omega arith

-- The first symbol.
pub first_symbol-IsMode :
    (alph_size x before frequent : ℕ)
    → x < alph_size
    → IsMode alph_size (x ∷ []) (count_symbol 0 x (empty_window before frequent))
unfolding count_symbol
first_symbol-IsMode alph_size x before frequent h =
    let cnts : ℕ → ℕ = λ k. 0 in
    let fits : leb 0 before ≡ true = ground arith in
    rw fits (record {
      counted = λ s. store-grown before x s cnts [] (omega arith) (λ k. refl);
      latest = λ s. store-last_position x s cnts [] refl;
      known = h;
      top = sym (store_self x 1 cnts x refl);
      leads =
          λ s lt. Outdone-first cnts cnts x 1 0 s 0 (omega arith) (λ ne. omega arith) (omega arith);
    })
