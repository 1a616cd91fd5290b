-- ===== src/Assess/Permutation/Windows.antt =====
-- The windows that find_collisions measures.
use is_there_entropy_down_th.Common.{
  ℕ, occurs, AllBelow, suc, ◌<◌, ◌≡◌, ◌∙◌, refl, sym, ap, Bool, true, false, Option, some, List, [],
  ◌∷◌, ◌++◌, if◌then◌else◌, ◌==◌, length, set, get_elem?, replicate, Bool-cases, inl, inr, arith,
  length-append, length-set, get_elem?-set_self, get_elem?-set_ne, get_elem?-replicate,
  length-replicate,
}
use native.Mathlib.Decide.{ℕ_discrete}
use mathlib.Core.List.{append_assoc, append-nil}
use is_there_entropy_down_th.Assess.Permutation.{collisions_from, find_collisions}

-- Read from the end: each symbol does not occur before.
abbrev pub Distinct : List ℕ → Type 0
Distinct [] = Unit
Distinct (x ∷ xs) = (occurs x xs ≡ false) × Distinct xs

-- A window is distinct symbols and one of them again.
abbrev pub Window : Type 0
Window = List ℕ × ℕ

abbrev pub symbols : Window → List ℕ
symbols (xs, x) = xs ++ x ∷ []

abbrev pub IsWindow : Window → Type 0
IsWindow (xs, x) = Distinct xs × (occurs x xs ≡ true)

abbrev pub AllWindows : List Window → Type 0
AllWindows [] = Unit
AllWindows (w ∷ ws) = IsWindow w × AllWindows ws

abbrev pub window_symbols : List Window → List ℕ
window_symbols [] = []
window_symbols (w ∷ ws) = symbols w ++ window_symbols ws

abbrev pub window_lengths : List Window → List ℕ
window_lengths [] = []
window_lengths (w ∷ ws) = length (symbols w) ∷ window_lengths ws

-- `seen` marks the symbols of the window so far.
record Marks (k : ℕ) (seen : List Bool) (begun : List ℕ) : Type 0 where
  size : length seen ≡ k
  marks : (x : ℕ) → x < k → get_elem? seen x ≡ some (occurs x begun)

record Divides (begun : List ℕ) (samples : List ℕ) (r : Option (List ℕ)) : Type 0 where
  pub windows : List Window
  pub left : List ℕ
  pub parts : begun ++ samples ≡ window_symbols windows ++ left
  pub all : AllWindows windows
  pub distinct : Distinct left
  pub result : r ≡ some (window_lengths windows)

occurs-append :
    (x y : ℕ) (ys : List ℕ) → occurs x (ys ++ y ∷ []) ≡ (if x == y then true else occurs x ys)
occurs-append x y [] = refl
occurs-append x y (z ∷ ys) = ground (arith, occurs-append x y ys)

Distinct-append :
    (xs : List ℕ) (x : ℕ) → Distinct xs → occurs x xs ≡ false → Distinct (xs ++ x ∷ [])
Distinct-append [] x d h = (refl, tt)
Distinct-append (y ∷ xs) x (hy, d) h =
    (occurs-append y x xs ∙ ground arith, Distinct-append xs x d (ground arith))

fresh-Marks : (k : ℕ) → Marks k (replicate k false) []
fresh-Marks k = record {
  size = length-replicate k false;
  marks = λ x h. get_elem?-replicate k false x h;
}

more-Marks :
    (k : ℕ) (seen : List Bool) (begun : List ℕ) (y : ℕ)
    → y < k
    → Marks k seen begun
    → Marks k (set seen y true) (begun ++ y ∷ [])
more-Marks k seen begun y h m = record {
  size = length-set seen y true ∙ m.size;
  marks = λ x hx. elim (ℕ_discrete x y) [
    | yes e ↦ rw e (
        get_elem?-set_self seen y true (omega (arith, m.size))
        ∙ ap some (sym (occurs-append y y begun ∙ ground arith)))
    | no ne ↦
        get_elem?-set_ne seen true (λ e. ne (sym e))
        ∙ m.marks x hx
        ∙ ap some (sym (occurs-append x y begun ∙ ground arith))
  ];
}

longer : (begun : List ℕ) (x : ℕ) → suc (length begun) ≡ length (begun ++ x ∷ [])
longer begun x = omega (arith, length-append begun (x ∷ []))

collisions_from-Divides :
    (k : ℕ) (seen : List Bool) (begun samples : List ℕ)
    → Marks k seen begun
    → Distinct begun
    → AllBelow k samples
    → Divides begun samples (collisions_from k seen (length begun) samples)
unfolding collisions_from
collisions_from-Divides k seen begun [] m d h = record {
  windows = [];
  left = begun;
  parts = rw append-nil;
  all = tt;
  distinct = d;
  result = refl;
}
collisions_from-Divides k seen begun (x ∷ samples) m d (hx, h) =
    elim (Bool-cases (occurs x begun)) [
      | inl e ↦
          let r = collisions_from-Divides k (replicate k false) [] samples (fresh-Marks k) tt h in
          record {
            windows = (begun, x) ∷ r.windows;
            left = r.left;
            parts = ap (λ l. begun ++ x ∷ l) r.parts ∙ rw (append_assoc, append_assoc) refl;
            all = ((d, e), r.all);
            distinct = r.distinct;
            result =
                rw (m.marks x hx, e, collisions_from)
                  (rw r.result (ap (λ n. some (n ∷ window_lengths r.windows)) (longer begun x)));
          }
      | inr e ↦
          let r =
            collisions_from-Divides k (set seen x true) (begun ++ x ∷ []) samples
              (more-Marks k seen begun x hx m) (Distinct-append begun x d e) h in
          record {
            windows = r.windows;
            left = r.left;
            parts = sym (append_assoc begun (x ∷ []) samples) ∙ r.parts;
            all = r.all;
            distinct = r.distinct;
            result = rw (m.marks x hx, e, collisions_from) (rw (longer begun x) r.result);
          }
    ]

-- On symbols of the alphabet the function is defined. The samples divide into windows of distinct
-- symbols that end with one of them again, and a rest with no collision, and the result is the
-- lengths of the windows.
pub find_collisions-Divides :
    (samples : List ℕ) (k : ℕ)
    → AllBelow k samples
    → (ws : List Window) × (left : List ℕ) × (samples ≡ window_symbols ws ++ left)
      × AllWindows ws
      × Distinct left
      × (find_collisions samples k ≡ some (window_lengths ws))
unfolding find_collisions
find_collisions-Divides samples k h =
    let d = collisions_from-Divides k (replicate k false) [] samples (fresh-Marks k) tt h in
    (d.windows, d.left, d.parts, d.all, d.distinct, d.result)
