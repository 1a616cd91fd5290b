-- ===== src/Assess/Arguments.antt =====
-- cpp/restart_main.cpp, iid_main.cpp, non_iid_main.cpp and transpose_main.cpp: what the programs read
-- of their command lines.
use is_there_entropy_down_th.Common.{
  ℕ, Bool, true, false, ◌||◌, Option, none, some, List, [], ◌∷◌, if◌then◌else◌, ◌==◌,
}

-- "--version"
abbrev version_option : List ℕ
version_option = 45 ∷ 45 ∷ 118 ∷ 101 ∷ 114 ∷ 115 ∷ 105 ∷ 111 ∷ 110 ∷ []

same_string : List ℕ → List ℕ → Bool
same_string [] [] = true
same_string (x ∷ xs) (y ∷ ys) = let rest = same_string xs ys in if x == y then rest else false
same_string _ _ = false

unfoldable pub asks_version : List (List ℕ) → Bool
unfolding same_string
asks_version [] = false
asks_version (arg ∷ argv) = same_string version_option arg || asks_version argv

-- `strtoull(s, &next, 0)`: the number, whether it sets errno to EINVAL, and the rest of the text.
pub record Parsed : Type 0 where
  pub inint : ℕ
  pub invalid : Bool
  pub next : List ℕ

-- The argument of -l, `<index>,<samples>`. Each number fits an unsigned long long, which is an
-- unsigned long too.
unfoldable pub parse_subset : (strtoull : List ℕ → Parsed) → (optarg : List ℕ) → Option (ℕ × ℕ)
parse_subset strtoull optarg =
    let first = strtoull optarg in
    if first.invalid then none else elim first.next [
      | [] ↦ none
      | c ∷ rest ↦
          if c == 44
          then (if (strtoull rest).invalid then none else some (first.inint, (strtoull rest).inint))
          else none
    ]
