-- ===== src/Kernel/Initcalls/Blacklist.antt =====
-- What the option "initcall_blacklist=" keeps from running.
use is_there_entropy_down_th.Common.{
  ◌≡◌, ◌∙◌, ◌↔◌, ◌⊎◌, inl, inr, refl, ap, Bool, true, false, ◌||◌, List, [], ◌∷◌, ◌++◌, ◌==◌, arith,
  Avoids, AllAvoid, Bool-cases,
}
use is_there_entropy_down_th.Kernel.Params.{Str}
use is_there_entropy_down_th.Kernel.Initcalls.{
  Initcall, fields, add_all, initcall_blacklist, cut_at_space, str_eq, listed, initcall_blacklisted,
}

-- The names with commas between them, as they are written on the command line.
abbrev pub joined : Str → List Str → Str
joined name [] = name
joined name (s ∷ names) = name ++ b',' ∷ joined s names

fields-last : (s : Str) → Avoids b',' s → fields s ≡ s ∷ []
unfolding fields
fields-last [] h = refl
fields-last (c ∷ s) (h, hs) = ground (arith, fields-last s hs)

fields-comma : (s rest : Str) → Avoids b',' s → fields (s ++ b',' ∷ rest) ≡ s ∷ fields rest
unfolding fields
fields-comma [] rest h = refl
fields-comma (c ∷ s) rest (h, hs) = ground (arith, fields-comma s rest hs)

fields-joined :
    (name : Str) (names : List Str)
    → Avoids b',' name
    → AllAvoid b',' names
    → fields (joined name names) ≡ name ∷ names
fields-joined name [] h hs = fields-last name h
fields-joined name (s ∷ names) h (h', hs) =
    fields-comma name (joined s names) h ∙ ap (λ l. name ∷ l) (fields-joined s names h' hs)

listed-add_all :
    (n : Str) (entries blacklist : List Str)
    → listed n (add_all entries blacklist) ≡ (listed n entries || listed n blacklist)
unfolding listed add_all
listed-add_all n [] blacklist = refl
listed-add_all n (s ∷ entries) blacklist = listed-add_all n entries (s ∷ blacklist) ∙ ground arith

str_eq_lem : (a b : Str) → (str_eq a b ≡ true) ↔ (a ≡ b)
unfolding str_eq
str_eq_lem [] [] = ((λ e. refl), (λ e. refl))
str_eq_lem [] (y ∷ b) = ((λ e. cc), (λ e. cc))
str_eq_lem (x ∷ a) [] = ((λ e. cc), (λ e. cc))
str_eq_lem (x ∷ a) (y ∷ b) = elim (Bool-cases (x == y)) [
  | inl e ↦
      let same : x ≡ y = ground arith in
      rw e ((λ h. (λ i. same i ∷ (str_eq_lem a b).0 h i)), (λ h. (str_eq_lem a b).1 cc))
  | inr e ↦ rw e ((λ h. cc), (λ h. let same : x ≡ y = cc in absurd (ground arith)))
]

-- The name is one of those.
abbrev pub IsOneOf : Str → List Str → Type 0
IsOneOf name [] = ⊥
IsOneOf name (s ∷ names) = (name ≡ s) ⊎ IsOneOf name names

listed_lem : (name : Str) (names : List Str) → (listed name names ≡ true) ↔ IsOneOf name names
unfolding listed
listed_lem name [] = ((λ e. cc), (λ none_left. absurd none_left))
listed_lem name (s ∷ names) =
    let first = str_eq_lem name s in
    elim (Bool-cases (str_eq name s)) [
      | inl e ↦ rw e ((λ h. inl (first.0 e)), (λ h. refl))
      | inr e ↦ rw e (
        (λ h. inr ((listed_lem name names).0 h)),
        (λ h. elim h [
          | inl same ↦ absurd (let eq = first.1 same in cc)
          | inr later ↦ (listed_lem name names).1 later
        ]),
      )
    ]

-- What `sprint_symbol_no_offset` puts behind a name: nothing, or a space and the module.
abbrev pub IsModule : Str → Type 0
IsModule [] = Unit
IsModule (c ∷ rest) = c ≡ 32

cut_at_space_lem :
    (name rest : Str) → Avoids 32 name → IsModule rest → cut_at_space (name ++ rest) ≡ name
unfolding cut_at_space
cut_at_space_lem [] [] h m = refl
cut_at_space_lem [] (c ∷ rest) h m = let space : (c == 32) ≡ true = ground arith in rw space refl
cut_at_space_lem (c ∷ name) rest (h, hs) m =
    let other : (c == 32) ≡ false = ground arith in
    rw other (ap (λ l. c ∷ l) (cut_at_space_lem name rest hs m))

or_lem : (a b : Bool) → ((a || b) ≡ true) ↔ ((a ≡ true) ⊎ (b ≡ true))
or_lem true b = ((λ e. inl refl), (λ e. refl))
or_lem false b = ((λ e. inr e), (λ h. elim h [ inl e ↦ cc | inr e ↦ e ]))

-- With the option set to names joined by commas, an initcall whose symbol is a name, and perhaps a
-- space and its module, is kept from running exactly if that whole name is one of them, or of those
-- that were on the list before.
pub initcall_blacklisted-initcall_blacklist :
    (first : Str) (names blacklist : List Str) (fn : Initcall) (name module_part : Str)
    → Avoids b',' first
    → AllAvoid b',' names
    → fn.symbol ≡ name ++ module_part
    → Avoids 32 name
    → IsModule module_part
    → (initcall_blacklisted (initcall_blacklist (joined first names) blacklist) fn ≡ true)
      ↔ (IsOneOf name (first ∷ names) ⊎ IsOneOf name blacklist)
unfolding initcall_blacklisted initcall_blacklist
initcall_blacklisted-initcall_blacklist first names blacklist fn name module_part h hs e plain m =
    let cut = ap cut_at_space e ∙ cut_at_space_lem name module_part plain m in
    let both = or_lem (listed name (first ∷ names)) (listed name blacklist) in
    let new = listed_lem name (first ∷ names) in
    let old = listed_lem name blacklist in
    rw (fields-joined first names h hs, cut, listed-add_all name (first ∷ names) blacklist)
      (
        (λ t. elim (both.0 t) [ inl a ↦ inl (new.0 a) | inr b ↦ inr (old.0 b) ]),
        (λ t. both.1 (elim t [ inl a ↦ inl (new.1 a) | inr b ↦ inr (old.1 b) ])),
      )
