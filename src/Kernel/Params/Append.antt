-- ===== src/Kernel/Params/Append.antt =====
-- Where an option for init is stored: arguments in order, and an environment entry over the one of
-- the same name.
use native.Mathlib.Nat.{zero-add}
use is_there_entropy_down_th.Common.{
  ℕ, suc, ◌+◌, ◌≤◌, ◌≡◌, ◌≢◌, refl, ap, Bool, true, false, Option, none, some, List, [], ◌∷◌, ◌++◌,
  map, ◌==◌, length, set, arith, Avoids, Bool-cases, inl, inr, ◌⊎◌, ◌<◌, ◌∙◌,
}
use is_there_entropy_down_th.Kernel.Params.{
  Str, KernelParams, Value, plain, quoted, slot, scan, set_init_arg, set_env, set_arg, repaired,
  strncmp_eq, never, store_env,
}

-- The scan passes over the entries in use.
scan_used :
    (limit : ℕ) (stop : Bool) (i : ℕ) (used : List Str) (rest : List (Option Str))
    → i + length used ≤ limit
    → scan limit stop never i false (map some used ++ none ∷ rest) ≡ slot (i + length used) false
unfolding scan
scan_used limit stop i [] rest h = ap (λ n. slot n false) (omega arith)
scan_used limit stop i (s ∷ used) rest h =
    ground (arith, scan_used limit stop (suc i) used rest (omega arith))

set_used :
    (used : List Str) (arg : Str) (rest : List (Option Str))
    → set (map some used ++ none ∷ rest) (length used) (some arg) ≡ map some used ++ some arg ∷ rest
set_used [] arg rest = refl
set_used (s ∷ used) arg rest = ap (λ l. some s ∷ l) (set_used used arg rest)

module _ (limit : ℕ) (k : KernelParams) (used : List Str) (rest : List (Option Str))
    (args : k.argv_init ≡ map some used ++ none ∷ rest) (fits : length used ≤ limit) where
  -- While the array has room and no panic is due, an option after "--" and an unknown option with no
  -- value are stored behind the arguments in use, and nothing else changes.
  pub set_arg_appends :
      (param : Str) (val : Value)
      → k.panic_later ≡ none
      → (set_init_arg limit param val k
          ≡ some (record k { argv_init = map some used ++ some (repaired param val) ∷ rest }))
        × (set_arg limit param k
            ≡ some (record k { argv_init = map some used ++ some param ∷ rest }))
  unfolding set_init_arg set_arg
  set_arg_appends param val calm = (
    simp (calm, args, scan_used limit true 0 used rest (omega arith), zero-add, set_used),
    simp (args, scan_used limit false 0 used rest (omega arith), zero-add, set_used),
  )

-- Names that differ, without an '=', differ before the values.
strncmp_other_name :
    (n : ℕ) (param name v w : Str)
    → Avoids b'=' param
    → Avoids b'=' name
    → name ≢ param
    → strncmp_eq (length param + suc n) (param ++ b'=' ∷ v) (name ++ b'=' ∷ w) ≡ false
unfolding strncmp_eq
strncmp_other_name n [] [] v w hp hn ne = absurd (ne refl)
strncmp_other_name n [] (c ∷ name) v w hp (h, hn) ne =
    let first : 0 + suc n ≡ suc n = omega arith in
    let differ : (b'=' == c) ≡ false = ground arith in rw (first, differ) refl
strncmp_other_name n (c ∷ param) [] v w (h, hp) hn ne =
    let longer : suc (length param) + suc n ≡ suc (length param + suc n) = omega arith in
    let differ : (c == b'=') ≡ false = ground arith in rw (longer, differ) refl
strncmp_other_name n (c ∷ param) (c' ∷ name) v w (h, hp) (h', hn) ne =
    let longer : suc (length param) + suc n ≡ suc (length param + suc n) = omega arith in
    rw longer (elim (Bool-cases (c == c')) [
      | inr b ↦ rw b refl
      | inl b ↦
          let same : c' ≡ c = ground arith in
          rw b (strncmp_other_name n param name v w hp hn (λ e. ne ((λ i. same i ∷ e i))))
    ])

strncmp_name :
    (param v w : Str) → strncmp_eq (length param + 1) (param ++ b'=' ∷ v) (param ++ b'=' ∷ w) ≡ true
unfolding strncmp_eq
strncmp_name [] v w = refl
strncmp_name (c ∷ param) v w =
    let longer : suc (length param) + 1 ≡ suc (length param + 1) = omega arith in
    rw longer (ground (arith, strncmp_name param v w))

strncmp_name_and_byte :
    (param v w : Str) (x y : ℕ)
    → strncmp_eq (length param + 2) (param ++ b'=' ∷ x ∷ v) (param ++ b'=' ∷ y ∷ w) ≡ (x == y)
unfolding strncmp_eq
strncmp_name_and_byte [] v w x y = ground arith
strncmp_name_and_byte (c ∷ param) v w x y =
    let longer : suc (length param) + 2 ≡ suc (length param + 2) = omega arith in
    let same : (c == c) ≡ true = ground arith in
    rw (longer, same) (strncmp_name_and_byte param v w x y)

-- The variables of the environment, and those of other names.
abbrev pub entries : List (Str × Str) → List Str
entries [] = []
entries ((name, v) ∷ vars) = (name ++ b'=' ∷ v) ∷ entries vars

abbrev pub AllOther : (param : Str) → List (Str × Str) → Type 0
AllOther param [] = Unit
AllOther param ((name, v) ∷ vars) = ((name ≢ param) × Avoids b'=' name) × AllOther param vars

-- The scan for a variable passes over those of other names.
scan_others :
    (limit n i : ℕ) (param v : Str) (vars : List (Str × Str)) (rest : List (Option Str))
    → Avoids b'=' param
    → AllOther param vars
    → i + length vars ≤ limit
    → scan limit false
        (strncmp_eq (length param + suc n) (param ++ b'=' ∷ v))
        i
        false
        (map some (entries vars) ++ rest)
      ≡ scan limit false
          (strncmp_eq (length param + suc n) (param ++ b'=' ∷ v))
          (i + length vars)
          false
          rest
unfolding scan
scan_others limit n i param v [] rest hp h le =
    let same : i ≡ i + 0 = omega arith in
    ap (λ j. scan limit false (strncmp_eq (length param + suc n) (param ++ b'=' ∷ v)) j false rest)
      same
scan_others limit n i param v ((name, w) ∷ vars) rest hp ((ne, hn), h) le =
    let below : (i == limit) ≡ false = ground arith in
    let other = strncmp_other_name n param name v w hp hn ne in
    let same : suc i + length vars ≡ i + suc (length vars) = omega arith in
    rw (below, other)
      (scan_others limit n (suc i) param v vars rest hp h (omega arith)
        ∙ ap
            (λ j.
              scan limit false (strncmp_eq (length param + suc n) (param ++ b'=' ∷ v)) j false rest)
            same)

set_others :
    (vars : List (Str × Str)) (j : ℕ) (arg : Option Str) (rest : List (Option Str))
    → set (map some (entries vars) ++ rest) (length vars + j) arg
      ≡ map some (entries vars) ++ set rest j arg
set_others [] j arg rest = let same : 0 + j ≡ j = omega arith in ap (λ n. set rest n arg) same
set_others ((name, v) ∷ vars) j arg rest =
    let same : suc (length vars) + j ≡ suc (length vars + j) = omega arith in
    rw same (ap (λ l. some (name ++ b'=' ∷ v) ∷ l) (set_others vars j arg rest))

-- Where the scan ends at an entry, and where it goes on.
scan_found :
    (limit i : ℕ) (found : Str → Bool) (s : Str) (rest : List (Option Str))
    → i < limit
    → found s ≡ true
    → scan limit false found i false (some s ∷ rest) ≡ slot i false
unfolding scan
scan_found limit i found s rest h e =
    let below : (i == limit) ≡ false = ground arith in rw (below, e) refl

scan_on :
    (limit i : ℕ) (found : Str → Bool) (s : Str) (rest : List (Option Str))
    → i < limit
    → found s ≡ false
    → scan limit false found i false (some s ∷ rest) ≡ scan limit false found (suc i) false rest
unfolding scan
scan_on limit i found s rest h e =
    let below : (i == limit) ≡ false = ground arith in rw (below, e) refl

module _ (limit : ℕ) (k : KernelParams) (param v w : Str) (x y : ℕ)
    (before after : List (Str × Str)) (rest : List (Option Str)) (name : Avoids b'=' param)
    (others : AllOther param before) (later : AllOther param after)
    (fits : length before + suc (length after) ≤ limit)
    (env : k.envp_init
      ≡ map some (entries before)
        ++ (some (param ++ b'=' ∷ y ∷ w) ∷ (map some (entries after) ++ (none ∷ rest)))) where
  -- The new value in the place of the old one, and behind all variables.
  abbrev pub in_place : KernelParams
  in_place = record k {
    envp_init =
        map some (entries before)
        ++ (some (param ++ b'=' ∷ x ∷ v) ∷ (map some (entries after) ++ (none ∷ rest)));
  }

  abbrev pub at_the_end : KernelParams
  at_the_end = record k {
    envp_init =
        map some (entries before)
        ++ (some (param ++ b'=' ∷ y ∷ w)
            ∷ (map some (entries after) ++ (some (param ++ b'=' ∷ x ∷ v) ∷ rest)));
  }

  replaces :
      (n : ℕ)
      → strncmp_eq (length param + suc n) (param ++ b'=' ∷ x ∷ v) (param ++ b'=' ∷ y ∷ w) ≡ true
      → store_env
          (scan limit false
            (strncmp_eq (length param + suc n) (param ++ b'=' ∷ x ∷ v))
            0
            false
            k.envp_init)
          (param ++ b'=' ∷ x ∷ v)
          k
        ≡ some in_place
  replaces n alike =
      let found = strncmp_eq (length param + suc n) (param ++ b'=' ∷ x ∷ v) in
      let old = param ++ b'=' ∷ y ∷ w in
      let tail = map some (entries after) ++ (none ∷ rest) in
      let here =
        scan_others limit n 0 param (x ∷ v) before (some old ∷ tail) name others (omega arith)
        ∙ scan_found limit (0 + length before) found old tail (omega arith) alike in
      let place : 0 + length before ≡ length before + 0 = omega arith in
      rw (env, here, place, set_others before 0 (some (param ++ b'=' ∷ x ∷ v)) (some old ∷ tail))
        refl

  appends :
      (n : ℕ)
      → strncmp_eq (length param + suc n) (param ++ b'=' ∷ x ∷ v) (param ++ b'=' ∷ y ∷ w) ≡ false
      → store_env
          (scan limit false
            (strncmp_eq (length param + suc n) (param ++ b'=' ∷ x ∷ v))
            0
            false
            k.envp_init)
          (param ++ b'=' ∷ x ∷ v)
          k
        ≡ some at_the_end
  unfolding scan
  appends n apart =
      let found = strncmp_eq (length param + suc n) (param ++ b'=' ∷ x ∷ v) in
      let arg = param ++ b'=' ∷ x ∷ v in
      let old = param ++ b'=' ∷ y ∷ w in
      let tail = map some (entries after) ++ (none ∷ rest) in
      let on =
        scan_others limit n 0 param (x ∷ v) before (some old ∷ tail) name others (omega arith)
        ∙ scan_on limit (0 + length before) found old tail (omega arith) apart
        ∙ scan_others limit n (suc (0 + length before)) param (x ∷ v) after (none ∷ rest) name later
            (omega arith) in
      let place : suc (0 + length before) + length after ≡ length before + suc (length after + 0) =
        omega arith in
      let put =
        set_others before (suc (length after + 0)) (some arg) (some old ∷ tail)
        ∙ ap (λ l. map some (entries before) ++ (some old ∷ l))
            (set_others after 0 (some arg) (none ∷ rest)) in
      rw (env, on, place, put) refl

  -- A variable that is already in the environment, at any place among others of other names and with
  -- room behind them: an option without quotes replaces its value. An option with quotes replaces it
  -- only if the two values start with the same byte; otherwise both entries reach init.
  pub set_env_replaces :
      (set_env limit param (plain (x ∷ v)) k ≡ some in_place)
      × ((x ≡ y) × (set_env limit param (quoted (x ∷ v)) k ≡ some in_place)
          ⊎ (x ≢ y) × (set_env limit param (quoted (x ∷ v)) k ≡ some at_the_end))
  unfolding set_env
  set_env_replaces = (
    replaces 0 (strncmp_name param (x ∷ v) (y ∷ w)),
    elim (Bool-cases (x == y)) [
      | inl e ↦ inl (ground arith, replaces 1 (strncmp_name_and_byte param v w x y ∙ e))
      | inr e ↦ inr (ground arith, appends 1 (strncmp_name_and_byte param v w x y ∙ e))
    ],
  )
