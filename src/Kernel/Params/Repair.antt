-- ===== src/Kernel/Params/Repair.antt =====
-- `repair_env_string` on the bytes of the command line, which the option parser has cut by NULs.
use is_there_entropy_down_th.Common.{
  ℕ, suc, ◌+◌, ◌-◌, ◌≡◌, ◌≢◌, ◌∙◌, refl, ap, Option, none, some, List, [], ◌∷◌, ◌++◌, if◌then◌else◌,
  ◌==◌, ◌>>=◌, length, set, take, drop, arith, length-append,
}
use mathlib.Core.List.{append_assoc}
use is_there_entropy_down_th.Kernel.Params.{Str, plain, quoted, repaired}

abbrev cons_to : ℕ → Option Str → Option Str
cons_to c none = none
cons_to c (some s) = some (c ∷ s)

-- The bytes up to the first NUL; `none` if the buffer ends before one.
pub c_string : List ℕ → Option Str
c_string [] = none
c_string (c ∷ buf) = let rest = cons_to c (c_string buf) in if c == 0 then some [] else rest

-- `memmove(buf + to, buf + from, n)`: the bytes are read before any is written.
pub memmove : (to from n : ℕ) → List ℕ → List ℕ
memmove to from n buf = take to buf ++ (take n (drop from buf) ++ drop (to + n) buf)

-- `val[-2] = '='; memmove(val-1, val, strlen(val)+1);`
abbrev unquote : List ℕ → (val : ℕ) → Option (List ℕ)
unquote buf val = do
  let marked = set buf (val - 2) b'='
  value ← c_string (drop val marked)
  some (memmove (val - 1) val (length value + 1) marked)

-- param=val or param="val": `after` is the end of the name.
abbrev repair_at : List ℕ → (val after : ℕ) → Option (List ℕ)
repair_at buf val after =
    if val == after + 1
    then some (set buf (val - 1) b'=')
    else (if val == after + 2 then unquote buf val else none)

-- `param` and `val` are offsets into the buffer. `none` is BUG(), or a string with no end.
unfoldable pub repair_env_string : List ℕ → (param : ℕ) → (val : Option ℕ) → Option (List ℕ)
unfolding c_string memmove
repair_env_string buf param none = some buf
repair_env_string buf param (some val) = do
  name ← c_string (drop param buf)
  repair_at buf val (param + length name)

abbrev NoNul : Str → Type 0
NoNul [] = Unit
NoNul (c ∷ s) = (c ≢ 0) × NoNul s

c_string-append : (s rest : List ℕ) → NoNul s → c_string (s ++ 0 ∷ rest) ≡ some s
unfolding c_string
c_string-append [] rest h = refl
c_string-append (c ∷ s) rest (h, hs) = ground (arith, c_string-append s rest hs)

drop-append : (pre l : List ℕ) (j : ℕ) → drop (length pre + j) (pre ++ l) ≡ drop j l
drop-append [] l j = ap (λ i. drop i l) (omega arith)
drop-append (c ∷ pre) l j =
    let longer : suc (length pre) + j ≡ suc (length pre + j) = omega arith in
    rw longer (drop-append pre l j)

take-append : (pre l : List ℕ) (j : ℕ) → take (length pre + j) (pre ++ l) ≡ pre ++ take j l
take-append [] l j = ap (λ i. take i l) (omega arith)
take-append (c ∷ pre) l j =
    let longer : suc (length pre) + j ≡ suc (length pre + j) = omega arith in
    rw longer (ap (λ r. c ∷ r) (take-append pre l j))

set-append : (pre l : List ℕ) (j d : ℕ) → set (pre ++ l) (length pre + j) d ≡ pre ++ set l j d
set-append [] l j d = ap (λ i. set l i d) (omega arith)
set-append (c ∷ pre) l j d =
    let longer : suc (length pre) + j ≡ suc (length pre + j) = omega arith in
    rw longer (ap (λ r. c ∷ r) (set-append pre l j d))

set_end : (pre l : List ℕ) (c d : ℕ) → set (pre ++ c ∷ l) (length pre) d ≡ pre ++ d ∷ l
set_end [] l c d = refl
set_end (x ∷ pre) l c d = ap (λ r. x ∷ r) (set_end pre l c d)

drop_end : (pre l : List ℕ) → drop (length pre) (pre ++ l) ≡ l
drop_end [] l = refl
drop_end (x ∷ pre) l = drop_end pre l

take_end : (pre l : List ℕ) → take (length pre) (pre ++ l) ≡ pre
take_end [] l = refl
take_end (x ∷ pre) l = ap (λ r. x ∷ r) (take_end pre l)

-- Between the name and the value.
module _ (pre param : Str) where
  abbrev end : ℕ
  end = length pre + length param

  name_found :
      (rest : List ℕ)
      → NoNul param
      → c_string (drop (length pre) (pre ++ (param ++ 0 ∷ rest))) ≡ some param
  name_found rest np = rw drop_end (c_string-append param rest np)

  marked : (l : List ℕ) → set (pre ++ (param ++ 0 ∷ l)) end b'=' ≡ pre ++ (param ++ b'=' ∷ l)
  marked l =
      set-append pre (param ++ 0 ∷ l) (length param) b'='
      ∙ ap (λ r. pre ++ r) (set_end param l 0 b'=')

  at_plain : (buf : List ℕ) → repair_at buf (end + 1) end ≡ some (set buf end b'=')
  at_plain buf = let back : end + 1 - 1 ≡ end = omega arith in rw back (ground arith)

  at_quoted : (buf : List ℕ) → repair_at buf (end + 2) end ≡ unquote buf (end + 2)
  at_quoted buf = ground arith

drop_next : (n x : ℕ) (l : List ℕ) → drop (n + 1) (x ∷ l) ≡ drop n l
drop_next n x l = let next : n + 1 ≡ suc n = omega arith in rw next

regroup : (pre param l : List ℕ) (c : ℕ) → pre ++ (param ++ c ∷ l) ≡ (pre ++ (param ++ c ∷ [])) ++ l
regroup pre param l c = simp append_assoc

length_start :
    (pre param : List ℕ) (c : ℕ) → length (pre ++ (param ++ c ∷ [])) ≡ length pre + length param + 1
length_start pre param c =
    omega (arith, length-append pre (param ++ c ∷ []), length-append param (c ∷ []))

module _ (a val rest : List ℕ) (quote : ℕ) where
  abbrev shifted : List ℕ
  shifted = a ++ quote ∷ (val ++ 0 ∷ rest)

  value_found : NoNul val → c_string (drop (length a + 1) shifted) ≡ some val
  value_found nv = rw (drop-append a (quote ∷ (val ++ 0 ∷ rest)) 1) (c_string-append val rest nv)

  moved : memmove (length a) (length a + 1) (length val + 1) shifted ≡ a ++ (val ++ 0 ∷ 0 ∷ rest)
  unfolding memmove
  moved =
      let twice : drop (length val + 1) (quote ∷ (val ++ 0 ∷ rest)) ≡ 0 ∷ rest =
        drop_next (length val) quote (val ++ 0 ∷ rest) ∙ drop_end val (0 ∷ rest) in
      rw (
        take_end,
        drop-append a (quote ∷ (val ++ 0 ∷ rest)) 1,
        drop-append a (quote ∷ (val ++ 0 ∷ rest)) (length val + 1),
        twice,
        take-append val (0 ∷ rest) 1,
        append_assoc,
      )

  unquote-shifted :
      (buf : List ℕ)
      → set buf (length a + 1 - 2) b'=' ≡ shifted
      → NoNul val
      → unquote buf (length a + 1) ≡ some (a ++ (val ++ 0 ∷ 0 ∷ rest))
  unquote-shifted buf mark nv =
      let back : length a + 1 - 1 ≡ length a = omega arith in rw (mark, value_found nv, back, moved)

quoted_repaired :
    (pre param val rest : List ℕ) (quote : ℕ)
    → NoNul val
    → unquote (pre ++ (param ++ 0 ∷ quote ∷ (val ++ 0 ∷ rest))) (end pre param + 2)
      ≡ some (pre ++ ((param ++ b'=' ∷ val) ++ 0 ∷ 0 ∷ rest))
quoted_repaired pre param val rest quote nv =
    let a = pre ++ (param ++ b'=' ∷ []) in
    let l = quote ∷ (val ++ 0 ∷ rest) in
    let at : end pre param + 2 ≡ length a + 1 = omega (arith, length_start pre param b'=') in
    let mark_at : length a + 1 - 2 ≡ end pre param = omega (arith, length_start pre param b'=') in
    let mark : set (pre ++ (param ++ 0 ∷ l)) (length a + 1 - 2) b'=' ≡ a ++ l =
      ap (λ i. set (pre ++ (param ++ 0 ∷ l)) i b'=') mark_at
      ∙ marked pre param l
      ∙ regroup pre param l b'=' in
    ap (unquote (pre ++ (param ++ 0 ∷ l))) at
    ∙ unquote-shifted a val rest quote (pre ++ (param ++ 0 ∷ l)) mark nv
    ∙ ap some (simp append_assoc)

-- The parser leaves `param\0val\0`, or `param\0"val\0` with a byte for the quote. The repair makes
-- the string at `param` the option as it was written, without its quotes, in both cases, and leaves
-- the bytes before and after alone.
pub repair_env_string-repaired :
    (pre param val rest : List ℕ) (quote : ℕ)
    → NoNul param
    → NoNul val
    → (repair_env_string
          (pre ++ (param ++ 0 ∷ (val ++ 0 ∷ rest)))
          (length pre)
          (some (length pre + length param + 1))
        ≡ some (pre ++ (repaired param (plain val) ++ 0 ∷ rest)))
      × (repair_env_string
            (pre ++ (param ++ 0 ∷ quote ∷ (val ++ 0 ∷ rest)))
            (length pre)
            (some (length pre + length param + 2))
          ≡ some (pre ++ (repaired param (quoted val) ++ 0 ∷ 0 ∷ rest)))
unfolding repair_env_string
repair_env_string-repaired pre param val rest quote np nv = (
  rw (
    name_found pre param (val ++ 0 ∷ rest) np,
    at_plain pre param,
    marked pre param (val ++ 0 ∷ rest),
    append_assoc,
  ),
  rw (name_found pre param (quote ∷ (val ++ 0 ∷ rest)) np, at_quoted pre param)
      (quoted_repaired pre param val rest quote nv),
)
