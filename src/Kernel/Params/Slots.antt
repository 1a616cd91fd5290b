-- ===== src/Kernel/Params/Slots.antt =====
-- Where the scans of argv_init and envp_init end.
use is_there_entropy_down_th.Common.{
  ℕ, zero, suc, ◌+◌, ◌≤◌, ◌<◌, ◌≡◌, refl, Bool, true, ◌&&◌, ◌||◌, Option, none, some, List, [], ◌∷◌,
  ◌==◌, length, get_elem?, arith, Bool-cases, inl, inr, ◌⊎◌,
}
use is_there_entropy_down_th.Kernel.Params.{Str, Scan, slot, scan}

-- The end of a scan of `a` that started at index i: a slot of the array that is past the limit only
-- with the flag set.
pub record EndsAt (limit i : ℕ) (a : List (Option Str)) (r : Scan) : Type 0 where
  pub at : ℕ
  pub full : Bool
  pub ends : r ≡ slot at full
  pub from : i ≤ at
  pub within : at < i + length a
  pub flagged : (at ≤ limit) ⊎ (full ≡ true)

flag_next :
    (i limit : ℕ) (overflow : Bool)
    → (i ≤ limit) ⊎ (overflow ≡ true)
    → (suc i ≤ limit) ⊎ (((i == limit) || overflow) ≡ true)
flag_next i limit overflow h = ground arith

-- An array that is NULL at its last place, `limit + 1`, is never read past its end.
pub scan-EndsAt :
    (limit : ℕ) (stop : Bool) (found : Str → Bool) (i : ℕ) (overflow : Bool) (a : List (Option Str))
    → (last : ℕ) → i + last ≡ limit + 1
    → get_elem? a last ≡ some none
    → (i ≤ limit) ⊎ (overflow ≡ true)
    → EndsAt limit i a (scan limit stop found i overflow a)
unfolding scan
scan-EndsAt limit stop found i overflow [] last e null f = cc
scan-EndsAt limit stop found i overflow (none ∷ a) last e null f = record {
  at = i;
  full = overflow;
  ends = refl;
  from = omega arith;
  within = omega arith;
  flagged = f;
}
scan-EndsAt limit stop found i overflow (some s ∷ a) zero e null f = cc
scan-EndsAt limit stop found i overflow (some s ∷ a) (suc last) e null f =
    elim (Bool-cases ((stop && (i == limit)) || found s)) [
      | inl here ↦ rw here (record {
        at = i;
        full = (i == limit) || overflow;
        ends = refl;
        from = omega arith;
        within = omega arith;
        flagged = inl (omega arith);
      })
      | inr on ↦
          let r =
            scan-EndsAt limit stop found (suc i) ((i == limit) || overflow) a last (omega arith)
              null (flag_next i limit overflow f) in
          rw on (record {
            at = r.at;
            full = r.full;
            ends = r.ends;
            from = omega (arith, r.from);
            within = omega (arith, r.within);
            flagged = r.flagged;
          })
    ]
