-- ===== src/Assess/Transpose/Written.antt =====
-- What the transposition leaves in the output file.
use mathlib.Core.Path.{subst}
use mathlib.Core.List.{append-nil, append_assoc}
use is_there_entropy_down_th.Common.{
  ℕ, zero, suc, ◌+◌, ◌*◌, ◌<◌, ◌≡◌, ◌⊎◌, ◌∙◌, refl, sym, ap, Bool, true, false, some, List, [], ◌∷◌,
  ◌++◌, length, take, ◌==◌, inl, inr, arith, Bool-cases, AllBelow,
}
use is_there_entropy_down_th.Assess.Samples.{DataT}
use is_there_entropy_down_th.Assess.Matrix.Columns.{IsTransposed}
use is_there_entropy_down_th.Assess.Matrix.Transposed.{write_columns-IsTransposed}
use is_there_entropy_down_th.Assess.Transpose.{
  Disk, shows_usage, write_failed, transposed, write_bytes, write_file,
}

-- The n writes from the k-th on work.
abbrev pub AllAccepted : (accepts : ℕ → Bool) (k n : ℕ) → Type 0
AllAccepted accepts k zero = Unit
AllAccepted accepts k (suc n) = (accepts k ≡ true) × AllAccepted accepts (suc k) n

-- The n writes from the k-th on work, and the one behind them does not.
abbrev pub FailsAfter : (accepts : ℕ → Bool) (k n : ℕ) → Type 0
FailsAfter accepts k n = AllAccepted accepts k n × (accepts (k + n) ≡ false)

-- All the bytes, or those before the first write that fails.
write_bytes_lem :
    (accepts : ℕ → Bool) (k : ℕ) (written bytes : List ℕ)
    → AllAccepted accepts k (length bytes)
        × (write_bytes accepts k written bytes ≡ (written ++ bytes, true))
      ⊎ ((m : ℕ) × (m < length bytes)
          × FailsAfter accepts k m
          × (write_bytes accepts k written bytes ≡ (written ++ take m bytes, false)))
unfolding write_bytes
write_bytes_lem accepts k written [] = inl (tt, ap (λ u. (u, true)) (sym (append-nil written)))
write_bytes_lem accepts k written (x ∷ bytes) = elim (Bool-cases (accepts k)) [
  | inr b ↦
      inr (0, omega arith, (tt, here b), rw b (ap (λ u. (u, false)) (sym (append-nil written))))
  | inl b ↦ elim (write_bytes_lem accepts (suc k) (written ++ x ∷ []) bytes) [
    | inl (all, e) ↦
        inl ((b, all), rw b (e ∙ ap (λ u. (u, true)) (append_assoc written (x ∷ []) bytes)))
    | inr (m, short, (all, fails), e) ↦ inr (
      suc m,
      omega arith,
      ((b, all), later m fails),
      rw b (e ∙ ap (λ u. (u, false)) (append_assoc written (x ∷ []) (take m bytes))),
    )
  ]
]
  where
    here : accepts k ≡ false → accepts (k + 0) ≡ false
    here b = let same : k ≡ k + 0 = omega arith in subst (λ j. accepts j ≡ false) same b

    later : (m : ℕ) → accepts (suc k + m) ≡ false → accepts (k + suc m) ≡ false
    later m b =
        let same : suc k + m ≡ k + suc m = omega arith in subst (λ j. accepts j ≡ false) same b

-- From 1000 rows of 1000 bytes the program writes the transposition of the raw symbols if the output
-- file opens and every write works; if a write fails, it ends with -1 and the bytes before that one;
-- if the file does not open, it ends with the usage.
pub write_file-IsTransposed :
    (disk : Disk) (out_path : List ℕ) (data_t : DataT)
    → AllBelow 256 data_t.rawsymbols
    → length data_t.rawsymbols ≡ 1_000 * 1_000
    → data_t.len ≡ 1_000 * 1_000
    → (file : List ℕ) × IsTransposed 1_000 data_t.rawsymbols file
      × ((disk.opens out_path ≡ true)
            × AllAccepted disk.accepts 0 (length file)
            × (write_file disk out_path data_t ≡ some (transposed file))
          ⊎ ((m : ℕ) × (disk.opens out_path ≡ true)
              × (m < length file)
              × FailsAfter disk.accepts 0 m
              × (write_file disk out_path data_t ≡ some (write_failed (take m file))))
          ⊎ ((disk.opens out_path ≡ false) × (write_file disk out_path data_t ≡ some shows_usage)))
unfolding write_file
write_file-IsTransposed disk out_path data_t small size len =
    let (file, e, t) =
      write_columns-IsTransposed 1_000 data_t.rawsymbols small (omega (arith, size)) in
    let whole : (data_t.len == 1_000 * 1_000) ≡ true = ground (arith, len) in
    (
      file,
      t,
      elim (Bool-cases (disk.opens out_path)) [
        | inr b ↦ inr (inr (b, rw whole (rw b refl)))
        | inl b ↦ elim (write_bytes_lem disk.accepts 0 [] file) [
          | inl (all, k) ↦ inl (b, all, rw whole (rw b (rw e (rw k refl))))
          | inr (m, short, fails, k) ↦
              inr (inl (m, b, short, fails, rw whole (rw b (rw e (rw k refl)))))
        ]
      ],
    )
