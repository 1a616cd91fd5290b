-- ===== src/Assess/Initial/IidHeight.antt =====
-- The assessed entropy of cpp/iid_main.cpp.
use is_there_entropy_down_th.Common.{
  ℕ, List, ◌∙◌, ◌≤◌, ◌<◌, ◌≡◌, ◌⊎◌, refl, Bool, true, false, some, ltb, ◌==◌, if◌then◌else◌,
  Bool-cases, inl, inr, arith,
}
use is_there_entropy_down_th.Assess.Estimates.{Double, most_common}
use is_there_entropy_down_th.Assess.Minimum.{IsOrder, AtMost, smaller, smaller_left, smaller_right}
use is_there_entropy_down_th.Assess.Samples.{DataT}
use is_there_entropy_down_th.Assess.Stats.Median.{calc_stats_total}
use is_there_entropy_down_th.Assess.Restart.{Suite}
use is_there_entropy_down_th.Assess.Initial.{Settings}
use is_there_entropy_down_th.Assess.Initial.NonIid.{on_bits}
use is_there_entropy_down_th.Assess.Initial.Iid.{
  IidCase, original_height, bitstring_height, assessed_height, test_file,
}
use is_there_entropy_down_th.Assess.Initial.Whole.{most_common_total, IsSampled}

-- Where a test is on, h is at most its value v, which is that of the most common symbol.
abbrev pub IsUnder :
    (d : Double) (on : Bool) (samples : List ℕ) (alph_size : ℕ) (estimate v h : d.Value) → Type 0
IsUnder d on samples alph_size estimate v h =
    (on ≡ false) ⊎ ((most_common d samples alph_size ≡ some estimate) × AtMost d h v)

-- What the assessed entropy h of an IID run is, by the verbosity.
abbrev pub IsIidHeight :
    (d : Double) (s : Settings) (data_t : DataT) (h_original h_bitstring h : d.Value) → Type 0
IsIidHeight d s data_t h_original h_bitstring h =
    let width = d.of_long data_t.word_size in
    let bits = d.mul h_bitstring width in
    ((s.verbose ≤ 2) × (h ≡ width))
    ⊎ ((2 < s.verbose)
        × AtMost d h width
        × IsUnder d s.initial_entropy data_t.symbols data_t.alph_size h_original h_original h
        × IsUnder d (on_bits d s data_t) data_t.bsymbols 2 h_bitstring bits h
        × ((h ≡ width)
            ⊎ ((s.initial_entropy ≡ true) × (h ≡ h_original))
            ⊎ ((on_bits d s data_t ≡ true) × (h ≡ bits))))

module _ (d : Double) (o : IsOrder d) where
  smaller_one : (a b : d.Value) → (smaller d a b ≡ a) ⊎ (smaller d a b ≡ b)
  smaller_one a b = elim (Bool-cases (d.less b a)) [
    | inl e ↦ inr (rw e refl)
    | inr e ↦ inl (rw e refl)
  ]

  lowered_if :
      (b : Bool) (h v : d.Value)
      → AtMost d (if b then smaller d h v else h) h
        × ((b ≡ false) ⊎ AtMost d (if b then smaller d h v else h) v)
        × (((if b then smaller d h v else h) ≡ h)
            ⊎ ((b ≡ true) × ((if b then smaller d h v else h) ≡ v)))
  lowered_if true h v = (
    smaller_left d o h v,
    inr (smaller_right d o h v),
    elim (smaller_one h v) [ inl e ↦ inl e | inr e ↦ inr (refl, e) ],
  )
  lowered_if false h v = (o.irreflexive h, inl refl, inl refl)

  assessed_height-IsIidHeight :
      (suite : Suite d) (s : Settings) (data_t : DataT) (h_original h_bitstring : d.Value)
      → (s.initial_entropy ≡ false)
        ⊎ (most_common d data_t.symbols data_t.alph_size ≡ some h_original)
      → (on_bits d s data_t ≡ false) ⊎ (most_common d data_t.bsymbols 2 ≡ some h_bitstring)
      → IsIidHeight d s data_t h_original h_bitstring
          (assessed_height d suite s data_t h_original h_bitstring)
  unfolding assessed_height
  assessed_height-IsIidHeight suite s data_t h_original h_bitstring known known_bits =
      let width = d.of_long data_t.word_size in
      let bits = d.mul h_bitstring width in
      let on = on_bits d s data_t in
      let h = if on then smaller d width bits else width in
      let (below_width, below_bits, one) = lowered_if on width bits in
      let (below, below_original, one') = lowered_if s.initial_entropy h h_original in
      let low = if s.initial_entropy then smaller d h h_original else h in
      elim (Bool-cases (ltb 2 s.verbose)) [
        | inr e ↦ rw e (inl (ground arith, refl))
        | inl e ↦ rw e (
            inr (
              ground arith,
              o.transitive low h width below below_width,
              elim known [
                | inl off ↦ inl off
                | inr estimate ↦ elim below_original [
                  | inl off ↦ inl off
                  | inr under ↦ inr (estimate, under)
                ]
              ],
              elim known_bits [
                | inl off ↦ inl off
                | inr estimate ↦ elim below_bits [
                  | inl off ↦ inl off
                  | inr under ↦ inr (estimate, o.transitive low h bits below under)
                ]
              ],
              elim one' [
                | inr (yes_on, same) ↦ inr (inl (yes_on, same))
                | inl same ↦ elim one [
                  | inl same' ↦ inl (same ∙ same')
                  | inr (yes_on, same') ↦ inr (inr (yes_on, same ∙ same'))
                ]
              ],
            ))
      ]

  original_height_total :
      (suite : Suite d) (s : Settings) (data_t : DataT)
      → IsSampled data_t
      → (v : d.Value) × (original_height d suite s data_t ≡ some v)
        × ((s.initial_entropy ≡ false) ⊎ (most_common d data_t.symbols data_t.alph_size ≡ some v))
  unfolding original_height
  original_height_total suite s data_t h =
      let (v, e) =
        most_common_total d data_t.symbols data_t.alph_size h.symbols_below h.some_symbols in
      elim (Bool-cases s.initial_entropy) [
        | inl b ↦ (v, rw b e, inr e)
        | inr b ↦ (d.of_long data_t.word_size, rw b refl, inl b)
      ]

  bitstring_height_total :
      (suite : Suite d) (s : Settings) (data_t : DataT)
      → IsSampled data_t
      → (v : d.Value) × (bitstring_height d suite s data_t ≡ some v)
        × ((on_bits d s data_t ≡ false) ⊎ (most_common d data_t.bsymbols 2 ≡ some v))
  unfolding bitstring_height
  bitstring_height_total suite s data_t h =
      let (v, e) = most_common_total d data_t.bsymbols 2 h.bits_below h.some_bits in
      elim (Bool-cases (on_bits d s data_t)) [
        | inl b ↦ (v, rw b e, inr e)
        | inr b ↦ (d.of_long 1, rw b refl, inl b)
      ]

  -- Where doubles are numbers, an IID run on sampled data has a result. Up to verbosity 2, and so in
  -- quiet mode, its assessed entropy is the width of the symbols, whatever its estimates are. Above,
  -- it is the lowest of the width, with -i the most common value estimate of the symbols, and where it
  -- is made that of the bits, times the width.
  pub test_file-IsIidHeight :
      (suite : Suite d) (s : Settings) (data_t : DataT)
      → IsSampled data_t
      → (c : IidCase d) × (test_file d suite s data_t ≡ some c)
        × IsIidHeight d s data_t c.h_original c.h_bitstring c.h_assessed
  unfolding test_file
  test_file-IsIidHeight suite s data_t h =
      let (stats, e) = calc_stats_total d data_t h.some_symbols in
      let (h_original, e1, known) = original_height_total suite s data_t h in
      let (h_bitstring, e2, known_bits) = bitstring_height_total suite s data_t h in
      let c : IidCase d = record {
        mean = stats.0;
        median = stats.1;
        binary = data_t.alph_size == 2;
        h_original = h_original;
        h_bitstring = h_bitstring;
        h_assessed = assessed_height d suite s data_t h_original h_bitstring;
        passed_chi_square_tests = suite.chi_square_tests data_t.symbols data_t.alph_size;
        passed_longest_repeated_substring_test = suite.len_lrs_test data_t.symbols data_t.alph_size;
        passed_iid_permutation_tests = suite.permutation_tests 0 data_t stats.0 stats.1;
      } in
      (
        c,
        rw (e, e1, e2) refl,
        assessed_height-IsIidHeight suite s data_t h_original h_bitstring known known_bits,
      )
