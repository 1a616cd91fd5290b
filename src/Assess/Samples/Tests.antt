-- ===== src/Assess/Samples/Tests.antt =====
-- A file of four bytes, and one of ones only.
use is_there_entropy_down_th.Common.{
  ℕ, ◌≡◌, ◌≢◌, ◌⊎◌, refl, true, false, some, List, [], ◌∷◌, arith, AllBelow,
}
use is_there_entropy_down_th.Assess.Samples.{
  DataT, ReadResult, done, failed, does_not_fit, no_memory_bsymbols, Host, finish, read_file,
}
use is_there_entropy_down_th.Assess.Samples.Width.{HasWidth}
use is_there_entropy_down_th.Assess.Samples.Files.{IsRead, finish-IsRead}

abbrev bytes : List ℕ
bytes = 7 ∷ 2 ∷ 7 ∷ 4 ∷ []

abbrev asked : ℕ
asked = 8

abbrev host : Host
host = record {
  opens = true;
  seek_end = true;
  tell = some 4;
  seek_set = λ _. true;
  allocates = λ _. true;
  read = λ offset count. bytes;
}

abbrev symbols_in : ReadResult → List ℕ
symbols_in (done d) = d.symbols
symbols_in (failed _) = []

abbrev bits_in : ReadResult → List ℕ
bits_in (done d) = d.bsymbols
bits_in (failed _) = []

dense : symbols_in (read_file 0 host) ≡ 2 ∷ 0 ∷ 2 ∷ 1 ∷ []
unfolding read_file
dense = refl

-- The bits of a file of ones are given as zeros.
ones_as_zeros : bits_in (finish 1 host (1 ∷ 1 ∷ [])) ≡ 0 ∷ 0 ∷ []
unfolding finish
ones_as_zeros = refl

finish-IsRead_example :
    ((finish 8 host bytes ≡ failed does_not_fit) × (asked ≢ 0) × ¬ AllBelow 256 bytes)
    ⊎ ((w : ℕ) × HasWidth 8 bytes w
        × (((finish 8 host bytes ≡ failed no_memory_bsymbols) × (w ≢ 1) × (true ≡ false))
            ⊎ ((d : DataT) × (finish 8 host bytes ≡ done d)
                × IsRead bytes w d
                × ((w ≡ 1) ⊎ (true ≡ true)))))
finish-IsRead_example =
    finish-IsRead 8 host bytes (omega arith)
      (omega arith, (omega arith, (omega arith, (omega arith, tt))))
