-- ===== src/Assess/Transpose/Tests.antt =====
-- The transposition of a file of zeros, on a disk that is full after three bytes.
use is_there_entropy_down_th.Common.{
  arith, ℕ, ◌*◌, ◌≡◌, ◌⊎◌, refl, true, false, none, some, List, [], ◌∷◌, ltb, take, length, ◌<◌,
}
use is_there_entropy_down_th.Assess.Zeros.{zeros, length-zeros, zeros-AllBelow}
use is_there_entropy_down_th.Assess.Samples.{DataT, Host}
use is_there_entropy_down_th.Assess.Matrix.Columns.{IsTransposed}
use is_there_entropy_down_th.Assess.Transpose.{
  Disk, shows_usage, write_failed, transposed, write_bytes, write_file,
}
use is_there_entropy_down_th.Assess.Transpose.Written.{
  AllAccepted, FailsAfter, write_file-IsTransposed,
}

abbrev host : Host
host = record {
  opens = true;
  seek_end = true;
  tell = none;
  seek_set = λ offset. true;
  allocates = λ bytes. true;
  read = λ offset count. [];
}

abbrev disk : Disk
disk = record {
  getopt = λ argv. ([], argv);
  strtoull = λ s. record { inint = 0; invalid = false; next = [] };
  file = λ file_path. host;
  opens = λ file_path. true;
  accepts = λ k. ltb k 3;
}

full : write_bytes disk.accepts 0 [] (7 ∷ 8 ∷ 9 ∷ 10 ∷ []) ≡ (7 ∷ 8 ∷ 9 ∷ [], false)
unfolding write_bytes
full = refl

abbrev data_of : List ℕ → DataT
data_of symbols = record {
  word_size = 1;
  alph_size = 1;
  maxsymbol = 0;
  rawsymbols = symbols;
  symbols = symbols;
  bsymbols = symbols;
  len = 1_000 * 1_000;
  blen = 1_000 * 1_000;
}

write_file-IsTransposed_example :
    (file : List ℕ) × IsTransposed 1_000 (zeros 1_000_000) file
    × ((true ≡ true)
          × AllAccepted disk.accepts 0 (length file)
          × (write_file disk (111 ∷ []) (data_of (zeros 1_000_000)) ≡ some (transposed file))
        ⊎ ((m : ℕ) × (true ≡ true)
            × (m < length file)
            × FailsAfter disk.accepts 0 m
            × (write_file disk (111 ∷ []) (data_of (zeros 1_000_000))
                ≡ some (write_failed (take m file))))
        ⊎ ((true ≡ false)
            × (write_file disk (111 ∷ []) (data_of (zeros 1_000_000)) ≡ some shows_usage)))
write_file-IsTransposed_example =
    write_file-IsTransposed disk (111 ∷ []) (data_of (zeros 1_000_000))
      (zeros-AllBelow 256 1_000_000 (omega arith)) (length-zeros 1_000_000) refl
