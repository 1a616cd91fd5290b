-- ===== src/Assess/Transpose.antt =====
-- cpp/transpose_main.cpp: the program that writes restart data by columns. What is printed is left out.
use is_there_entropy_down_th.Common.{
  ℕ, zero, suc, ◌-◌, ◌*◌, ◌^◌, Bool, true, false, not, Option, none, some, List, [], ◌∷◌, ◌++◌,
  if◌then◌else◌, ◌==◌, ◌>>=◌,
}
use is_there_entropy_down_th.Assess.Arguments.{Parsed, asks_version}
use is_there_entropy_down_th.Assess.Samples.{DataT, Host, ReadResult, read_file_subset}
use is_there_entropy_down_th.Assess.Samples.ReadResult.{done, failed}
use is_there_entropy_down_th.Assess.Matrix.{write_columns}
pub mod Written
pub mod Tests

-- What `getopt` finds, by the letter.
pub data Choice : Type 0 where
  choice_v choice_unknown : Choice
  choice_l : (optarg : List ℕ) → Choice

-- `subsetIndex` and `subsetSize`
pub record Subset : Type 0 where
  pub subset_index : ℕ
  pub subset_size : ℕ

-- none: the usage is printed. A block has 1000 rows of 1000 samples.
unfoldable pub parse_choices : (strtoull : List ℕ → Parsed) → List Choice → Subset → Option Subset
parse_choices strtoull [] s = some s
parse_choices strtoull (choice_v ∷ choices) s = parse_choices strtoull choices s
parse_choices strtoull (choice_l optarg ∷ choices) s =
    let rest =
      parse_choices strtoull choices
        (record { subset_index = (strtoull optarg).inint; subset_size = 1_000 * 1_000 }) in
    if (strtoull optarg).invalid then none else rest
parse_choices strtoull (choice_unknown ∷ choices) s = none

-- How the program ends, with what is in the output file: the usage and -1 before it is opened, -1 at
-- a write that fails, 0.
pub data Transposition : Type 0 where
  shows_version shows_usage : Transposition
  write_failed : (file : List ℕ) → Transposition
  transposed : (file : List ℕ) → Transposition

-- The writes of single bytes, `fwrite(..., 1, fp) != 1`; `accepts k` is whether the k-th works.
unfoldable pub write_bytes :
    (accepts : ℕ → Bool) → (k : ℕ) → (written : List ℕ) → List ℕ → List ℕ × Bool
write_bytes accepts k written [] = (written, true)
write_bytes accepts k written (x ∷ bytes) =
    let rest = write_bytes accepts (suc k) (written ++ x ∷ []) bytes in
    if accepts k then rest else (written, false)

-- The calls that other code defines. `opens` is the `fopen` of the output file.
pub record Disk : Type 0 where
  pub getopt : List (List ℕ) → List Choice × List (List ℕ)
  pub strtoull : List ℕ → Parsed
  pub file : (file_path : List ℕ) → Host
  pub opens : (file_path : List ℕ) → Bool
  pub accepts : ℕ → Bool

abbrev pub ended : List ℕ × Bool → Transposition
ended (file, true) = transposed file
ended (file, false) = write_failed file

-- Behind the read.
unfoldable pub write_file : Disk → (out_path : List ℕ) → DataT → Option Transposition
unfolding write_bytes
write_file disk out_path data_t =
    let columns = write_columns 1_000 1_000 data_t.rawsymbols 1_000 0 in
    if not (data_t.len == 1_000 * 1_000)
    then some shows_usage
    else if not (disk.opens out_path)
    then some shows_usage
    else (do file ← columns; some (ended (write_bytes disk.accepts 0 [] file)))

unfoldable pub transpose_file : Disk → Subset → List (List ℕ) → Option Transposition
unfolding write_file
transpose_file disk s (file_path ∷ out_path ∷ []) =
    elim (read_file_subset s.subset_index s.subset_size 0 (disk.file file_path)) [
      | failed e ↦ some shows_usage
      | done data_t ↦ write_file disk out_path data_t
    ]
transpose_file disk s _ = some shows_usage

-- `main`, on the arguments with the name of the program.
unfoldable pub transpose_main : Disk → (argv : List (List ℕ)) → Option Transposition
unfolding parse_choices transpose_file
transpose_main disk argv =
    let (choices, operands) = disk.getopt argv in
    if asks_version argv
    then some shows_version
    else elim (parse_choices disk.strtoull choices
        (record { subset_index = 2 ^ 64 - 1; subset_size = 0 })) [
          | none ↦ some shows_usage
          | some s ↦ transpose_file disk s operands
        ]
