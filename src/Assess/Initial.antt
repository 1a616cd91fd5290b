-- ===== src/Assess/Initial.antt =====
-- cpp/iid_main.cpp and cpp/non_iid_main.cpp: what the two programs share. The estimators and the file
-- are arguments; what is printed is left out.
use is_there_entropy_down_th.Common.{
  ℕ, zero, suc, ◌-◌, ◌^◌, Bool, true, false, not, ◌&&◌, ◌||◌, Option, none, some, List, [], ◌∷◌,
  ◌++◌, if◌then◌else◌, ltb, leb, ◌==◌, length, take,
}
use is_there_entropy_down_th.Assess.Arguments.{Parsed, parse_subset}
use is_there_entropy_down_th.Assess.Estimates.{Double}
use is_there_entropy_down_th.Assess.Samples.{DataT, ReadError, ReadResult, Host, read_file_subset}
use is_there_entropy_down_th.Assess.Samples.ReadResult.{done, failed}
use is_there_entropy_down_th.Assess.Restart.{Exit}
use is_there_entropy_down_th.Assess.Restart.Exit.{usage, failure, success}
pub mod NonIid
pub mod Iid
pub mod Assessed
pub mod Whole
pub mod IidHeight
pub mod Tests

-- What `getopt` finds, by the letter.
pub data Flag : Type 0 where
  flag_i flag_c flag_a flag_t flag_v flag_q flag_o flag_unknown : Flag
  flag_l : (optarg : List ℕ) → Flag

pub record Settings : Type 0 where
  pub initial_entropy : Bool
  pub all_bits : Bool
  pub verbose : ℕ
  pub quiet_mode : Bool
  pub json_output : Bool
  pub subset_index : ℕ
  pub subset_size : ℕ

-- `subsetIndex` is `ULONG_MAX` at first.
abbrev pub default_settings : Settings
default_settings = record {
  initial_entropy = true;
  all_bits = true;
  verbose = 1;
  quiet_mode = false;
  json_output = false;
  subset_index = 2 ^ 64 - 1;
  subset_size = 0;
}

-- `errorMsg`
pub data Fault : Type 0 where
  bad_subset bad_width single_symbol : Fault
  unreadable : ReadError → Fault

-- The JSON document: `errorMsg` where the error level is -1, and the cases.
pub record Document (C : Type 0) : Type 0 where
  pub error : Option Fault
  pub test_cases : List C

pub record Finished (C : Type 0) : Type 0 where
  pub exit : Exit
  pub output : Option (Document C)

-- What a step of `main` gives: it ends the program, or goes on.
pub data Step (C A : Type 0) : Type 0 where
  stop : Finished C → Step C A
  continue_with : A → Step C A

-- `if (quietMode) verbose = 0`
abbrev pub quieten : Settings → Settings
quieten s = if s.quiet_mode then record s { verbose = 0 } else s

-- `if (!all_bits && (data.blen > MIN_SIZE)) data.blen = MIN_SIZE`: the tests see the bits up to
-- blen.
abbrev pub limit_bits : Settings → DataT → DataT
limit_bits s data_t =
    if not s.all_bits && ltb 1_000_000 data_t.blen
    then record data_t { blen = 1_000_000; bsymbols = take 1_000_000 data_t.bsymbols }
    else data_t

-- `argv[0]`, behind the options
abbrev pub first : List (List ℕ) → List ℕ
first [] = []
first (file_path ∷ _) = file_path

module _ {C : Type 0} where
  -- Every error is written before the program ends, where JSON was asked for by then.
  unfoldable pub abandon : Settings → Exit → Fault → Finished C
  abandon s exit fault = record {
    exit = exit;
    output = if s.json_output then some (record { error = some fault; test_cases = [] }) else none;
  }

  abbrev pub plain : Exit → Finished C
  plain exit = record { exit = exit; output = none }

  unfoldable pub parse_flags : (strtoull : List ℕ → Parsed) → List Flag → Settings → Step C Settings
  unfolding abandon
  parse_flags strtoull [] s = continue_with s
  parse_flags strtoull (flag_i ∷ flags) s =
      parse_flags strtoull flags (record s { initial_entropy = true })
  parse_flags strtoull (flag_c ∷ flags) s =
      parse_flags strtoull flags (record s { initial_entropy = false })
  parse_flags strtoull (flag_a ∷ flags) s =
      parse_flags strtoull flags (record s { all_bits = true })
  parse_flags strtoull (flag_t ∷ flags) s =
      parse_flags strtoull flags (record s { all_bits = false })
  parse_flags strtoull (flag_v ∷ flags) s =
      parse_flags strtoull flags (record s { verbose = suc s.verbose })
  parse_flags strtoull (flag_q ∷ flags) s =
      parse_flags strtoull flags (record s { quiet_mode = true })
  parse_flags strtoull (flag_o ∷ flags) s =
      parse_flags strtoull flags (record s { json_output = true })
  parse_flags strtoull (flag_l optarg ∷ flags) s = elim (parse_subset strtoull optarg) [
    | none ↦ stop (abandon s usage bad_subset)
    | some (index, size) ↦
        parse_flags strtoull flags (record s { subset_index = index; subset_size = size })
  ]
  parse_flags strtoull (flag_unknown ∷ flags) s = stop (plain usage)

  -- The width where a second operand gives it, else 0; `atoi` gives none for a negative number.
  unfoldable pub width_of :
      (atoi : List ℕ → Option ℕ) → Settings → (operands : List (List ℕ)) → Step C ℕ
  unfolding abandon
  width_of atoi s (file_path ∷ []) = continue_with 0
  width_of atoi s (file_path ∷ bits ∷ []) = elim (atoi bits) [
    | none ↦ stop (abandon s usage bad_width)
    | some n ↦ if ltb n 1 || ltb 8 n then stop (abandon s usage bad_width) else continue_with n
  ]
  width_of atoi s _ = stop (plain usage)

  -- The samples of the file, as the tests get them.
  unfoldable pub load : Settings → (word_size : ℕ) → Host → Step C DataT
  unfolding abandon
  load s word_size file = elim (read_file_subset s.subset_index s.subset_size word_size file) [
    | failed e ↦ stop (abandon s usage (unreadable e))
    | done data_t ↦
        if leb data_t.alph_size 1
        then stop (abandon s failure single_symbol)
        else continue_with (limit_bits s data_t)
  ]
