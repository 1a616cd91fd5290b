-- ===== src/Assess/Restart/Program.antt =====
-- cpp/restart_main.cpp: `main`, with the files, the arguments and the memory as arguments.
use is_there_entropy_down_th.Common.{
  ℕ, not, ◌||◌, Option, none, some, List, [], ◌∷◌, ◌++◌, if◌then◌else◌, ltb, leb, ◌==◌, ◌>>=◌,
}
use is_there_entropy_down_th.Assess.Arguments.{asks_version}
use is_there_entropy_down_th.Assess.Estimates.{Double}
use is_there_entropy_down_th.Assess.Estimates.Constant.{two}
use is_there_entropy_down_th.Assess.Minimum.{smaller}
use is_there_entropy_down_th.Assess.Samples.{DataT, Host, read_file}
use is_there_entropy_down_th.Assess.Samples.ReadResult.{done, failed}
use is_there_entropy_down_th.Assess.Matrix.{larger, max_row_count, max_column_count}
use is_there_entropy_down_th.Assess.Stats.{calc_stats}
use is_there_entropy_down_th.Assess.Restart.{
  Opt, Options, default_options, parse_options, Message, Exit, TestCase, Ending, Suite, Heights,
  no_result,
}
use is_there_entropy_down_th.Assess.Restart.TestName.{overall}
use is_there_entropy_down_th.Assess.Restart.Message.{
  invalid_bits_per_symbol, h_i_negative, h_i_too_large, one_symbol, wrong_size, no_memory_columns,
  sanity_check_failed, validation_failed, not_read,
}
use is_there_entropy_down_th.Assess.Restart.Exit.{usage, failure, success}
use is_there_entropy_down_th.Assess.Restart.Stages.{estimate_mode, estimate_non_iid, test_iid}

-- `int r = 1000, c = 1000`, and `MIN_SIZE`
abbrev pub restarts : ℕ
restarts = 1_000

abbrev pub min_size : ℕ
min_size = 1_000_000

module _ (d : Double) where
  open d use {Value, literal, of_long, divide, less}

  -- `getopt`, `atoi`, where none is a negative number, `atof`, the file of a name, and what
  -- `malloc` gives for the columns.
  pub record Machine : Type 0 where
    pub getopt : List (List ℕ) → List Opt × List (List ℕ)
    pub atoi : List ℕ → Option ℕ
    pub atof : List ℕ → Value
    pub file : (file_path : List ℕ) → Host
    pub malloc : (bytes : ℕ) → Option (List ℕ)
    pub suite : Suite d

  -- A message goes into the JSON document, where one was asked for.
  unfoldable pub fail : Options → Exit → Message → (cases : List (TestCase d)) → Ending d
  fail o exit message cases = record {
    exit = exit;
    output =
        if o.json_output
        then some (record { is_iid = o.iid; error = some message; test_cases = cases })
        else none;
  }

  abbrev pub bare : Exit → Ending d
  bare exit = record { exit = exit; output = none }

  -- `min(H_r, H_c) < H_I / 2.0`, and the documents at the end.
  unfoldable pub validate :
      Options → (h_i : Value) → (iid_cases : List (TestCase d)) → TestCase d → Heights d → Ending d
  unfolding fail
  validate o h_i iid_cases overall_iid h =
      if less (smaller d h.height_r h.height_c) (divide h_i (literal two))
      then fail o failure validation_failed (if o.iid then iid_cases else h.cases)
      else record {
        exit = success;
        output =
            if o.json_output
            then some (record {
              is_iid = o.iid;
              error = none;
              test_cases =
                  if o.iid
                  then iid_cases ++ overall_iid ∷ []
                  else h.cases
                    ++ record (no_result d overall) {
                      h_r = some h.height_r;
                      h_c = some h.height_c;
                      h_i = some h_i;
                    }
                      ∷ [];
            })
            else none;
      }

  -- Behind the sanity check. Without `-i` the case of the whole IID run is not filled in and not
  -- written.
  unfoldable pub assess :
      Suite d → Options → (h_i : Value) → DataT → (cdata : List ℕ) → Option (Ending d)
  unfolding validate
  assess suite o h_i data_t cdata = do
    stats ← calc_stats d data_t
    h ← estimate_mode d suite data_t cdata
    some (
        validate o h_i h.cases
          (if o.iid
            then test_iid d suite data_t cdata stats.0 stats.1 h_i h
            else no_result d overall)
          (if o.iid then h else estimate_non_iid d suite data_t cdata h))

  -- The rows and columns of 1000 restarts, and the sanity check.
  unfoldable pub check_counts :
      Suite d → Options → (h_i : Value) → DataT → (memory : List ℕ) → Option (Ending d)
  unfolding assess
  check_counts suite o h_i data_t memory = do
    x_r ← max_row_count restarts restarts data_t.symbols
    columns ← max_column_count restarts restarts data_t.symbols memory
    let rest = assess suite o h_i data_t columns.0 in
        if ltb (suite.simulate_bound data_t.alph_size h_i) (larger x_r columns.1)
        then some (fail o failure sanity_check_failed [])
        else rest

  -- The checks of what was read.
  unfoldable pub check_data : Machine → Options → (h_i : Value) → DataT → Option (Ending d)
  unfolding check_counts
  check_data machine o h_i data_t =
      if less (of_long data_t.word_size) h_i
      then some (fail o failure h_i_too_large [])
      else if leb data_t.alph_size 1
      then some (fail o failure one_symbol [])
      else if not (data_t.len == min_size)
      then some (fail o failure wrong_size [])
      else elim (machine.malloc data_t.len) [
        | none ↦ some (fail o failure no_memory_columns [])
        | some memory ↦ check_counts machine.suite o h_i data_t memory
      ]

  -- From the entropy estimate on; the file is read in the width that was given, or 0.
  unfoldable pub check_file :
      Machine → Options → (file_path : List ℕ) → (word_size : ℕ) → (h_i : Value) → Option (Ending d)
  unfolding check_data
  check_file machine o file_path word_size h_i =
      if less h_i (of_long 0)
      then some (fail o usage h_i_negative [])
      else elim (read_file word_size (machine.file file_path)) [
        | failed e ↦ some (fail o usage (not_read e) [])
        | done data_t ↦ check_data machine o h_i data_t
      ]

  -- The operands: a file, its width if there are three, and the entropy estimate.
  unfoldable pub check_operands : Machine → Options → List (List ℕ) → Option (Ending d)
  unfolding check_file
  check_operands machine o (file_path ∷ bits ∷ h_i ∷ []) = elim (machine.atoi bits) [
    | none ↦ some (fail o usage invalid_bits_per_symbol [])
    | some word_size ↦
        if ltb word_size 1 || ltb 8 word_size
        then some (fail o usage invalid_bits_per_symbol [])
        else check_file machine o file_path word_size (machine.atof h_i)
  ]
  check_operands machine o (file_path ∷ h_i ∷ []) =
      check_file machine o file_path 0 (machine.atof h_i)
  check_operands machine o _ = some (bare usage)

-- `main`, on the arguments with the name of the program.
unfoldable pub main : (d : Double) → Machine d → (argv : List (List ℕ)) → Option (Ending d)
unfolding parse_options check_operands
main d machine argv =
    let (opts, operands) = machine.getopt argv in
    if asks_version argv then some (bare d success) else elim (parse_options opts default_options) [
      | none ↦ some (bare d usage)
      | some o ↦ check_operands d machine o operands
    ]
