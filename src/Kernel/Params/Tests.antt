-- ===== src/Kernel/Params/Tests.antt =====
-- Boot options on a kernel with room for two arguments and two environment entries.
use is_there_entropy_down_th.Common.{
  ℕ, ◌≡◌, ◌≢◌, ◌⊎◌, refl, Bool, false, Option, none, some, List, [], ◌∷◌, ◌++◌, arith,
}
use is_there_entropy_down_th.Kernel.Params.{Str, KernelParams, plain, quoted, set_env, strncmp_eq}
use is_there_entropy_down_th.Kernel.Params.Setup.{unknown_bootoption, main_table}
use is_there_entropy_down_th.Kernel.Params.Valid.{
  IsValid, unknown_bootoption-IsValid, main_table-AllKeep,
}
use is_there_entropy_down_th.Kernel.Params.Append.{set_env_replaces}
use is_there_entropy_down_th.Kernel.Params.Repair.{repair_env_string, repair_env_string-repaired}

abbrev foo : Str
foo = b'f' ∷ b'o' ∷ b'o' ∷ []

abbrev booting : KernelParams
booting = record {
  argv_init = some (b'i' ∷ []) ∷ none ∷ none ∷ none ∷ [];
  envp_init = some (foo ++ b'=' ∷ b'a' ∷ []) ∷ none ∷ none ∷ none ∷ [];
  panic_later = none;
  panic_param = none;
  execute_command = none;
  ramdisk_execute_command = none;
  reset_devices = false;
}

booting-IsValid : IsValid 2 2 booting
booting-IsValid = record {
  args_size = refl;
  envs_size = refl;
  args_end = λ e. refl;
  envs_end = λ e. refl;
}

abbrev prefix : Str → Str → ℕ → Bool
prefix line name n = strncmp_eq n line name

unknown_bootoption-IsValid_example :
    (k' : KernelParams) × (unknown_bootoption prefix
        (main_table 2)
        2
        2
        foo
        (plain (b'b' ∷ []))
        booting
      ≡ some k')
    × IsValid 2 2 k'
unknown_bootoption-IsValid_example =
    unknown_bootoption-IsValid 2 2 prefix (main_table 2) foo (plain (b'b' ∷ [])) booting
      (omega arith) (main_table-AllKeep 2 2) booting-IsValid

abbrev byte_a : ℕ
byte_a = b'a'

abbrev byte_b : ℕ
byte_b = b'b'

abbrev home : Str × Str
home = (b'H' ∷ b'O' ∷ b'M' ∷ b'E' ∷ [], b'/' ∷ [])

abbrev term : Str × Str
term = (b'T' ∷ b'E' ∷ b'R' ∷ b'M' ∷ [], b'l' ∷ b'i' ∷ b'n' ∷ b'u' ∷ b'x' ∷ [])

abbrev bar : Str × Str
bar = (b'b' ∷ [], b'c' ∷ [])

abbrev in_environment : List (Option Str) → KernelParams
in_environment more = record booting {
  envp_init =
      some (b'H' ∷ b'O' ∷ b'M' ∷ b'E' ∷ b'=' ∷ b'/' ∷ [])
      ∷ some (b'T' ∷ b'E' ∷ b'R' ∷ b'M' ∷ b'=' ∷ b'l' ∷ b'i' ∷ b'n' ∷ b'u' ∷ b'x' ∷ [])
      ∷ more;
}

set_env_replaces_example :
    (set_env 5 foo (plain (b'b' ∷ [])) (
        in_environment (
          some (foo ++ b'=' ∷ b'a' ∷ [])
          ∷ some (b'b' ∷ b'=' ∷ b'c' ∷ [])
          ∷ none
          ∷ none
          ∷ none
          ∷ []))
      ≡ some (
          in_environment (
            some (foo ++ b'=' ∷ b'b' ∷ [])
            ∷ some (b'b' ∷ b'=' ∷ b'c' ∷ [])
            ∷ none
            ∷ none
            ∷ none
            ∷ [])))
    × ((byte_b ≡ byte_a)
          × (set_env 5 foo (quoted (b'b' ∷ [])) (
                in_environment (
                  some (foo ++ b'=' ∷ b'a' ∷ [])
                  ∷ some (b'b' ∷ b'=' ∷ b'c' ∷ [])
                  ∷ none
                  ∷ none
                  ∷ none
                  ∷ []))
              ≡ some (
                  in_environment (
                    some (foo ++ b'=' ∷ b'b' ∷ [])
                    ∷ some (b'b' ∷ b'=' ∷ b'c' ∷ [])
                    ∷ none
                    ∷ none
                    ∷ none
                    ∷ [])))
        ⊎ (byte_b ≢ byte_a)
          × (set_env 5 foo (quoted (b'b' ∷ [])) (
                in_environment (
                  some (foo ++ b'=' ∷ b'a' ∷ [])
                  ∷ some (b'b' ∷ b'=' ∷ b'c' ∷ [])
                  ∷ none
                  ∷ none
                  ∷ none
                  ∷ []))
              ≡ some (
                  in_environment (
                    some (foo ++ b'=' ∷ b'a' ∷ [])
                    ∷ some (b'b' ∷ b'=' ∷ b'c' ∷ [])
                    ∷ some (foo ++ b'=' ∷ b'b' ∷ [])
                    ∷ none
                    ∷ none
                    ∷ []))))
set_env_replaces_example =
    set_env_replaces 5
      (in_environment
        (some (foo ++ b'=' ∷ b'a' ∷ []) ∷ some (b'b' ∷ b'=' ∷ b'c' ∷ []) ∷ none ∷ none ∷ none ∷ []))
      foo [] [] b'b' b'a' (home ∷ term ∷ []) (bar ∷ []) (none ∷ none ∷ [])
      (omega arith, (omega arith, (omega arith, tt)))
      (
        ((λ e. cc), (omega arith, (omega arith, (omega arith, (omega arith, tt))))),
        (((λ e. cc), (omega arith, (omega arith, (omega arith, (omega arith, tt))))), tt),
      )
      (((λ e. cc), (omega arith, tt)), tt) (omega arith) refl

repair_env_string-repaired_example :
    (repair_env_string (9 ∷ 102 ∷ 0 ∷ 120 ∷ 0 ∷ 7 ∷ []) 1 (some 3)
      ≡ some (9 ∷ 102 ∷ 61 ∷ 120 ∷ 0 ∷ 7 ∷ []))
    × (repair_env_string (9 ∷ 102 ∷ 0 ∷ 34 ∷ 120 ∷ 0 ∷ 7 ∷ []) 1 (some 4)
        ≡ some (9 ∷ 102 ∷ 61 ∷ 120 ∷ 0 ∷ 0 ∷ 7 ∷ []))
repair_env_string-repaired_example =
    repair_env_string-repaired (9 ∷ []) (102 ∷ []) (120 ∷ []) (7 ∷ []) 34 (omega arith)
      (omega arith)
