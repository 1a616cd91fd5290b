-- ===== src/Assess/Digest/Tests.antt =====
-- The hash of a short file, with a hash that keeps the bytes it has seen.
use mathlib.Core.List.{append-nil, append_assoc}
use is_there_entropy_down_th.Common.{
  ℕ, ◌≡◌, refl, true, false, some, List, [], ◌∷◌, ◌++◌, ◌==◌, arith,
}
use is_there_entropy_down_th.Assess.Digest.{
  Evp, Input, hashed, hash_failed, finish_hash, sha256_file,
}
use is_there_entropy_down_th.Assess.Digest.Chunks.{IsIncremental, sha256_file-absorb}

abbrev keeping : Evp
keeping = record {
  Context = List ℕ;
  new_context = some [];
  digest_init = λ c. some [];
  digest_update = λ c bytes. some (c ++ bytes);
  digest_final = λ c. some c;
}

keeping-IsIncremental : IsIncremental keeping (λ c bytes. c ++ bytes)
keeping-IsIncremental = record {
  update = λ c bytes. refl;
  append = λ c xs ys. append_assoc c xs ys;
  nothing = λ c. append-nil c;
}

abbrev input : Input
input = record { opens = true; content = 202 ∷ 9 ∷ []; read_error = λ k. false }

-- "ca09"
hex : sha256_file keeping 2 input ≡ hashed (99 ∷ 97 ∷ 48 ∷ 57 ∷ [])
unfolding sha256_file
hex = refl

-- An error of the first read.
broken : sha256_file keeping 2 (record input { read_error = λ k. k == 0 }) ≡ hash_failed
unfolding sha256_file
broken = refl

sha256_file-absorb_example :
    sha256_file keeping 2 input ≡ finish_hash keeping (hashed (202 ∷ 9 ∷ []))
sha256_file-absorb_example =
    sha256_file-absorb keeping (λ c bytes. c ++ bytes) input 2 [] [] keeping-IsIncremental
      (λ k. refl) refl refl refl (omega arith)
