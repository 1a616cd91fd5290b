-- ===== src/Assess/Digest/Chunks.antt =====
-- The loop over the file ends, and hashes the whole of it.
use is_there_entropy_down_th.Common.{
  ℕ, zero, suc, ◌+◌, ◌-◌, ◌/◌, ◌≤◌, ◌≡◌, ◌∙◌, refl, sym, ap, Bool, true, false, some, List, [], ◌∷◌,
  ◌++◌, ltb, length, take, drop, arith, Bool-cases, inl, inr, take-append-drop, length-drop,
}
use is_there_entropy_down_th.Assess.Digest.{
  Evp, Input, buf_size, hashed, absorb_read, hash_loop, reads, finish_hash, sha256_file,
}

-- An incremental hash: an update never fails, two updates are one with the bytes of both, and one
-- with no bytes changes nothing.
pub record IsIncremental (evp : Evp) (absorb : evp.Context → List ℕ → evp.Context) : Type 0 where
  pub update :
      (c : evp.Context) (bytes : List ℕ) → evp.digest_update c bytes ≡ some (absorb c bytes)
  pub append : (c : evp.Context) (xs ys : List ℕ) → absorb (absorb c xs) ys ≡ absorb c (xs ++ ys)
  pub nothing : (c : evp.Context) → absorb c [] ≡ c

take_all : (n : ℕ) (xs : List ℕ) → length xs ≤ n → take n xs ≡ xs
take_all zero [] h = refl
take_all zero (x ∷ xs) h = absurd (omega arith)
take_all (suc n) [] h = refl
take_all (suc n) (x ∷ xs) h = ap (λ u. x ∷ u) (take_all n xs (omega arith))

fewer_reads :
    (n m fuel : ℕ)
    → ltb n buf_size ≡ false
    → m ≡ n - buf_size
    → n / buf_size + 2 ≤ suc fuel
    → m / buf_size + 2 ≤ fuel
fewer_reads n m fuel more e h =
    let whole : buf_size ≤ n = ground (arith, more) in omega (arith, whole, e, h)

module _ (evp : Evp) (absorb : evp.Context → List ℕ → evp.Context) (law : IsIncremental evp absorb)
    (read_error : ℕ → Bool) (works : (k : ℕ) → read_error k ≡ false) where
  absorb_read_lem :
      (c : evp.Context) (bytes : List ℕ) → absorb_read evp c bytes ≡ some (absorb c bytes)
  absorb_read_lem c [] = ap some (sym (law.nothing c))
  absorb_read_lem c (x ∷ bytes) = law.update c (x ∷ bytes)

  ended_loop :
      (fuel k : ℕ) (left : List ℕ) (c : evp.Context)
      → 1 ≤ fuel
      → hash_loop evp fuel read_error k (record { left = left; eof = true }) c ≡ hashed c
  unfolding hash_loop
  ended_loop zero k left c h = absurd (omega arith)
  ended_loop (suc fuel) k left c h = refl

  hash_loop-absorb :
      (fuel k : ℕ) (left : List ℕ) (c : evp.Context)
      → reads left ≤ fuel
      → hash_loop evp fuel read_error k (record { left = left; eof = false }) c
        ≡ hashed (absorb c left)
  unfolding hash_loop
  hash_loop-absorb zero k left c h = absurd (omega arith)
  hash_loop-absorb (suc fuel) k left c h =
      rw (works k, hash_loop)
        (rw (absorb_read_lem c (take buf_size left))
          (elim (Bool-cases (ltb (length left) buf_size)) [
            | inl last ↦ rw last (
                ended_loop fuel (suc k) (drop buf_size left) (absorb c (take buf_size left))
                  (omega arith)
                ∙ ap (λ u. hashed (absorb c u)) (take_all buf_size left (ground arith)))
            | inr more ↦
                let size = length-drop buf_size left in
                rw more (
                  hash_loop-absorb fuel (suc k) (drop buf_size left) (absorb c (take buf_size left))
                    (fewer_reads (length left) (length (drop buf_size left)) fuel more size h)
                  ∙ ap hashed (
                      law.append c (take buf_size left) (drop buf_size left)
                      ∙ ap (absorb c) (take-append-drop buf_size left)))
          ]))

-- Where no call fails the file is read to its end in one read for each full buffer of 32768 bytes and
-- one more, and the document gets the hash of all its bytes, as one update of them would give.
pub sha256_file-absorb :
    (evp : Evp) (absorb : evp.Context → List ℕ → evp.Context) (input : Input) (fuel : ℕ)
    (fresh mdctx : evp.Context)
    → IsIncremental evp absorb
    → ((k : ℕ) → input.read_error k ≡ false)
    → input.opens ≡ true
    → evp.new_context ≡ some fresh
    → evp.digest_init fresh ≡ some mdctx
    → reads input.content ≤ fuel
    → sha256_file evp fuel input ≡ finish_hash evp (hashed (absorb mdctx input.content))
unfolding sha256_file
sha256_file-absorb evp absorb input fuel fresh mdctx law works opens made started enough =
    rw opens (
      rw made (
        rw started (
          ap (finish_hash evp) (
            hash_loop-absorb evp absorb law input.read_error works fuel 0 input.content mdctx
              enough))))
