-- ===== src/Assess/Digest.antt =====
-- cpp/shared/TestRunUtils.h: the hash of the input file that the documents carry. OpenSSL and the file
-- are arguments.
use is_there_entropy_down_th.Common.{
  ℕ, zero, suc, ◌+◌, ◌/◌, ◌%◌, Bool, true, false, not, Option, none, some, List, [], ◌∷◌, ◌++◌,
  if◌then◌else◌, ltb, ◌==◌, length, take, drop,
}
pub mod Chunks
pub mod Tests

-- `EVP_MD_CTX_new`, `EVP_DigestInit_ex`, `EVP_DigestUpdate` and `EVP_DigestFinal_ex`, where none is a
-- failure.
pub record Evp : Type 1 where
  pub Context : Type 0
  pub new_context : Option Context
  pub digest_init : Context → Option Context
  pub digest_update : Context → List ℕ → Option Context
  pub digest_final : Context → Option (List ℕ)

-- The file: whether it opens, its bytes, and whether the k-th `fread` sets the error flag.
pub record Input : Type 0 where
  pub opens : Bool
  pub content : List ℕ
  pub read_error : ℕ → Bool

abbrev pub buf_size : ℕ
buf_size = 32_768

-- The bytes not read yet and `feof`, which a read past the end sets.
pub record Stream : Type 0 where
  pub left : List ℕ
  pub eof : Bool

-- `fread(buffer, 1, bufSize, file)`
abbrev pub fread : Stream → List ℕ × Stream
fread s = (
  take buf_size s.left,
  record { left = drop buf_size s.left; eof = ltb (length s.left) buf_size },
)

pub data Hashing {ℓ} (A : Type ℓ) : Type ℓ where
  hashed : A → Hashing A
  hash_failed out_of_fuel : Hashing A

-- One read for each full buffer, one more that sets `feof`, and the last test.
abbrev pub reads : List ℕ → ℕ
reads content = length content / buf_size + 2

module _ (evp : Evp) where
  -- `if(bytesRead > 0)`
  abbrev pub absorb_read : evp.Context → List ℕ → Option evp.Context
  absorb_read mdctx [] = some mdctx
  absorb_read mdctx (x ∷ bytes) = evp.digest_update mdctx (x ∷ bytes)

  -- `while(!feof(file))`, with k reads done.
  unfoldable pub hash_loop :
      (fuel : ℕ) → (read_error : ℕ → Bool) → (k : ℕ) → Stream → evp.Context → Hashing evp.Context
  hash_loop zero read_error k s mdctx = out_of_fuel
  hash_loop (suc fuel) read_error k s mdctx =
      let (bytes, s') = fread s in
      elim s.eof [
        | true ↦ hashed mdctx
        | false ↦ elim (read_error k) [
          | true ↦ hash_failed
          | false ↦ elim (absorb_read mdctx bytes) [
            | none ↦ hash_failed
            | some mdctx' ↦ hash_loop fuel read_error (suc k) s' mdctx'
          ]
        ]
      ]

-- `%02x` of a byte, in ASCII.
pub hex_digit : ℕ → ℕ
hex_digit n = if ltb n 10 then 48 + n else 87 + n

pub sha256_hash_string : (hash : List ℕ) → List ℕ
unfolding hex_digit
sha256_hash_string [] = []
sha256_hash_string (b ∷ hash) = hex_digit (b / 16) ∷ hex_digit (b % 16) ∷ sha256_hash_string hash

abbrev pub finish_hash : (evp : Evp) → Hashing evp.Context → Hashing (List ℕ)
finish_hash evp (hashed mdctx) = elim (evp.digest_final mdctx) [
  | none ↦ hash_failed
  | some digest ↦ hashed (sha256_hash_string digest)
]
finish_hash evp hash_failed = hash_failed
finish_hash evp out_of_fuel = out_of_fuel

-- The result -1 is `hash_failed`, and the output buffer is then as before.
unfoldable pub sha256_file : (evp : Evp) → (fuel : ℕ) → Input → Hashing (List ℕ)
unfolding hash_loop sha256_hash_string
sha256_file evp fuel input = if not input.opens then hash_failed else elim evp.new_context [
  | none ↦ hash_failed
  | some fresh ↦ elim (evp.digest_init fresh) [
    | none ↦ hash_failed
    | some mdctx ↦
        finish_hash evp (
          hash_loop evp fuel input.read_error 0 (record { left = input.content; eof = false })
            mdctx)
  ]
]
