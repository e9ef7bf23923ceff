-- ===== src/Crypto/Keypair.antt =====
-- include/crypto/keypair.h and include/crypto/hash.h: keys in PEM form and the calls of OpenSSL,
-- which are parameters.
use mathlib.Core.List.{append-nil, append_assoc}
use buenzli_coin.Base.{
  ◌≤◌, ◌≢◌, ◌∙◌, sym, ℕ, zero, suc, ◌+◌, ◌%◌, ◌≡◌, Bool, true, false, inl, inr, Option, none, some,
  [], ◌∷◌, ◌++◌, arith, ◌==◌, if◌then◌else◌, Bool-cases, Bytes, codes, length, length-append,
}
use buenzli_coin.Base.Int.{ℤ, pos, negsuc}
use buenzli_coin.Base.Exec.{Result, ok, err, unparsable_public_key, bad_alloc, library}
use buenzli_coin.Crypto.Digest.{Digest}

-- The OpenSSL calls: SHA-256 (EVP_DigestInit_ex to EVP_DigestFinal_ex), the PEM reader (nothing for
-- a null pointer), the calls that return a status, and the error text. Only running out of memory in
-- EVP_PKEY_new and in the BIO is left out.
pub record OpenSsl : Type 1 where
  pub sha256 : Bytes → Digest
  pub EcKey : Type 0
  pub read_public_key : Bytes → Option EcKey
  pub assign_key : EcKey → ℤ
  pub new_context : EcKey → Bool
  pub verify_init : EcKey → ℤ
  pub evp_verify : EcKey → Digest → Digest → ℤ
  pub error_string : Bytes

abbrev pub is_one : ℤ → Bool
is_one (pos n) = n == 1
is_one (negsuc n) = false

-- `while (key.length() % 4 != 0) key.push_back('=')`; three rounds are enough.
unfoldable pub pad : ℕ → Bytes → Bytes
pad zero key = key
pad (suc fuel) key =
    let rest = pad fuel (key ++ b'=' ∷ []) in if length key % 4 == 0 then key else rest

unfoldable pub build_key : Bytes → Bytes → Bytes → Bytes
unfolding pad
build_key key header footer = header ++ (10 ∷ (pad 3 key ++ (10 ∷ footer)))

abbrev pub public_header : Bytes
public_header = codes "-----BEGIN PUBLIC KEY-----"

abbrev pub public_footer : Bytes
public_footer = codes "-----END PUBLIC KEY-----"

module _ (ssl : OpenSsl) where
  open ssl use {
    read_public_key, assign_key, new_context, verify_init, evp_verify, error_string, EcKey,
  }

  -- What follows the switch on the status of EVP_PKEY_verify.
  unfoldable pub verify_status : ℤ → Result Bool
  verify_status (pos zero) = ok false
  verify_status (pos (suc zero)) = ok true
  verify_status (pos (suc (suc n))) = err (library error_string)
  verify_status (negsuc n) = err (library error_string)

  unfoldable pub verify_key : EcKey → Digest → Digest → Result Bool
  unfolding verify_status
  verify_key key hash sig =
      if is_one (assign_key key)
      then if new_context key
        then if is_one (verify_init key)
          then verify_status (evp_verify key sig hash)
          else err (library error_string)
        else err bad_alloc
      else err (library error_string)

  -- `public_key key { address }; key.verify(hash, signature)`
  unfoldable pub verify : Bytes → Digest → Digest → Result Bool
  unfolding verify_key build_key
  verify address hash sig = elim (read_public_key (build_key address public_header public_footer)) [
    | none ↦ err unparsable_public_key
    | some key ↦ verify_key key hash sig
  ]

abbrev pub equals_signs : ℕ → Bytes
equals_signs zero = []
equals_signs (suc n) = b'=' ∷ equals_signs n

abbrev Padded : Bytes → ℕ → Bytes → Type 0
Padded key bound r =
    (k : ℕ) × (r ≡ key ++ equals_signs k) × (k ≤ bound) × ((length key + k) % 4 ≡ 0)

Padded-suc :
    (key : Bytes) (bound : ℕ) (r : Bytes)
    → Padded (key ++ b'=' ∷ []) bound r
    → Padded key (suc bound) r
Padded-suc key bound r (k, e, le, m) = (
  suc k,
  e ∙ append_assoc key (b'=' ∷ []) (equals_signs k),
  omega arith,
  omega (arith, m, length-append key (b'=' ∷ [])),
)

pad-Padded :
    (fuel : ℕ) (key : Bytes)
    → (length key % 4 ≢ 0 → 4 ≤ fuel + length key % 4)
    → Padded key fuel (pad fuel key)
unfolding pad
pad-Padded zero key h = (0, sym (append-nil key), omega arith, ground arith)
pad-Padded (suc fuel) key h = elim (Bool-cases (length key % 4 == 0)) [
  | inl e ↦ rw e (0, sym (append-nil key), omega arith, ground arith)
  | inr e ↦ rw e (
      Padded-suc key fuel _
        (pad-Padded fuel (key ++ b'=' ∷ []) (ground (arith, length-append key (b'=' ∷ [])))))
]

-- The padding loop appends at most three '=' to a key, and the result has a length that four
-- divides.
pub pad_lem :
    (key : Bytes)
    → (k : ℕ) × (pad 3 key ≡ key ++ equals_signs k) × (k ≤ 3) × ((length key + k) % 4 ≡ 0)
pad_lem key = pad-Padded 3 key (λ h. omega arith)
