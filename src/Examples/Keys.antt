-- ===== src/Examples/Keys.antt =====
-- Calls of OpenSSL on which include/crypto/keypair.h and include/crypto/hash.h run.
use buenzli_coin.Base.{
  ◌↔◌, ℕ, ◌≡◌, refl, true, leb, [], ◌∷◌, some, Bytes, bytes_eq, codes, if◌then◌else◌, Bool-cases,
  inl, inr, arith,
}
use buenzli_coin.Base.Int.{ℤ, pos}
use buenzli_coin.Base.Exec.{ok, done}
use buenzli_coin.Crypto.Digest.{Digest, from_string, char_to_nibble, to_string, hex_digit}
use buenzli_coin.Crypto.Digest.Hex.{IsBytes}
use buenzli_coin.Crypto.Hash.{MessageDigest, hash, Hashed, hash_iff}
use buenzli_coin.Crypto.Keypair.{is_one, build_key}
use buenzli_coin.Crypto.Keypair as Keypair
use buenzli_coin.Crypto.Signing.{
  Evp, to_ssl, LiveObjects, verify_live, sign, read_key, sign_key, prepare, after_sign, free_both,
}
use buenzli_coin.Crypto.Signing.Bindings.{IsKeyPair, python_sign, python_verify, python_sign-verify}
use buenzli_coin.Crypto.Signing.Objects.{EndsWith, Fits, verify_live-EndsWith}

-- A signature is one byte, for which `sig_length` must leave room.
abbrev store : ℕ → ℤ × Digest
store n = if leb 1 n then (pos 1, 7 ∷ []) else (pos 0, [])

abbrev evp : Evp
evp = record {
  EcKey = Bytes;
  new_bio = λ pem. true;
  read_private_key = some;
  read_public_key = some;
  new_pkey = true;
  assign_key = λ key. pos 1;
  new_context = λ key. true;
  sign_init = λ key. pos 1;
  evp_sign = λ key hash n. store n;
  verify_init = λ key. pos 1;
  evp_verify = λ key sig hash. if bytes_eq sig (7 ∷ []) then pos 1 else pos 0;
  error_string = codes "error";
}

abbrev none_live : LiveObjects
none_live = record { bios = 0; keys = 0; pkeys = 0; contexts = 0 }

verify_live-EndsWith_example :
    EndsWith
      (verify_live evp (codes "key") (3 ∷ []) (7 ∷ []) none_live)
      none_live
      (Keypair.verify (to_ssl (λ b. b) evp) (codes "key") (3 ∷ []) (7 ∷ []))
verify_live-EndsWith_example =
    verify_live-EndsWith evp (λ b. b) (codes "key") (3 ∷ []) (7 ∷ []) none_live refl refl

fits : Fits evp
fits key hash n = elim (Bool-cases (leb 1 n)) [ inl e ↦ rw e (λ h. refl) | inr e ↦ rw e (λ h. cc) ]

accepts : (n : ℕ) → is_one (store n).0 ≡ true → evp.evp_verify [] (store n).1 [] ≡ pos 1
unfolding bytes_eq
accepts n = elim (Bool-cases (leb 1 n)) [ inl e ↦ rw e (λ h. refl) | inr e ↦ rw e (λ h. cc) ]

stores : (n : ℕ) → IsBytes (store n).1
stores n = elim (Bool-cases (leb 1 n)) [ inl e ↦ rw e (omega arith, tt) | inr e ↦ rw e tt ]

abbrev pair : IsKeyPair evp (codes "private") (codes "public")
pair = record {
  key = build_key (codes "public") Keypair.public_header Keypair.public_footer;
  reads = refl;
  assigns = refl;
  has_context = refl;
  inits = refl;
  accepts = λ k h n e. accepts n;
  stores = λ k h n. stores n;
}

signs :
    python_sign evp (codes "private") (codes "03") 72 none_live
    ≡ done (record { bios = 1; keys = 0; pkeys = 0; contexts = 0 }, ok (codes "07"))
unfolding python_sign sign from_string char_to_nibble to_string hex_digit read_key sign_key prepare
    after_sign free_both
signs = refl

python_sign-verify_example :
    (later : LiveObjects) × (python_verify evp (codes "public") (codes "03") (codes "07") none_live
      ≡ done (later, ok true))
python_sign-verify_example =
    python_sign-verify evp (codes "private") (codes "public") pair fits refl refl refl (codes "03")
      (codes "07") 72 none_live (record { bios = 1; keys = 0; pkeys = 0; contexts = 0 }) none_live
      signs

-- 32 bytes, as many as those of SHA-256.
abbrev bytes32 : Digest
bytes32 = codes "0123456789abcdef0123456789abcdef"

abbrev md : MessageDigest
md = record {
  Context = Bytes;
  new_context = some [];
  init = λ c. (pos 1, []);
  update = λ c msg. (pos 1, msg);
  final = λ c. (pos 1, bytes32);
}

hash_iff_example :
    (hash md 2 (codes "ab") ≡ done (2, ok bytes32)) ↔ Hashed md 2 (codes "ab") [] 2 (ok bytes32)
hash_iff_example = hash_iff md 2 (codes "ab") [] 2 (ok bytes32) refl
