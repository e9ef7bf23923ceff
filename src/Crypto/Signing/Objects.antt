-- ===== src/Crypto/Signing/Objects.antt =====
-- Which objects of OpenSSL the calls of include/crypto/keypair.h leave.
use buenzli_coin.Base.{
  ℕ, suc, zero, Bool, true, ◌≡◌, ◌≢◌, refl, Bool-cases, inl, inr, Option, none, some, leb, length,
  if◌then◌else◌, Bytes,
}
use buenzli_coin.Base.Int.{ℤ, pos, negsuc}
use buenzli_coin.Base.Exec.{
  Result, ok, err, done, bad_alloc, unparsable_public_key, unparsable_private_key, library,
}
use buenzli_coin.Crypto.Digest.{Digest}
use buenzli_coin.Crypto.Keypair.{OpenSsl, is_one, build_key, public_header, public_footer}
use buenzli_coin.Crypto.Keypair as Keypair
use buenzli_coin.Crypto.Signing.{
  Evp, to_ssl, LiveObjects, with_key, Ends, error_label, read_key, prepare, free_both, after_sign,
  sign_key, sign, after_status, verify_key_live, verify_live, private_header, private_footer,
}

-- The BIO is left, the context is not, and the EVP_PKEY is only after std::bad_alloc.
abbrev pub Leaves : {A : Type 0} → LiveObjects → LiveObjects → Result A → Type 0
Leaves live live' r =
    (live'.bios ≡ suc live.bios)
    × ((live'.contexts ≡ live.contexts)
        × ((r ≡ err bad_alloc → live'.pkeys ≡ suc live.pkeys)
            × (r ≢ err bad_alloc → live'.pkeys ≡ live.pkeys)))

-- The call has a defined end with this result, and leaves these objects.
abbrev pub EndsWith : {A : Type 0} → Ends A → LiveObjects → Result A → Type 0
EndsWith m live r = (live' : LiveObjects) × (m ≡ done (live', r)) × Leaves live live' r

module _ (evp : Evp) where
  open evp use {EcKey, error_string, assign_key, new_context, sign_init, evp_sign}

  -- What `sign` returns or throws where memory suffices for the BIO and the EVP_PKEY.
  abbrev pub signature : ℤ × Digest → Result Digest
  signature (status, sig) = if is_one status then ok sig else err (library error_string)

  abbrev pub sign_result : Digest → ℕ → Option EcKey → Result Digest
  sign_result hash n none = err unparsable_private_key
  sign_result hash n (some key) =
      if is_one (assign_key key)
      then if new_context key
        then if is_one (sign_init key)
          then signature (evp_sign key hash n)
          else err (library error_string)
        else err bad_alloc
      else err (library error_string)

  -- Every signature fits into `sig_data`.
  abbrev pub Fits : Type 0
  Fits =
      (key : EcKey) (hash : Digest) (n : ℕ)
      → is_one (evp_sign key hash n).0 ≡ true
      → leb (length (evp_sign key hash n).1) 100 ≡ true

module _ (evp : Evp) (sha256 : Bytes → Digest) where
  open evp use {
    EcKey, error_string, assign_key, new_context, verify_init, evp_verify, sign_init, evp_sign,
  }

  abbrev ssl : OpenSsl
  ssl = to_ssl sha256 evp

  -- A BIO has been made.
  abbrev opened : LiveObjects → LiveObjects
  opened live = record live { bios = suc live.bios }

  abbrev with_all : LiveObjects → LiveObjects
  with_all live = record {
    bios = suc live.bios;
    keys = suc live.keys;
    pkeys = suc live.pkeys;
    contexts = suc live.contexts;
  }

  freed :
      {A : Type 0} (live : LiveObjects) (r : Result A)
      → r ≢ err bad_alloc
      → Leaves live (opened live) r
  freed live r n = (refl, (refl, ((λ e. absurd (n e)), λ m. refl)))

  after_status-EndsWith :
      (status : ℤ) (live : LiveObjects)
      → EndsWith (after_status evp status (with_all live)) live (Keypair.verify_status ssl status)
  unfolding after_status free_both error_label Keypair.verify_status
  after_status-EndsWith (pos zero) live = (opened live, refl, freed live _ (λ e. cc))
  after_status-EndsWith (pos (suc zero)) live = (opened live, refl, freed live _ (λ e. cc))
  after_status-EndsWith (pos (suc (suc n))) live = (opened live, refl, freed live _ (λ e. cc))
  after_status-EndsWith (negsuc n) live = (opened live, refl, freed live _ (λ e. cc))

  verify_key_live-EndsWith :
      (hash sig : Digest) (key : EcKey) (live : LiveObjects)
      → evp.new_pkey ≡ true
      → EndsWith
          (verify_key_live evp hash sig (some key) (with_key (some key) (opened live)))
          live
          (Keypair.verify_key ssl key hash sig)
  unfolding verify_key_live prepare error_label Keypair.verify_key
  verify_key_live-EndsWith hash sig key live m = elim (Bool-cases (is_one (assign_key key))) [
    | inr a ↦ rw (m, a) (_, refl, (refl, (refl, ((λ e. cc), λ e. refl))))
    | inl a ↦ elim (Bool-cases (new_context key)) [
      | inr c ↦ rw (m, a, c) (_, refl, (refl, (refl, ((λ e. refl), λ e. absurd (e refl)))))
      | inl c ↦ elim (Bool-cases (is_one (verify_init key))) [
        | inr i ↦ rw (m, a, c, i) (opened live, refl, freed live _ (λ e. cc))
        | inl i ↦ rw (m, a, c, i) (after_status-EndsWith (evp_verify key sig hash) live)
      ]
    ]
  ]

  abbrev verify_read : Digest → Digest → Option EcKey → Result Bool
  verify_read hash sig o = elim o [
    | none ↦ err unparsable_public_key
    | some key ↦ Keypair.verify_key ssl key hash sig
  ]

  read-EndsWith :
      (hash sig : Digest) (o : Option EcKey) (live : LiveObjects)
      → evp.new_pkey ≡ true
      → EndsWith
          (verify_key_live evp hash sig o (with_key o (opened live)))
          live
          (verify_read hash sig o)
  unfolding verify_key_live
  read-EndsWith hash sig none live m = (opened live, refl, freed live _ (λ e. cc))
  read-EndsWith hash sig (some key) live m = verify_key_live-EndsWith hash sig key live m

  -- Where the BIO and the EVP_PKEY can be made, a call of `verify` has a defined end, with the result of
  -- `verify` of Keypair, on which the checks of transactions rest: no object is freed twice. But the BIO
  -- is never freed, nor is the EVP_PKEY if the call throws std::bad_alloc, and only then.
  pub verify_live-EndsWith :
      (address hash sig : Bytes) (live : LiveObjects)
      → evp.new_bio (build_key address public_header public_footer) ≡ true
      → evp.new_pkey ≡ true
      → EndsWith (verify_live evp address hash sig live) live (Keypair.verify ssl address hash sig)
  unfolding verify_live read_key Keypair.verify
  verify_live-EndsWith address hash sig live b m = rw b (
      read-EndsWith hash sig (evp.read_public_key (build_key address public_header public_footer))
        live m)

  after_sign-EndsWith :
      (r : ℤ × Digest) (live : LiveObjects)
      → (is_one r.0 ≡ true → leb (length r.1) 100 ≡ true)
      → EndsWith (after_sign evp r (with_all live)) live (signature evp r)
  unfolding after_sign free_both error_label
  after_sign-EndsWith (status, sig) live fits = elim (Bool-cases (is_one status)) [
    | inl i ↦ rw (i, fits i) (opened live, refl, freed live _ (λ e. cc))
    | inr i ↦ rw i (opened live, refl, freed live _ (λ e. cc))
  ]

  sign_key-EndsWith :
      (hash : Digest) (n : ℕ) (o : Option EcKey) (live : LiveObjects)
      → Fits evp
      → evp.new_pkey ≡ true
      → EndsWith (sign_key evp hash n o (with_key o (opened live))) live (sign_result evp hash n o)
  unfolding sign_key prepare error_label
  sign_key-EndsWith hash n none live fits m = (opened live, refl, freed live _ (λ e. cc))
  sign_key-EndsWith hash n (some key) live fits m = elim (Bool-cases (is_one (assign_key key))) [
    | inr a ↦ rw (m, a) (_, refl, (refl, (refl, ((λ e. cc), λ e. refl))))
    | inl a ↦ elim (Bool-cases (new_context key)) [
      | inr c ↦ rw (m, a, c) (_, refl, (refl, (refl, ((λ e. refl), λ e. absurd (e refl)))))
      | inl c ↦ elim (Bool-cases (is_one (sign_init key))) [
        | inr i ↦ rw (m, a, c, i) (opened live, refl, freed live _ (λ e. cc))
        | inl i ↦ rw (m, a, c, i) (after_sign-EndsWith (evp_sign key hash n) live (fits key hash n))
      ]
    ]
  ]

  -- The same for `sign`.
  pub sign-EndsWith :
      (address hash : Bytes) (n : ℕ) (live : LiveObjects)
      → Fits evp
      → evp.new_bio (build_key address private_header private_footer) ≡ true
      → evp.new_pkey ≡ true
      → EndsWith (sign evp address hash n live) live (
          sign_result evp hash n
            (evp.read_private_key (build_key address private_header private_footer)))
  unfolding sign read_key
  sign-EndsWith address hash n live fits b m = rw b (
      sign_key-EndsWith hash n
        (evp.read_private_key (build_key address private_header private_footer)) live fits m)
