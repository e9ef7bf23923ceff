-- ===== src/Crypto/Signing/Bindings.antt =====
-- The keys and the hasher as src/python.cc gives them to Python: digests are texts.
use buenzli_coin.Base.{
  ℕ, Bool, true, false, ◌≡◌, refl, sym, ap, ◌∙◌, subst, if◌then◌else◌, Option, none, some, Bytes,
}
use buenzli_coin.Base.Int.{pos}
use buenzli_coin.Base.Exec.{
  Result, ok, err, done, map_exec, map_result, Error, done-injective, ok-injective,
}
use buenzli_coin.Crypto.Digest.{Digest, to_string, from_string}
use buenzli_coin.Crypto.Digest.Hex.{IsBytes, from_string-to_string}
use buenzli_coin.Crypto.Keypair.{is_one, build_key, public_header, public_footer}
use buenzli_coin.Crypto.Keypair as Keypair
use buenzli_coin.Crypto.Signing.{
  Evp, to_ssl, LiveObjects, Ends, sign, verify_live, private_header, private_footer,
}
use buenzli_coin.Crypto.Signing.Objects.{sign_result, Fits, verify_live-EndsWith, sign-EndsWith}

-- `Digest::from_string`, and then what is done with the digest.
abbrev pub with_digest :
    {A : Type 0} → Result Digest → LiveObjects → (Digest → LiveObjects → Ends A) → Ends A
with_digest (ok d) live rest = rest d live
with_digest (err e) live rest = done (live, err e)

abbrev pub as_text : Ends Digest → Ends Bytes
as_text m = map_exec (λ r. (r.0, map_result to_string r.1)) m

module _ (evp : Evp) where
  -- ECSecp256k1PrivateKey.sign
  unfoldable pub python_sign : Bytes → Bytes → ℕ → LiveObjects → Ends Bytes
  unfolding sign from_string to_string
  python_sign address hash n live =
      with_digest (from_string hash) live λ h l. as_text (sign evp address h n l)

  -- ECSecp256k1PublicKey.verify
  unfoldable pub python_verify : Bytes → Bytes → Bytes → LiveObjects → Ends Bool
  unfolding verify_live from_string
  python_verify address hash sig live =
      with_digest (from_string hash) live
        λ h l. with_digest (from_string sig) l λ s l'. verify_live evp address h s l'

  open evp use {
    EcKey, read_private_key, read_public_key, assign_key, new_context, verify_init, evp_sign,
    evp_verify, sign_init,
  }

  -- A pair of keys: OpenSSL takes the public one, accepts with it what the private one signs, and
  -- stores bytes.
  pub record IsKeyPair (private public : Bytes) : Type 0 where
    pub key : EcKey
    pub reads : read_public_key (build_key public public_header public_footer) ≡ some key
    pub assigns : is_one (assign_key key) ≡ true
    pub has_context : new_context key ≡ true
    pub inits : is_one (verify_init key) ≡ true
    pub accepts :
        (k : EcKey) (h : Digest) (n : ℕ)
        → read_private_key (build_key private private_header private_footer) ≡ some k
        → is_one (evp_sign k h n).0 ≡ true
        → evp_verify key (evp_sign k h n).1 h ≡ pos 1
    pub stores : (k : EcKey) (h : Digest) (n : ℕ) → IsBytes (evp_sign k h n).1

  if-eq-ok :
      {A : Type 0} (b : Bool) (m : Result A) (e : Error) {a : A}
      → (if b then m else err e) ≡ ok a
      → (b ≡ true) × (m ≡ ok a)
  if-eq-ok true m e h = (refl, h)
  if-eq-ok false m e h = cc

  sign_result-eq-ok :
      (h : Digest) (n : ℕ) (o : Option EcKey) (s : Digest)
      → sign_result evp h n o ≡ ok s
      → (k : EcKey) × (o ≡ some k) × (is_one (evp_sign k h n).0 ≡ true) × ((evp_sign k h n).1 ≡ s)
  sign_result-eq-ok h n none s e = cc
  sign_result-eq-ok h n (some k) s e =
      let a = if-eq-ok (is_one (assign_key k)) _ _ e in
      let c = if-eq-ok (new_context k) _ _ a.1 in
      let i = if-eq-ok (is_one (sign_init k)) _ _ c.1 in
      let g = if-eq-ok (is_one (evp_sign k h n).0) _ _ i.1 in (k, refl, g.0, ok-injective g.1)

  map_result-eq-ok :
      (r : Result Digest) (text : Bytes)
      → map_result to_string r ≡ ok text
      → (s : Digest) × (r ≡ ok s) × (to_string s ≡ text)
  map_result-eq-ok (ok s) text e = (s, refl, ok-injective e)
  map_result-eq-ok (err x) text e = cc

  module _ (private public : Bytes) (pair : IsKeyPair private public) (fits : Fits evp)
      (has_pkey : evp.new_pkey ≡ true)
      (opens_private : evp.new_bio (build_key private private_header private_footer) ≡ true)
      (opens_public : evp.new_bio (build_key public public_header public_footer) ≡ true) where
    verifies :
        (h s : Digest)
        → evp_verify pair.key s h ≡ pos 1
        → Keypair.verify (to_ssl (λ b. b) evp) public h s ≡ ok true
    unfolding Keypair.verify Keypair.verify_key Keypair.verify_status
    verifies h s good =
        rw (Keypair.verify, pair.reads, pair.assigns, pair.has_context, pair.inits, good) refl

    accepted :
        (h : Digest) (n : ℕ) (s : Digest) (live : LiveObjects)
        → sign_result evp h n (read_private_key (build_key private private_header private_footer))
          ≡ ok s
        → (live' : LiveObjects) × (verify_live evp public h s live ≡ done (live', ok true))
          × IsBytes s
    accepted h n s live e =
        let (k, reads, signs, stores) = sign_result-eq-ok h n _ s e in
        let (live', ends, _) =
          verify_live-EndsWith evp (λ b. b) public h s live opens_public has_pkey in
        let good =
          subst (λ x. evp_verify pair.key x h ≡ pos 1) stores (pair.accepts k h n reads signs) in
        (
          live',
          ends ∙ ap (λ r. done (live', r)) (verifies h s good),
          subst IsBytes stores (pair.stores k h n),
        )

    signed_text :
        (r : Result Digest) (n : ℕ) (text : Bytes) (live live' : LiveObjects)
        → with_digest r live (λ h l. as_text (sign evp private h n l)) ≡ done (live', ok text)
        → (h : Digest) × (r ≡ ok h)
          × (s : Digest) × (to_string s ≡ text)
          × (sign_result evp h n
                (read_private_key (build_key private private_header private_footer))
              ≡ ok s)
    signed_text (err x) n text live live' e = cc
    signed_text (ok h) n text live live' e =
        let (l, ends, _) =
          sign-EndsWith evp (λ b. b) private h n live fits opens_private has_pkey in
        let out = ap (λ p. p.1) (done-injective (sym (ap as_text ends) ∙ e)) in
        let (s, is, prints) = map_result-eq-ok _ text out in (h, refl, s, prints, is)

    -- For a pair of keys, whose signatures fit into 100 bytes, and where memory suffices for the BIOs and
    -- the EVP_PKEY: the text that the binding `sign` returns for the text of a hash is accepted by the
    -- binding `verify` for the same text, whatever the variable `sig_length` held.
    pub python_sign-verify :
        (hash text : Bytes) (n : ℕ) (live live' later : LiveObjects)
        → python_sign private hash n live ≡ done (live', ok text)
        → (later' : LiveObjects) × (python_verify public hash text later ≡ done (later', ok true))
    unfolding python_sign python_verify
    python_sign-verify hash text n live live' later e =
        let (h, is, s, prints, signs) = signed_text (from_string hash) n text live live' e in
        let (later', ends, bytes) = accepted h n s later signs in
        (later', rw (is, sym prints, from_string-to_string s bytes) ends)
