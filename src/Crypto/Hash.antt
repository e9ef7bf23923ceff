-- ===== src/Crypto/Hash.antt =====
-- Hasher::hash of include/crypto/hash.h, with its context, and as src/python.cc gives it to Python.
use buenzli_coin.Base.{
  ℕ, zero, suc, ◌≡◌, ◌↔◌, ◌≤◌, sym, ◌∙◌, arith, leb→le, ◌⊎◌, refl, true, Bool-cases, inl, inr,
  Option, none, some, leb, length, if◌then◌else◌, Bytes,
}
use buenzli_coin.Base.Int.{ℤ}
use buenzli_coin.Base.Exec.{Result, ok, err, Exec, done, undefined, bad_alloc, map_exec, map_result}
use buenzli_coin.Crypto.Digest.{Digest, to_string}
use buenzli_coin.Crypto.Keypair.{is_one}

-- The calls of OpenSSL: EVP_MD_CTX_new, and what the others return and make of the context;
-- EVP_DigestFinal_ex also stores the digest.
pub record MessageDigest : Type 1 where
  pub Context : Type 0
  pub new_context : Option Context
  pub init : Context → ℤ × Context
  pub update : Context → Bytes → ℤ × Context
  pub final : Context → ℤ × Digest

-- The contexts that are left, and what the call returns or throws.
abbrev pub HashEnds : Type 0
HashEnds = Exec (ℕ × Result Digest)

module _ (md : MessageDigest) where
  open md use {Context, new_context, init, update, final}

  -- EVP_MD_CTX_free
  abbrev pub free_md : ℕ → (ℕ → HashEnds) → HashEnds
  free_md zero rest = undefined
  free_md (suc n) rest = rest n

  -- The label `error`. EVP_error returns a pointer to its own array, and the exception is made from
  -- what it points to.
  unfoldable pub hash_failed : ℕ → HashEnds
  hash_failed n = free_md n λ n'. undefined

  -- `d_data` has room for 100 bytes.
  unfoldable pub after_final : ℕ → ℤ × Digest → HashEnds
  unfolding hash_failed
  after_final n (status, d) =
      if is_one status
      then if leb (length d) 100 then free_md n (λ n'. done (n', ok d)) else undefined
      else hash_failed n

  unfoldable pub after_update : ℕ → ℤ × Context → HashEnds
  unfolding after_final hash_failed
  after_update n (status, c) = if is_one status then after_final n (final c) else hash_failed n

  unfoldable pub after_init : ℕ → Bytes → ℤ × Context → HashEnds
  unfolding after_update hash_failed
  after_init n msg (status, c) =
      if is_one status then after_update n (update c msg) else hash_failed n

  unfoldable pub hash_with : ℕ → Bytes → Option Context → HashEnds
  unfolding after_init
  hash_with n msg none = done (n, err bad_alloc)
  hash_with n msg (some c) = after_init (suc n) msg (init c)

  -- Hasher::hash, where `n` contexts are there before.
  unfoldable pub hash : ℕ → Bytes → HashEnds
  unfolding hash_with
  hash n msg = hash_with n msg new_context

  -- SHA256Hasher.hash of the binding
  unfoldable pub python_hash : ℕ → Bytes → Exec (ℕ × Result Bytes)
  unfolding hash to_string
  python_hash n msg = map_exec (λ r. (r.0, map_result to_string r.1)) (hash n msg)

  -- The digest of a message, if every call succeeds.
  abbrev pub Succeeds : Bytes → Context → Digest → Type 0
  Succeeds msg c d =
      (is_one (init c).0 ≡ true)
      × (is_one (update (init c).1 msg).0 ≡ true)
      × (is_one (final (update (init c).1 msg).1).0 ≡ true)
      × ((final (update (init c).1 msg).1).1 ≡ d)

  final-ends :
      (n : ℕ) (r : ℤ × Digest)
      → ((is_one r.0 ≡ true)
          × (leb (length r.1) 100 ≡ true)
          × (after_final (suc n) r ≡ done (n, ok r.1)))
        ⊎ (after_final (suc n) r ≡ undefined)
  unfolding after_final hash_failed
  final-ends n (status, d) = elim (Bool-cases (is_one status)) [
    | inr s ↦ rw s (inr refl)
    | inl s ↦ elim (Bool-cases (leb (length d) 100)) [
      | inl l ↦ rw (s, l) (inl (refl, refl, refl))
      | inr l ↦ rw (s, l) (inr refl)
    ]
  ]

  update-ends :
      (n : ℕ) (r : ℤ × Context)
      → ((is_one r.0 ≡ true)
          × (is_one (final r.1).0 ≡ true)
          × (leb (length (final r.1).1) 100 ≡ true)
          × (after_update (suc n) r ≡ done (n, ok (final r.1).1)))
        ⊎ (after_update (suc n) r ≡ undefined)
  unfolding after_update hash_failed
  update-ends n (status, c) = elim (Bool-cases (is_one status)) [
    | inr s ↦ rw s (inr refl)
    | inl s ↦ elim (final-ends n (final c)) [
      | inl (f, l, e) ↦ rw s (inl (refl, f, l, e))
      | inr e ↦ rw s (inr e)
    ]
  ]

  init-ends :
      (n : ℕ) (msg : Bytes) (r : ℤ × Context)
      → ((is_one r.0 ≡ true)
          × (is_one (update r.1 msg).0 ≡ true)
          × (is_one (final (update r.1 msg).1).0 ≡ true)
          × (leb (length (final (update r.1 msg).1).1) 100 ≡ true)
          × (after_init (suc n) msg r ≡ done (n, ok (final (update r.1 msg).1).1)))
        ⊎ (after_init (suc n) msg r ≡ undefined)
  unfolding after_init hash_failed
  init-ends n msg (status, c) = elim (Bool-cases (is_one status)) [
    | inr s ↦ rw s (inr refl)
    | inl s ↦ elim (update-ends n (update c msg)) [
      | inl (u, f, l, e) ↦ rw s (inl (refl, u, f, l, e))
      | inr e ↦ rw s (inr e)
    ]
  ]

  with_context :
      (n : ℕ) (msg : Bytes) (c : Context)
      → new_context ≡ some c
      → hash n msg ≡ after_init (suc n) msg (init c)
  unfolding hash hash_with
  with_context n msg c e = rw e refl

  le→leb : (d : Digest) → length d ≤ 100 → leb (length d) 100 ≡ true
  le→leb d h = ground arith

  -- What is there when `hash` comes to an end.
  pub record Hashed (n : ℕ) (msg : Bytes) (c : Context) (n' : ℕ) (r : Result Digest) : Type 0 where
    pub digest : Digest
    pub succeeded : Succeeds msg c digest
    pub fits : length digest ≤ 100
    pub freed : n' ≡ n
    pub returned : r ≡ ok digest

  -- With a context, `hash` returns or throws exactly when every call of OpenSSL succeeds and the digest
  -- fits into the buffer of 100 bytes: it then returns the digest that EVP_DigestFinal_ex stores, and the
  -- context is freed. So it never throws the error of a call that fails.
  pub hash_iff :
      (n : ℕ) (msg : Bytes) (c : Context) (n' : ℕ) (r : Result Digest)
      → new_context ≡ some c
      → (hash n msg ≡ done (n', r)) ↔ Hashed n msg c n' r
  unfolding hash hash_with after_init after_update after_final
  hash_iff n msg c n' r e = (
    (λ h. elim (init-ends n msg (init c)) [
      | inl (i, u, f, l, x) ↦
          let same : done (n, ok (final (update (init c).1 msg).1).1) ≡ done (n', r) =
            (sym x ∙ (sym (with_context n msg c e) ∙ h)) in
          record {
            digest = (final (update (init c).1 msg).1).1;
            succeeded = (i, u, f, refl);
            fits = leb→le _ 100 l;
            freed = cc;
            returned = cc;
          }
      | inr x ↦ cc
    ]),
    (λ h.
        rw
          (
            e,
            h.succeeded.0,
            h.succeeded.1,
            h.succeeded.2,
            h.succeeded.3,
            le→leb h.digest h.fits,
            h.freed,
            h.returned,
          )
          refl),
  )
