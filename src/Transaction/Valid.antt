-- ===== src/Transaction/Valid.antt =====
-- When Transaction::valid of src/transaction.cc accepts.
use native.Mathlib.Nat.{add-zero, add_assoc, zero-add}
use buenzli_coin.Base.{
  ℕ, ◌+◌, ◌%◌, ◌≡◌, ◌≢◌, ◌↔◌, refl, sym, ◌∙◌, Bool, true, false, List, [], ◌∷◌, arith,
  if◌then◌else◌, Bytes, All, is_empty, bytes_eq, bytes_eq_sound, bytes_eq_complete, ==_iff, not,
}
use buenzli_coin.Base.Exec.{
  Result, ok, err, Verdict, valid, invalid, no_unspent_output, invalid_hash, inputs_not_empty,
}
use buenzli_coin.Config.{Config}
use buenzli_coin.Crypto.Digest.{Digest}
use buenzli_coin.Crypto.Keypair.{OpenSsl, verify}
use buenzli_coin.Transaction.{
  TxI, TxO, UTxO, Transaction, sum_outputs, after_verify, determine_hash, check_inputs, check_sums,
  valid_standard, valid_reward, check_reward_outputs, valid_transaction, make_reward, size_mod,
}
use buenzli_coin.Transaction.Amounts.{
  total, total_outputs, matching, total_inputs, owner, link_input_lem, sum_outputs_lem,
}

-- One round of check_inputs, from the address, the result of the signature check and the rest.
abbrev input_round {ℓ} : {A : Type ℓ} → ℕ → Bytes → Result Bool → Result A → Result A
input_round n a v next = if is_empty a then err (no_unspent_output n) else after_verify n v next

input_round_sound {ℓ} :
    {A : Type ℓ} (n : ℕ) (a : Bytes) (v : Result Bool) (next : Result A) {r : A}
    → input_round n a v next ≡ ok r
    → (a ≢ []) × (v ≡ ok true) × (next ≡ ok r)
input_round_sound n [] v next h = cc
input_round_sound n (x ∷ a) (ok true) next h = (λ e. cc, refl, h)
input_round_sound n (x ∷ a) (ok false) next h = cc
input_round_sound n (x ∷ a) (err e) next h = cc

input_round_complete {ℓ} :
    {A : Type ℓ} (n : ℕ) (a : Bytes) (v : Result Bool) (next : Result A)
    → a ≢ []
    → v ≡ ok true
    → input_round n a v next ≡ next
input_round_complete n [] v next h e = absurd (h refl)
input_round_complete n (x ∷ a) v next h e = rw e

hash_guard :
    (b : Bool) (k : Verdict)
    → (if not b then invalid invalid_hash else k) ≡ valid
    → (b ≡ true) × (k ≡ valid)
hash_guard true k h = (refl, h)
hash_guard false k h = cc

module _ (ssl : OpenSsl) where
  -- An input names an unspent output, and carries the signature of its owner under the hash.
  abbrev pub IsSigned : Digest → List UTxO → TxI → Type 0
  IsSigned hash us i = (owner i us ≢ []) × (verify ssl (owner i us) hash i.signature ≡ ok true)

  pub record IsValidStandard (t : Transaction) : Type 0 where
    pub hashed : t.hash ≡ determine_hash ssl t
    pub signed : All (IsSigned t.hash t.unspent_outputs) t.inputs
    pub balanced :
        total_inputs t.inputs t.unspent_outputs % size_mod ≡ total_outputs t.outputs % size_mod

  check_inputs_step :
      (hash : Digest) (us : List UTxO) (n : ℕ) (i : TxI) (is : List TxI) (s : ℕ)
      → check_inputs ssl hash us n (i ∷ is) (s % size_mod)
        ≡ input_round n
            (owner i us)
            (verify ssl (owner i us) hash i.signature)
            (check_inputs ssl hash us (n + 1) is ((s + total (matching i us)) % size_mod))
  unfolding check_inputs
  check_inputs_step hash us n i is s = rw (link_input_lem i us [] s)

  check_inputs_sound :
      (hash : Digest) (us : List UTxO) (n : ℕ) (is : List TxI) (s r : ℕ)
      → check_inputs ssl hash us n is (s % size_mod) ≡ ok r
      → All (IsSigned hash us) is × (r ≡ (s + total_inputs is us) % size_mod)
  check_inputs_sound hash us n [] s r h =
      (tt, rw add-zero (unfold check_inputs in (let e : ok (s % size_mod) ≡ ok r = h in cc)))
  check_inputs_sound hash us n (i ∷ is) s r h =
      let (named, signed, rest) =
        input_round_sound n (owner i us) _ _ (sym (check_inputs_step hash us n i is s) ∙ h) in
      let (all, e) = check_inputs_sound hash us (n + 1) is (s + total (matching i us)) r rest in
      (((named, signed), all), e ∙ rw (add_assoc s (total (matching i us)) (total_inputs is us)))

  check_inputs_complete :
      (hash : Digest) (us : List UTxO) (n : ℕ) (is : List TxI) (s : ℕ)
      → All (IsSigned hash us) is
      → check_inputs ssl hash us n is (s % size_mod) ≡ ok ((s + total_inputs is us) % size_mod)
  unfolding check_inputs
  check_inputs_complete hash us n [] s h = rw add-zero
  check_inputs_complete hash us n (i ∷ is) s h =
      check_inputs_step hash us n i is s
      ∙ input_round_complete n (owner i us) _ _ h.0.0 h.0.1
      ∙ check_inputs_complete hash us (n + 1) is (s + total (matching i us)) h.1
      ∙ rw (add_assoc s (total (matching i us)) (total_inputs is us))

  check_sums_sound : (r : Result ℕ) (m : ℕ) → check_sums ssl r m ≡ valid → r ≡ ok m
  unfolding check_sums
  check_sums_sound (ok s) m h = ground (arith, ==_iff s m)
  check_sums_sound (err e) m h = cc

  valid_standard-IsValidStandard :
      (t : Transaction) → valid_standard ssl t ≡ valid → IsValidStandard t
  unfolding valid_standard
  valid_standard-IsValidStandard t h =
      let (hashed, rest) = hash_guard (bytes_eq t.hash (determine_hash ssl t)) _ h in
      let (signed, sums) =
        check_inputs_sound t.hash t.unspent_outputs 0 t.inputs 0 (sum_outputs t.outputs 0)
          (check_sums_sound _ _ rest) in
      record {
        hashed = bytes_eq_sound _ _ hashed;
        signed = signed;
        balanced = simp zero-add at (sym sums ∙ sum_outputs_lem t.outputs 0);
      }

  IsValidStandard-valid_standard :
      (t : Transaction) → IsValidStandard t → valid_standard ssl t ≡ valid
  unfolding valid_standard
  IsValidStandard-valid_standard t v = rw (bytes_eq_complete _ _ v.hashed) (
      rw
        (
          check_inputs_complete t.hash t.unspent_outputs 0 t.inputs 0 v.signed,
          sum_outputs_lem t.outputs 0,
          check_sums,
        )
        (simp zero-add (rw ((==_iff _ _).1 v.balanced))))

  -- A standard transaction is accepted exactly when its hash is right, every input names an
  -- unspent output and carries its owner's signature of the hash, and the coins of the inputs, each
  -- counted by itself, equal those of the outputs modulo 2 ^ 64.
  pub valid_standard_iff : (t : Transaction) → (valid_standard ssl t ≡ valid) ↔ IsValidStandard t
  valid_standard_iff t = (valid_standard-IsValidStandard t, IsValidStandard-valid_standard t)

  module _ {Double : Type 0} (config : Config Double) where
    pub record IsValidReward (t : Transaction) : Type 0 where
      pub hashed : t.hash ≡ determine_hash ssl t
      pub no_inputs : t.inputs ≡ []
      pub one_output : (o : TxO) × (t.outputs ≡ o ∷ []) × (o.amount ≡ config.reward_amount)

    reward_outputs_sound :
        (os : List TxO)
        → check_reward_outputs ssl config os ≡ valid
        → (o : TxO) × (os ≡ o ∷ []) × (o.amount ≡ config.reward_amount)
    unfolding check_reward_outputs
    reward_outputs_sound [] h = cc
    reward_outputs_sound (o ∷ []) h = (o, refl, ground arith)
    reward_outputs_sound (o ∷ p ∷ os) h = cc

    inputs_guard :
        (is : List TxI) (k : Verdict)
        → (if not (is_empty is) then invalid inputs_not_empty else k) ≡ valid
        → (is ≡ []) × (k ≡ valid)
    inputs_guard [] k h = (refl, h)
    inputs_guard (i ∷ is) k h = cc

    valid_reward-IsValidReward :
        (t : Transaction) → valid_reward ssl config t ≡ valid → IsValidReward t
    unfolding valid_reward
    valid_reward-IsValidReward t h =
        let (hashed, rest) = hash_guard (bytes_eq t.hash (determine_hash ssl t)) _ h in
        let (none_in, rest') = inputs_guard t.inputs _ rest in
        record {
          hashed = bytes_eq_sound _ _ hashed;
          no_inputs = none_in;
          one_output = reward_outputs_sound t.outputs rest';
        }

    IsValidReward-valid_reward :
        (t : Transaction) → IsValidReward t → valid_reward ssl config t ≡ valid
    unfolding valid_reward check_reward_outputs
    IsValidReward-valid_reward t v =
        rw (bytes_eq_complete _ _ v.hashed, v.no_inputs, v.one_output.1, check_reward_outputs)
          (rw ((==_iff _ _).1 v.one_output.2))

    -- A reward transaction is accepted exactly when its hash is right, and it has no input and one
    -- output, of the configured amount.
    pub valid_reward_iff : (t : Transaction) → (valid_reward ssl config t ≡ valid) ↔ IsValidReward t
    valid_reward_iff t = (valid_reward-IsValidReward t, IsValidReward-valid_reward t)

    make_reward-IsValidReward :
        (address : Bytes) (index : ℕ) → IsValidReward (make_reward ssl config address index)
    unfolding make_reward determine_hash
    make_reward-IsValidReward address index = record {
      hashed = refl;
      no_inputs = refl;
      one_output = (_, refl, refl);
    }

    -- What Transaction::reward makes passes Transaction::valid.
    pub valid_transaction-make_reward :
        (address : Bytes) (index : ℕ)
        → valid_transaction ssl config (make_reward ssl config address index) ≡ valid
    unfolding valid_transaction make_reward
    valid_transaction-make_reward address index =
        IsValidReward-valid_reward _ (make_reward-IsValidReward address index)
