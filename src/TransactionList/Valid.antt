-- ===== src/TransactionList/Valid.antt =====
-- When TransactionList::valid of src/transaction.cc accepts.
use buenzli_coin.Base.{
  ℕ, suc, ◌+◌, ◌%◌, ◌≤◌, ◌≡◌, ◌↔◌, refl, ap, ◌∙◌, Bool, true, false, not, List, [], ◌∷◌,
  if◌then◌else◌, length, All, arith, ==_iff,
}
use buenzli_coin.Base.Exec.{
  Verdict, valid, invalid, invalid_number, invalid_type, invalid_transaction_index,
}
use buenzli_coin.Config.{Config}
use buenzli_coin.Crypto.Keypair.{OpenSsl}
use buenzli_coin.Transaction.{Kind, standard, reward, Transaction, size_mod, valid_transaction}
use buenzli_coin.TransactionList.{
  same_kind, expected_kind, after_transaction, check_transactions, valid_list,
}

-- The first transaction is the reward, the others are standard ones.
abbrev pub HasShape : List Transaction → Type 0
HasShape [] = Unit
HasShape (t ∷ ts) = (t.kind ≡ reward) × All (λ s. s.kind ≡ standard) ts

module _ (ssl : OpenSsl) {Double : Type 0} (config : Config Double) where
  pub record IsValidList (ts : List Transaction) (index : ℕ) : Type 0 where
    pub bounded : length ts ≤ (config.num_per_block + 1) % size_mod
    pub shape : HasShape ts
    pub indices : All (λ t. t.index ≡ index) ts
    pub each : All (λ t. valid_transaction ssl config t ≡ valid) ts

  -- What one round of the loop asks for.
  abbrev Passes : ℕ → Kind → Transaction → Type 0
  Passes index k t = (t.kind ≡ k) × (t.index ≡ index) × (valid_transaction ssl config t ≡ valid)

  same_kind_sound : (a b : Kind) → same_kind a b ≡ true → a ≡ b
  same_kind_sound standard standard h = refl
  same_kind_sound reward reward h = refl
  same_kind_sound standard reward h = cc
  same_kind_sound reward standard h = cc

  same_kind_refl : (a : Kind) → same_kind a a ≡ true
  same_kind_refl standard = refl
  same_kind_refl reward = refl

  round_sound :
      (b c : Bool) (i j : ℕ) (v rest : Verdict)
      → (if not b
          then invalid (invalid_type i)
          else if not c
          then invalid (invalid_transaction_index i j)
          else after_transaction i v rest)
        ≡ valid
      → (b ≡ true) × (c ≡ true) × (v ≡ valid) × (rest ≡ valid)
  round_sound true true i j valid rest h = (refl, refl, refl, h)
  round_sound true true i j (invalid e) rest h = cc
  round_sound true false i j v rest h = cc
  round_sound false c i j v rest h = cc

  round_complete :
      (b c : Bool) (i j : ℕ) (v rest : Verdict)
      → b ≡ true
      → c ≡ true
      → v ≡ valid
      → (if not b
          then invalid (invalid_type i)
          else if not c
          then invalid (invalid_transaction_index i j)
          else after_transaction i v rest)
        ≡ rest
  round_complete b c i j v rest hb hc hv = rw (hb, hc, hv)

  check_step_sound :
      (index i : ℕ) (t : Transaction) (ts : List Transaction)
      → check_transactions ssl config index i (t ∷ ts) ≡ valid
      → Passes index (expected_kind i) t × (check_transactions ssl config index (suc i) ts ≡ valid)
  unfolding check_transactions
  check_step_sound index i t ts h =
      let (k, n, v, rest) = round_sound _ _ i t.index _ _ h in
      ((same_kind_sound _ _ k, (==_iff _ _).0 n, v), rest)

  check_step_complete :
      (index i : ℕ) (t : Transaction) (ts : List Transaction)
      → Passes index (expected_kind i) t
      → check_transactions ssl config index i (t ∷ ts)
        ≡ check_transactions ssl config index (suc i) ts
  unfolding check_transactions
  check_step_complete index i t ts p =
      round_complete _ _ i t.index _ _
        (ap (λ (k : Kind). same_kind k (expected_kind i)) p.0 ∙ same_kind_refl (expected_kind i))
        ((==_iff _ _).1 p.1) p.2

  check_rest_sound :
      (index i : ℕ) (ts : List Transaction)
      → check_transactions ssl config index (suc i) ts ≡ valid
      → All (Passes index standard) ts
  check_rest_sound index i [] h = tt
  check_rest_sound index i (t ∷ ts) h =
      let (p, rest) = check_step_sound index (suc i) t ts h in
      (p, check_rest_sound index (suc i) ts rest)

  check_rest_complete :
      (index i : ℕ) (ts : List Transaction)
      → All (Passes index standard) ts
      → check_transactions ssl config index (suc i) ts ≡ valid
  unfolding check_transactions
  check_rest_complete index i [] h = refl
  check_rest_complete index i (t ∷ ts) h =
      check_step_complete index (suc i) t ts h.0 ∙ check_rest_complete index (suc i) ts h.1

  All-Passes :
      (index : ℕ) (ts : List Transaction)
      → All (Passes index standard) ts ↔ (
          All (λ t. t.kind ≡ standard) ts
          × All (λ t. t.index ≡ index) ts
          × All (λ t. valid_transaction ssl config t ≡ valid) ts)
  All-Passes index [] = (λ h. (tt, tt, tt), λ h. tt)
  All-Passes index (t ∷ ts) =
      let ih = All-Passes index ts in
      (
        λ h. let (a, b, c) = ih.0 h.1 in ((h.0.0, a), (h.0.1, b), (h.0.2, c)),
        λ h. ((h.0.0, h.1.0, h.2.0), ih.1 (h.0.1, h.1.1, h.2.1)),
      )

  size_guard :
      (b : Bool) (v : Verdict)
      → (if b then invalid invalid_number else v) ≡ valid
      → (b ≡ false) × (v ≡ valid)
  size_guard true v h = cc
  size_guard false v h = (refl, h)

  check_sound :
      (index : ℕ) (ts : List Transaction)
      → check_transactions ssl config index 0 ts ≡ valid
      → HasShape ts
        × All (λ t. t.index ≡ index) ts
        × All (λ t. valid_transaction ssl config t ≡ valid) ts
  check_sound index [] h = (tt, tt, tt)
  check_sound index (t ∷ ts) h =
      let (p, rest) = check_step_sound index 0 t ts h in
      let (a, b, c) = (All-Passes index ts).0 (check_rest_sound index 0 ts rest) in
      ((p.0, a), (p.1, b), (p.2, c))

  valid_list-IsValidList :
      (ts : List Transaction) (index : ℕ)
      → valid_list ssl config ts index ≡ valid
      → IsValidList ts index
  unfolding valid_list
  valid_list-IsValidList ts index h =
      let (small, rest) = size_guard _ _ h in
      let (a, b, c) = check_sound index ts rest in
      record { bounded = ground arith; shape = a; indices = b; each = c }

  check_complete :
      (index : ℕ) (ts : List Transaction)
      → IsValidList ts index
      → check_transactions ssl config index 0 ts ≡ valid
  unfolding check_transactions
  check_complete index [] v = refl
  check_complete index (t ∷ ts) v =
      check_step_complete index 0 t ts (v.shape.0, v.indices.0, v.each.0)
      ∙ check_rest_complete index 0 ts ((All-Passes index ts).1 (v.shape.1, v.indices.1, v.each.1))

  IsValidList-valid_list :
      (ts : List Transaction) (index : ℕ)
      → IsValidList ts index
      → valid_list ssl config ts index ≡ valid
  unfolding valid_list
  IsValidList-valid_list ts index v = ground (arith, check_complete index ts v, v.bounded)

  -- A list is accepted at an index exactly when it has at most one transaction more than the
  -- configured number, the first is a reward and the others are standard ones, all have the index,
  -- and each is accepted by itself.
  pub valid_list_iff :
      (ts : List Transaction) (index : ℕ)
      → (valid_list ssl config ts index ≡ valid) ↔ IsValidList ts index
  valid_list_iff ts index = (valid_list-IsValidList ts index, IsValidList-valid_list ts index)
