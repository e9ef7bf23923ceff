-- ===== src/Ledger/Received.antt =====
-- What Blockchain::from_json (include/blockchain.h) makes of blocks with transactions: the
-- transactions that are read are linked with no unspent output (src/transaction.cc), and no caller
-- links them before they are checked.
use buenzli_coin.Base.{ℕ, suc, ◌≡◌, refl, ap, subst, List, [], ◌∷◌, All, All-append, arith}
use buenzli_coin.Base.Exec.{
  Result, ok, err, done, lift, all_results, Ensures, Guarantees, Guarantees-bind, valid,
  done-injective,
}
use buenzli_coin.Block.{block_from_json, payload_at}
use buenzli_coin.Blockchain.{Chain, new_chain, append_all, chain_from_json}
use buenzli_coin.Blockchain.Append.{append_next_block_iff}
use buenzli_coin.Blockchain.Built.{append_all-eq-done}
use buenzli_coin.Blockchain.Linked.{check_next-Follows}
use buenzli_coin.Clock.{TimePoint}
use buenzli_coin.Config.{Config}
use buenzli_coin.Crypto.Keypair.{OpenSsl}
use buenzli_coin.Crypto.Digest.{Digest}
use buenzli_coin.Transaction.Amounts.{owner}
use buenzli_coin.Difficulty.{Floats}
use buenzli_coin.Json.{JsonLib, subscript}
use buenzli_coin.Ledger.{list_data}
use buenzli_coin.Transaction.{
  Kind, standard, reward, Transaction, TxI, UTxO, valid_transaction, valid_kind,
}
use buenzli_coin.Transaction.Codec.{transaction_from_json}
use buenzli_coin.Transaction.Valid.{IsSigned, valid_standard_iff, valid_reward_iff}
use buenzli_coin.TransactionList.{list_from_json}
use buenzli_coin.TransactionList.Valid.{valid_list_iff}

lift-Ensures {ℓ κ} :
    {A : Type ℓ} (P : A → Type κ) (r : Result A) → Ensures P r → Guarantees P (lift r)
lift-Ensures P (ok a) p = p
lift-Ensures P (err e) p = tt

abbrev IsUnlinked : Transaction → Type 0
IsUnlinked t = t.unspent_outputs ≡ []

module _ (lib : JsonLib) where
  transaction_from_json-IsUnlinked :
      (j : lib.Json) → Ensures IsUnlinked (transaction_from_json lib j)
  unfolding transaction_from_json
  transaction_from_json-IsUnlinked j = ground arith

  all_results-All :
      {A : Type 0} (P : A → Type 0) (f : lib.Json → Result A) (js : List lib.Json)
      → ((j : lib.Json) → Ensures P (f j))
      → Ensures (All P) (all_results f js)
  all_results-All P f [] h = tt
  all_results-All P f (j ∷ js) h = ground (arith, h j, all_results-All P f js h)

  list_from_json-IsUnlinked : (j : lib.Json) → Ensures (All IsUnlinked) (list_from_json lib j)
  unfolding list_from_json
  list_from_json-IsUnlinked j =
      all_results-All IsUnlinked (transaction_from_json lib) _ transaction_from_json-IsUnlinked

  module _ (ssl : OpenSsl) {Double : Type 0} (config : Config Double) where
    payload_at-IsUnlinked :
        (j : lib.Json)
        → Guarantees (All IsUnlinked) (payload_at ssl lib (list_data ssl lib config) j)
    unfolding payload_at
    payload_at-IsUnlinked j =
        Guarantees-bind (All IsUnlinked) (subscript lib j "data") (λ d. lift (list_from_json lib d))
          (λ d. lift-Ensures _ (list_from_json lib d) (list_from_json-IsUnlinked d))

    block_from_json-IsUnlinked :
        (j : lib.Json)
        → Guarantees
            (λ b. All IsUnlinked b.payload)
            (block_from_json ssl lib (list_data ssl lib config) j)
    unfolding block_from_json
    block_from_json-IsUnlinked j = ground (arith, payload_at-IsUnlinked j)

    no_inputs_of_signed :
        (hash : Digest) (us : List UTxO) (is : List TxI)
        → us ≡ []
        → All (IsSigned ssl hash us) is
        → is ≡ []
    no_inputs_of_signed hash us [] u s = refl
    no_inputs_of_signed hash us (i ∷ is) u s = absurd (s.0.0 (ap (owner i) u))

    kind_no_inputs :
        (k : Kind) (t : Transaction)
        → t.unspent_outputs ≡ []
        → valid_kind ssl config k t ≡ valid
        → t.inputs ≡ []
    unfolding valid_kind
    kind_no_inputs reward t u v = ((valid_reward_iff ssl config t).0 v).no_inputs
    kind_no_inputs standard t u v =
        no_inputs_of_signed t.hash t.unspent_outputs t.inputs u
          ((valid_standard_iff ssl t).0 v).signed

    -- An accepted transaction that is linked with no unspent output has no input.
    pub unlinked-no_inputs :
        (t : Transaction)
        → t.unspent_outputs ≡ []
        → valid_transaction ssl config t ≡ valid
        → t.inputs ≡ []
    unfolding valid_transaction
    unlinked-no_inputs t u v = kind_no_inputs t.kind t u v

    all-no_inputs :
        (ts : List Transaction)
        → All IsUnlinked ts
        → All (λ t. valid_transaction ssl config t ≡ valid) ts
        → All (λ t. t.inputs ≡ []) ts
    all-no_inputs [] u v = tt
    all-no_inputs (t ∷ ts) u v = (unlinked-no_inputs t u.0 v.0, all-no_inputs ts u.1 v.1)

    module _ (floats : Floats Double) where
      append_all-no_inputs :
          (clock : ℕ → TimePoint) (i : ℕ) (js : List lib.Json)
          (c c' : Chain (List Transaction) Double)
          → All (λ b. All (λ t. t.inputs ≡ []) b.payload) c.blocks
          → append_all ssl lib (list_data ssl lib config) floats config clock i js c ≡ done c'
          → All (λ b. All (λ t. t.inputs ≡ []) b.payload) c'.blocks
      unfolding append_all
      append_all-no_inputs clock i [] c c' a e =
          subst
            (λ (c : Chain (List Transaction) Double).
              All (λ b. All (λ t. t.inputs ≡ []) b.payload) c.blocks)
            (done-injective e) a
      append_all-no_inputs clock i (j ∷ js) c c' a e =
          let (b, c₁, parsed, step, rest) =
            append_all-eq-done ssl lib (list_data ssl lib config) floats config clock i j js c c'
              e in
          let x =
            (append_next_block_iff ssl lib (list_data ssl lib config) floats config (clock i) b c
                c₁).0
              step in
          let sound =
            (check_next-Follows ssl lib (list_data ssl lib config) config floats (clock i) b _
              x.checked).1 in
          let unlinked =
            subst (Guarantees (λ b. All IsUnlinked b.payload)) parsed
              (block_from_json-IsUnlinked j) in
          append_all-no_inputs clock (suc i) js c₁ c'
            (rw x.extended (
              All-append _ c.blocks (b ∷ []) a (
                all-no_inputs b.payload unlinked
                    ((valid_list_iff ssl config b.payload b.index).0 sound.data_ok).each,
                tt,
              )))
            rest

      -- A chain that Blockchain::from_json accepts has no transaction with an input: a chain in which
      -- a coin is ever spent cannot be read, neither from a peer nor from a file.
      pub chain_from_json-no_inputs :
          (clock : ℕ → TimePoint) (j : lib.Json) (c : Chain (List Transaction) Double)
          → chain_from_json ssl lib (list_data ssl lib config) floats config clock j ≡ done c
          → All (λ b. All (λ t. t.inputs ≡ []) b.payload) c.blocks
      unfolding chain_from_json new_chain
      chain_from_json-no_inputs clock j c e =
          append_all-no_inputs clock 0 (lib.elements j) (new_chain floats config) c tt e
