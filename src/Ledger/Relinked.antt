-- ===== src/Ledger/Relinked.antt =====
-- A block whose transactions are linked again (`update_unspent_outputs` of src/transaction.cc): the
-- outputs that a transaction is linked with are no part of its JSON form, and only the validation of a
-- standard transaction reads them.
use buenzli_coin.Base.{
  ℕ, suc, ◌≡◌, ◌⊎◌, inl, inr, refl, sym, ap, ◌∙◌, List, [], ◌∷◌, All, map, length,
}
use buenzli_coin.Block.{Block, block_hash, block_to_json}
use buenzli_coin.Blockchain.Linked.{IsSound}
use buenzli_coin.Config.{Config}
use buenzli_coin.Crypto.Keypair.{OpenSsl}
use buenzli_coin.Json.{JsonLib}
use buenzli_coin.Ledger.{list_data}
use buenzli_coin.Transaction.{
  UTxO, Transaction, reward, update_unspent_outputs, valid_transaction, valid_kind, valid_reward,
  determine_hash,
}
use buenzli_coin.Transaction.Codec.{transaction_to_json}
use buenzli_coin.TransactionList.{link_all, list_to_json, check_transactions, valid_list}

-- The block with its transactions linked with the outputs.
abbrev pub relinked : List UTxO → Block (List Transaction) → Block (List Transaction)
relinked us b = record b { payload = link_all us b.payload }

-- A reward, whatever it is linked with, or a transaction that is linked with the outputs.
abbrev pub IsLinkedWith : List UTxO → Transaction → Type 0
IsLinkedWith us t = (t.kind ≡ reward) ⊎ (t.unspent_outputs ≡ us)

-- The last linking counts.
pub link_all-link_all :
    (us vs : List UTxO) (ts : List Transaction) → link_all us (link_all vs ts) ≡ link_all us ts
unfolding link_all update_unspent_outputs
link_all-link_all us vs [] = refl
link_all-link_all us vs (t ∷ ts) =
    ap (λ rest. record t { unspent_outputs = us } ∷ rest) (link_all-link_all us vs ts)

length-link_all : (us : List UTxO) (ts : List Transaction) → length (link_all us ts) ≡ length ts
unfolding link_all
length-link_all us [] = refl
length-link_all us (t ∷ ts) = ap suc (length-link_all us ts)

module _ (lib : JsonLib) where
  jsons-link_all :
      (us : List UTxO) (ts : List Transaction)
      → map (transaction_to_json lib) (link_all us ts) ≡ map (transaction_to_json lib) ts
  unfolding link_all update_unspent_outputs transaction_to_json
  jsons-link_all us [] = refl
  jsons-link_all us (t ∷ ts) = ap (λ js. transaction_to_json lib t ∷ js) (jsons-link_all us ts)

  list_to_json-link_all :
      (us : List UTxO) (ts : List Transaction)
      → list_to_json lib (link_all us ts) ≡ list_to_json lib ts
  unfolding list_to_json
  list_to_json-link_all us ts = ap lib.array (jsons-link_all us ts)

module _ (ssl : OpenSsl) {Double : Type 0} (config : Config Double) where
  valid_transaction-link :
      (us : List UTxO) (t : Transaction)
      → IsLinkedWith us t
      → valid_transaction ssl config (update_unspent_outputs us t) ≡ valid_transaction ssl config t
  unfolding valid_transaction valid_kind valid_reward determine_hash update_unspent_outputs
  valid_transaction-link us t (inl k) = rw k refl
  valid_transaction-link us t (inr e) =
      ap (λ us'. valid_transaction ssl config (record t { unspent_outputs = us' })) (sym e)

  check_transactions-link_all :
      (us : List UTxO) (index i : ℕ) (ts : List Transaction)
      → All (IsLinkedWith us) ts
      → check_transactions ssl config index i (link_all us ts)
        ≡ check_transactions ssl config index i ts
  unfolding check_transactions link_all update_unspent_outputs
  check_transactions-link_all us index i [] l = refl
  check_transactions-link_all us index i (t ∷ ts) l =
      rw (valid_transaction-link us t l.0, check_transactions-link_all us index (suc i) ts l.1) refl

  valid_list-link_all :
      (us : List UTxO) (ts : List Transaction) (index : ℕ)
      → All (IsLinkedWith us) ts
      → valid_list ssl config (link_all us ts) index ≡ valid_list ssl config ts index
  unfolding valid_list
  valid_list-link_all us ts index l =
      rw (length-link_all us ts, check_transactions-link_all us index 0 ts l) refl

module _ (ssl : OpenSsl) (lib : JsonLib) {Double : Type 0} (config : Config Double) where
  pub block_to_json-relinked :
      (us : List UTxO) (b : Block (List Transaction))
      → block_to_json ssl lib (list_data ssl lib config) (relinked us b)
        ≡ block_to_json ssl lib (list_data ssl lib config) b
  unfolding block_to_json
  block_to_json-relinked us b = rw (list_to_json-link_all lib us b.payload, block_to_json) refl

  pub relinked-IsSound :
      (us : List UTxO) (b : Block (List Transaction))
      → All (IsLinkedWith us) b.payload
      → IsSound ssl lib (list_data ssl lib config) b
      → IsSound ssl lib (list_data ssl lib config) (relinked us b)
  unfolding block_hash
  relinked-IsSound us b l s = record {
    own_hash = rw (list_to_json-link_all lib us b.payload, block_hash) (s.own_hash);
    data_ok = valid_list-link_all ssl config us b.payload b.index l ∙ s.data_ok;
  }
