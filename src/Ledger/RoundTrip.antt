-- ===== src/Ledger/RoundTrip.antt =====
-- Writing a block of transactions as JSON and reading it again (include/blockchain.h and
-- src/transaction.cc).
use buenzli_coin.Base.{◌≡◌, refl, List, [], ◌∷◌, map, All}
use buenzli_coin.Base.Exec.{done, ok, all_results}
use buenzli_coin.Block.{Block, block_to_json, block_from_json}
use buenzli_coin.Block.RoundTrip.{IsBlock, block_round_trip}
use buenzli_coin.Config.{Config}
use buenzli_coin.Crypto.Keypair.{OpenSsl}
use buenzli_coin.Json.{JsonLib}
use buenzli_coin.Ledger.{list_data}
use buenzli_coin.Transaction.{Transaction, update_unspent_outputs}
use buenzli_coin.Transaction.Codec.{transaction_to_json, transaction_from_json}
use buenzli_coin.Transaction.RoundTrip.{IsTransaction, transaction_round_trip}
use buenzli_coin.TransactionList.{link_all, list_to_json, list_from_json}

module _ (ssl : OpenSsl) (lib : JsonLib) {Double : Type 0} (config : Config Double) where
  transactions_round_trip :
      (ts : List Transaction)
      → All IsTransaction ts
      → all_results (transaction_from_json lib) (map (transaction_to_json lib) ts)
        ≡ ok (map (update_unspent_outputs []) ts)
  transactions_round_trip [] v = refl
  transactions_round_trip (t ∷ ts) v =
      rw (transaction_round_trip lib t v.0) (rw (transactions_round_trip ts v.1) refl)

  list_round_trip :
      (ts : List Transaction)
      → All IsTransaction ts
      → list_from_json lib (list_to_json lib ts) ≡ ok (link_all [] ts)
  unfolding list_from_json list_to_json link_all
  list_round_trip ts v =
      rw (lib.elements-array (map (transaction_to_json lib) ts)) (transactions_round_trip ts v)

  -- Reading back what a node writes of a block gives the block, with its transactions not linked with
  -- any unspent output, if its numbers and bytes fit their C++ types.
  pub list_block_round_trip :
      (b : Block (List Transaction))
      → IsBlock b
      → All IsTransaction b.payload
      → block_from_json ssl lib
          (list_data ssl lib config)
          (block_to_json ssl lib (list_data ssl lib config) b)
        ≡ done (record b { payload = link_all [] b.payload })
  list_block_round_trip b v w =
      block_round_trip lib ssl (list_data ssl lib config) b (link_all [] b.payload) v
        (list_round_trip b.payload w)
