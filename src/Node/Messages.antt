-- ===== src/Node/Messages.antt =====
-- What a Node of src/node.cc tells of its state: the handlers that change nothing, and the requests
-- that it sends.
use buenzli_coin.Base.{
  ℕ, Bool, true, false, Option, none, some, List, [], ◌∷◌, Bytes, codes, get_last?,
}
use buenzli_coin.Base.Exec.{
  Exec, done, throws, undefined, malformed, chain_is_empty, file_not_opened, file_not_written,
}
use buenzli_coin.Block.{Block, block_to_json}
use buenzli_coin.Blockchain.{chain_to_json}
use buenzli_coin.Config.{Config}
use buenzli_coin.Crypto.Keypair.{OpenSsl}
use buenzli_coin.Difficulty.{Floats}
use buenzli_coin.Json.{JsonLib, string_at}
use buenzli_coin.Ledger.{list_data}
use buenzli_coin.Node.{Node, Handled, answers, refuses, ill_defined}
use buenzli_coin.Transaction.{Transaction}
use buenzli_coin.Pool.{pool_to_json}
use buenzli_coin.Transaction.Codec.{transaction_to_json}
use buenzli_coin.TransactionList.{list_to_json}
use buenzli_coin.Unspent.{unspent_outputs_to_json}
use buenzli_coin.Web.Peers.{peers_to_json}

module _ (ssl : OpenSsl) (lib : JsonLib) {Double : Type 0} (floats : Floats Double)
    (config : Config Double) where
  open lib use {Json, null, object, array, string, number}

  to_json : Block (List Transaction) → Json
  to_json = block_to_json ssl lib (list_data ssl lib config)

  latest : Option (Block (List Transaction)) → (Block (List Transaction) → Json) → Json
  latest none f = null
  latest (some b) f = f b

  -- Node::handle_blocks_get
  unfoldable pub handle_blocks_get : Node Double → Handled Json Double
  handle_blocks_get node =
      answers node (chain_to_json ssl lib (list_data ssl lib config) floats config node.chain) []

  -- Node::handle_blocks_latest_get
  unfoldable pub handle_blocks_latest_get : Node Double → Handled Json Double
  unfolding latest to_json
  handle_blocks_latest_get node = answers node (latest (get_last? node.chain.blocks) to_json) []

  -- Node::handle_peers_get
  unfoldable pub handle_peers_get : Node Double → Handled Json Double
  handle_peers_get node = answers node (peers_to_json lib node.peers) []

  -- Node::handle_transactions_latest_get
  unfoldable pub handle_transactions_latest_get : Node Double → Handled Json Double
  unfolding latest
  handle_transactions_latest_get node =
      answers node (latest (get_last? node.chain.blocks) (λ b. list_to_json lib b.payload)) []

  -- Node::handle_transactions_unconfirmed_get
  unfoldable pub handle_transactions_unconfirmed_get : Node Double → Handled Json Double
  handle_transactions_unconfirmed_get node = answers node (pool_to_json lib node.pool) []

  -- Node::handle_transactions_unspent_get
  unfoldable pub handle_transactions_unspent_get : Node Double → Handled Json Double
  handle_transactions_unspent_get node = answers node (unspent_outputs_to_json lib node.unspent) []

  -- The end of handle_blocks_persist_post: whether the file opens, and whether it takes the text.
  unfoldable pub persist_to :
      Node Double → Exec Bytes → (Bytes → Bool) → (Bytes → Bool) → Handled Json Double
  persist_to node undefined opens takes = ill_defined
  persist_to node (throws e) opens takes = refuses (malformed e) node
  persist_to node (done file) opens takes = written (opens file) (takes file)
    where
      written : Bool → Bool → Handled Json Double
      written false w = refuses (malformed file_not_opened) node
      written true false = refuses (malformed file_not_written) node
      written true true = answers node null []

  -- Node::handle_blocks_persist_post
  unfoldable pub handle_blocks_persist_post :
      (Bytes → Bool) → (Bytes → Bool) → Json → Node Double → Handled Json Double
  unfolding persist_to
  handle_blocks_persist_post opens takes j node =
      persist_to node (string_at lib j "file") opens takes

  -- `answer["origin"]`: the address of the node's own server.
  abbrev pub origin : Bytes → ℕ → Json
  origin host port = object (("host", string host) ∷ ("port", number port) ∷ [])

  -- `answer["block"]` and `answer["origin"]`
  abbrev pub block_message : Bytes → ℕ → Block (List Transaction) → Json
  block_message host port b = object (
      ("block", block_to_json ssl lib (list_data ssl lib config) b)
      ∷ ("origin", origin host port)
      ∷ [])

  unfoldable pub answer_latest :
      Bytes → ℕ → Node Double → Option (Block (List Transaction)) → Handled Json Double
  answer_latest host port node none = refuses chain_is_empty node
  answer_latest host port node (some b) = answers node (block_message host port b) []

  -- Node::handle_request_latest_block
  unfoldable pub handle_request_latest_block : Bytes → ℕ → Node Double → Handled Json Double
  unfolding answer_latest
  handle_request_latest_block host port node =
      answer_latest host port node (get_last? node.chain.blocks)

  -- Node::handle_request_all_blocks
  unfoldable pub handle_request_all_blocks : Bytes → ℕ → Node Double → Handled Json Double
  handle_request_all_blocks host port node =
      answers node
        (object (
          ("blockchain", chain_to_json ssl lib (list_data ssl lib config) floats config node.chain)
          ∷ ("origin", origin host port)
          ∷ []))
        []

  -- The request of Node::broadcast_latest_block, which every peer is sent; `latest_block()` of an
  -- empty chain is undefined behaviour.
  unfoldable pub broadcast_latest_block_request :
      Bytes → ℕ → Option (Block (List Transaction)) → Exec Json
  broadcast_latest_block_request host port none = undefined
  broadcast_latest_block_request host port (some b) = done (
      object (
        ("target", string (codes "/receive-latest-block"))
        ∷ ("data", block_message host port b)
        ∷ []))

  -- The requests of Node::request_latest_block and Node::request_all_blocks
  unfoldable pub request_latest_block_request : Json
  request_latest_block_request = object (("target", string (codes "/request-latest-block")) ∷ [])

  unfoldable pub request_all_blocks_request : Json
  request_all_blocks_request = object (("target", string (codes "/request-all-blocks")) ∷ [])

  -- The request of Node::broadcast_transaction
  unfoldable pub broadcast_transaction_request : Transaction → Json
  broadcast_transaction_request t =
      object (
        ("target", string (codes "/receive-transaction"))
        ∷ ("data", transaction_to_json lib t)
        ∷ [])
