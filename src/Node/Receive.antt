-- ===== src/Node/Receive.antt =====
-- The handlers of src/node.cc that take over a block, a chain or a transaction of a peer.
use buenzli_coin.Base.{
  ℕ, Bool, ◌==◌, ltb, List, [], ◌∷◌, Bytes, Option, none, some, length, get_last?, if◌then◌else◌,
}
use buenzli_coin.Base.Exec.{
  Result, ok, err, Exec, done, throws, undefined, bind_exec, Error, malformed, invalid_block,
  invalid_blockchain, Outcome, returns, raises, faults, runs_on, Verdict, valid, invalid,
}
use buenzli_coin.Block.{Block, is_genesis, is_successor_of, valid_block, block_from_json}
use buenzli_coin.Blockchain.{Chain, is_greater, append_next_block, valid_blocks, chain_from_json}
use buenzli_coin.Clock.{TimePoint}
use buenzli_coin.Config.{Config}
use buenzli_coin.Crypto.Keypair.{OpenSsl}
use buenzli_coin.Difficulty.{Floats}
use buenzli_coin.Json.{JsonLib, subscript}
use buenzli_coin.Ledger.{list_data}
use buenzli_coin.Node.{
  Node, Task, request_all_blocks, Handled, answers, refuses, ill_defined, still_mining,
  apply_received, blockchain_setup, after_step,
}
use buenzli_coin.Node.Http.{address_at}
use buenzli_coin.Pool.{Pool, add}
use buenzli_coin.Transaction.{Transaction, update_unspent_outputs}
use buenzli_coin.Transaction.Codec.{transaction_from_json}
use buenzli_coin.TransactionList.{link_all}
use buenzli_coin.Web.Peers

-- `(empty() && b.is_genesis()) || (!empty() && b.is_successor_of(latest_block()))`
unfoldable pub extends :
    {Double : Type 0}
    → Config Double
    → Block (List Transaction)
    → Option (Block (List Transaction))
    → Bool
extends config b none = is_genesis b
extends config b (some last) = is_successor_of config b last

-- `connect` is the exception, if there is one, of the connection that the client of a new peer
-- makes; here it is inside the try block.
module _ (ssl : OpenSsl) (lib : JsonLib) {Double : Type 0} (floats : Floats Double)
    (config : Config Double) (connect : Bytes → ℕ → Option Error) where
  open lib use {Json, null}

  -- The end of the handler, behind its try block.
  unfoldable pub absorb : Block (List Transaction) → Node Double → List Task → Handled Json Double
  absorb b node tasks = after_step node (apply_received b.payload node) null tasks

  unfoldable pub after_append :
      Block (List Transaction)
      → Node Double
      → Outcome (Chain (List Transaction) Double)
      → Handled Json Double
  unfolding absorb
  after_append b node (returns chain) = absorb b (record node { chain = chain }) []
  after_append b node (raises e chain) = refuses (malformed e) (record node { chain = chain })
  after_append b node faults = ill_defined
  after_append b node runs_on = still_mining

  -- The new peer, and the request of its chain.
  unfoldable pub after_peer :
      Block (List Transaction) → Node Double → Peers.Peers × ℕ → Option Error → Handled Json Double
  unfolding absorb
  after_peer b node (peers', id) none =
      absorb b (record node { peers = peers' }) (request_all_blocks id ∷ [])
  after_peer b node (peers', id) (some e) = refuses (malformed e) node

  -- The branch of a block that is ahead of the chain.
  unfoldable pub ahead :
      Block (List Transaction) → Node Double → Exec (Bytes × ℕ) → Handled Json Double
  unfolding after_peer absorb
  ahead b node (throws e) = refuses (malformed (malformed e)) node
  ahead b node undefined = ill_defined
  ahead b node (done (host, port)) =
      if Peers.find host port node.peers == 0
      then after_peer b node (Peers.add host port node.peers) (connect host port)
      else absorb b node (request_all_blocks (Peers.find host port node.peers) ∷ [])

  -- `data["origin"]`
  unfoldable pub origin_of : Json → Exec (Bytes × ℕ)
  origin_of j = bind_exec (subscript lib j "origin") (address_at lib)

  -- The three cases of the index of a valid block.
  unfoldable pub place :
      TimePoint → Json → Block (List Transaction) → Node Double → Handled Json Double
  unfolding ahead after_append extends origin_of
  place now j b node =
      if ltb (length node.chain.blocks) b.index
      then ahead b node (origin_of j)
      else if b.index == length node.chain.blocks
      then if extends config b (get_last? node.chain.blocks)
        then after_append b node
            (append_next_block ssl lib (list_data ssl lib config) floats config now b node.chain)
        else answers node null []
      else answers node null []

  unfoldable pub place_valid :
      TimePoint → Json → Block (List Transaction) → Node Double → Verdict → Handled Json Double
  unfolding place
  place_valid now j b node (invalid e) = refuses (malformed (invalid_block e)) node
  place_valid now j b node valid = place now j b node

  -- The block with its transactions linked with the unspent outputs.
  unfoldable pub linked : Node Double → Block (List Transaction) → Block (List Transaction)
  linked node b = record b { payload = link_all node.unspent b.payload }

  unfoldable pub receive_block :
      (ℕ → TimePoint) → Json → Node Double → Exec (Block (List Transaction)) → Handled Json Double
  unfolding place_valid linked
  receive_block clock j node (throws e) = refuses (malformed e) node
  receive_block clock j node undefined = ill_defined
  receive_block clock j node (done b) =
      place_valid (clock 1) j (linked node b) node
        (valid_block ssl lib (list_data ssl lib config) config (clock 0) (linked node b))

  -- Node::handle_receive_latest_block. The readings of the clock are those of Block::valid, first in
  -- the handler and then in append_next_block.
  unfoldable pub handle_receive_latest_block :
      (ℕ → TimePoint) → Json → Node Double → Handled Json Double
  unfolding receive_block
  handle_receive_latest_block clock j node =
      receive_block clock j node
        (bind_exec (subscript lib j "block") (block_from_json ssl lib (list_data ssl lib config)))

-- Node::handle_receive_all_blocks and Node::handle_receive_transaction.
module _ (ssl : OpenSsl) (lib : JsonLib) {Double : Type 0} (floats : Floats Double)
    (config : Config Double) where
  open lib use {Json, null}

  unfoldable pub replace :
      Node Double → Chain (List Transaction) Double → Verdict → Handled Json Double
  replace node chain (invalid e) = refuses (malformed (invalid_blockchain e)) node
  replace node chain valid =
      if is_greater floats config chain node.chain
      then after_step (record node { chain = chain })
          (blockchain_setup (record node { chain = chain })) null []
      else answers node null []

  unfoldable pub receive_chain :
      (ℕ → TimePoint) → Node Double → Exec (Chain (List Transaction) Double) → Handled Json Double
  unfolding replace
  receive_chain clock node (throws e) = refuses (malformed e) node
  receive_chain clock node undefined = ill_defined
  receive_chain clock node (done chain) =
      replace node chain
        (valid_blocks ssl lib (list_data ssl lib config) floats config clock chain.blocks)

  -- Node::handle_receive_all_blocks, with the readings of the clock of from_json and of valid.
  unfoldable pub handle_receive_all_blocks :
      (ℕ → TimePoint) → (ℕ → TimePoint) → Json → Node Double → Handled Json Double
  unfolding receive_chain
  handle_receive_all_blocks clock clock' j node = receive_chain clock' node (
      bind_exec (subscript lib j "blockchain")
        (chain_from_json ssl lib (list_data ssl lib config) floats config clock))

  -- An exception of the pool is logged only.
  unfoldable pub keep_or_add : Node Double → Result Pool → Handled Json Double
  keep_or_add node (ok pool) = answers (record node { pool = pool }) null []
  keep_or_add node (err e) = answers node null []

  unfoldable pub receive_parsed : Node Double → Result Transaction → Handled Json Double
  unfolding keep_or_add
  receive_parsed node (err e) = refuses (malformed e) node
  receive_parsed node (ok t) =
      keep_or_add node (add ssl config (update_unspent_outputs node.unspent t) node.pool)

  -- Node::handle_receive_transaction
  unfoldable pub handle_receive_transaction : Json → Node Double → Handled Json Double
  unfolding receive_parsed
  handle_receive_transaction j node = receive_parsed node (transaction_from_json lib j)
