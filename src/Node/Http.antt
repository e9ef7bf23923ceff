-- ===== src/Node/Http.antt =====
-- The handlers of src/node.cc that change the state at an HTTP request.
use buenzli_coin.Base.{ℕ, zero, suc, ◌%◌, ◌^◌, List, [], ◌∷◌, Bytes, Option, none, some, length}
use buenzli_coin.Base.Exec.{
  Result, ok, err, Exec, done, throws, undefined, bind_exec, Error, malformed, Outcome, returns,
  raises, faults, runs_on,
}
use buenzli_coin.Blockchain.{Chain, construct_next_block}
use buenzli_coin.Clock.{TimePoint}
use buenzli_coin.Config.{Config}
use buenzli_coin.Crypto.Keypair.{OpenSsl}
use buenzli_coin.Difficulty.{Floats}
use buenzli_coin.Json.{JsonLib, string_at, number_at}
use buenzli_coin.Ledger.{list_data}
use buenzli_coin.Node.{
  Node, Handled, answers, refuses, escapes, ill_defined, still_mining, broadcast_latest_block,
  request_latest_block, broadcast_transaction, apply_constructed,
}
use buenzli_coin.Pool.{Pool, add}
use buenzli_coin.Transaction.{Transaction, make_reward, update_unspent_outputs}
use buenzli_coin.Transaction.Codec.{transaction_from_json}
use buenzli_coin.Web.Peers

-- The loop of handle_blocks_post that takes transactions from the pool: at most as many as given.
unfoldable pub draw : ℕ → Pool → List Transaction × Pool
draw zero pool = ([], pool)
draw (suc n) [] = ([], [])
draw (suc n) (t ∷ pool) = let (ts, rest) = draw n pool in (t ∷ ts, rest)

-- The pair of a host and a port that a request names; `get<uint16_t>` keeps sixteen bits.
unfoldable pub address_at : (lib : JsonLib) → lib.Json → Exec (Bytes × ℕ)
address_at lib j =
    bind_exec (string_at lib j "host")
      λ host. bind_exec (number_at lib j "port") λ port. done (host, port % 2 ^ 16)

module _ (ssl : OpenSsl) (lib : JsonLib) {Double : Type 0} (floats : Floats Double)
    (config : Config Double) where
  open lib use {Json, null}

  -- The end of the try block, after a step that may throw.
  unfoldable pub after_updates : Node Double → Exec (Node Double) → Handled Json Double
  after_updates node (done node') = answers node' null (broadcast_latest_block ∷ [])
  after_updates node (throws e) = refuses (malformed e) node
  after_updates node undefined = ill_defined

  unfoldable pub after_construct :
      List Transaction
      → Node Double
      → Outcome (Chain (List Transaction) Double)
      → Handled Json Double
  unfolding after_updates
  after_construct ts node (returns chain) =
      after_updates (record node { chain = chain })
        (apply_constructed ts (record node { chain = chain }))
  after_construct ts node (raises e chain) = refuses (malformed e) (record node { chain = chain })
  after_construct ts node faults = ill_defined
  after_construct ts node runs_on = still_mining

  -- handle_blocks_post once the address of the reward is read.
  unfoldable pub construct_for :
      ℕ → (ℕ → TimePoint) → Node Double → Exec Bytes → Handled Json Double
  unfolding after_construct
  construct_for fuel clock node (throws e) = refuses (malformed e) node
  construct_for fuel clock node undefined = ill_defined
  construct_for fuel clock node (done address) =
      let (drawn, rest) = draw config.num_per_block node.pool in
      let ts = make_reward ssl config address (length node.chain.blocks) ∷ drawn in
      after_construct ts (record node { pool = rest })
        (construct_next_block ssl lib (list_data ssl lib config) floats config fuel clock ts
          node.chain)

  -- Node::handle_blocks_post
  unfoldable pub handle_blocks_post : ℕ → (ℕ → TimePoint) → Json → Node Double → Handled Json Double
  unfolding construct_for
  handle_blocks_post fuel clock j node = construct_for fuel clock node (string_at lib j "address")

  -- The broadcast of handle_transactions_post, which is inside the try block; `send` is the exception,
  -- if there is one, of sending a transaction to the peers.
  unfoldable pub after_send : Node Double → Transaction → Option Error → Handled Json Double
  after_send node t none = answers node null (broadcast_transaction t ∷ [])
  after_send node t (some e) = refuses (malformed e) node

  -- Node::handle_transactions_post once the pool is asked.
  unfoldable pub after_add :
      (Transaction → Option Error) → Node Double → Transaction → Result Pool → Handled Json Double
  unfolding after_send
  after_add send node t (ok pool) = after_send (record node { pool = pool }) t (send t)
  after_add send node t (err e) = refuses (malformed e) node

  unfoldable pub add_parsed :
      (Transaction → Option Error) → Node Double → Result Transaction → Handled Json Double
  unfolding after_add
  add_parsed send node (err e) = refuses (malformed e) node
  add_parsed send node (ok t) =
      let t' = update_unspent_outputs node.unspent t in
      after_add send node t' (add ssl config t' node.pool)

  -- Node::handle_transactions_post
  unfoldable pub handle_transactions_post :
      (Transaction → Option Error) → Json → Node Double → Handled Json Double
  unfolding add_parsed
  handle_transactions_post send j node = add_parsed send node (transaction_from_json lib j)

-- `connect` is the exception, if there is one, of the connection that the client of a new peer
-- makes. In handle_peers_post it is outside the try block.
module _ (lib : JsonLib) {Double : Type 0} (connect : Bytes → ℕ → Option Error) where
  open lib use {Json, null}

  unfoldable pub after_connect : Node Double → Peers.Peers × ℕ → Option Error → Handled Json Double
  after_connect node (peers', id) none =
      answers (record node { peers = peers' }) null (request_latest_block id ∷ [])
  after_connect node (peers', id) (some e) = escapes e node

  unfoldable pub add_address : Node Double → Exec (Bytes × ℕ) → Handled Json Double
  unfolding after_connect
  add_address node (throws e) = refuses (malformed e) node
  add_address node undefined = ill_defined
  add_address node (done (host, port)) =
      after_connect node (Peers.add host port node.peers) (connect host port)

  -- Node::handle_peers_post
  unfoldable pub handle_peers_post : Json → Node Double → Handled Json Double
  unfolding add_address
  handle_peers_post j node = add_address node (address_at lib j)
