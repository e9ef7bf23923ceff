-- ===== src/Node/System.antt =====
-- The Node of src/node.cc over its whole life: it is set up over a chain, and its handlers that
-- change the state then run one after the other, at requests and messages in any order. The
-- handlers that only answer from the state are in Node.Messages.
use mathlib.Core.Option.{some-injective}
use buenzli_coin.Base.{ℕ, ◌≡◌, sym, subst, List, [], Bytes, Option, none, some}
use buenzli_coin.Base.Exec.{Error, done}
use buenzli_coin.Blockchain.{Chain}
use buenzli_coin.Blockchain.Built.{Built, Built-IsLinked}
use buenzli_coin.Clock.{TimePoint}
use buenzli_coin.Config.{Config}
use buenzli_coin.Crypto.Keypair.{OpenSsl}
use buenzli_coin.Difficulty.{Floats}
use buenzli_coin.Json.{JsonLib}
use buenzli_coin.Ledger.{list_data}
use buenzli_coin.Node.{
  Node, Handled, answers, refuses, escapes, ill_defined, still_mining, blockchain_setup,
  update_blocks,
}
use buenzli_coin.Node.Consistent.{
  IsConsistent, NotAhead, handle_blocks_post-IsConsistent, handle_transactions_post-IsConsistent,
  handle_peers_post-IsConsistent, handle_receive_latest_block-IsConsistent,
  handle_receive_all_blocks-IsConsistent, handle_receive_transaction-IsConsistent,
}
use buenzli_coin.Node.Http.{handle_blocks_post, handle_transactions_post, handle_peers_post}
use buenzli_coin.Node.Pooled.{
  HasPool, set_up-HasPool, handle_blocks_post-HasPool, handle_transactions_post-HasPool,
  handle_peers_post-HasPool, handle_receive_latest_block-HasPool, handle_receive_all_blocks-HasPool,
  handle_receive_transaction-HasPool,
}
use buenzli_coin.Node.Receive.{
  handle_receive_latest_block, handle_receive_all_blocks, handle_receive_transaction,
}
use buenzli_coin.Node.Safety.{
  IsSafe, same-IsSafe, handle_blocks_post-Keeps, handle_transactions_post-Keeps,
  handle_peers_post-Keeps, handle_receive_latest_block-Keeps, handle_receive_all_blocks-Keeps,
  handle_receive_transaction-Keeps,
}
use buenzli_coin.Node.Settles.{Settles}
use buenzli_coin.Node.Updates.{IsSetUp, blockchain_setup-IsSetUp}
use buenzli_coin.Transaction.{Transaction}

-- A request or a message that has a handler which changes the state, with the readings of the clock
-- that the handler makes.
pub data Event (Json : Type 0) : Type 0 where
  blocks_post : ℕ → (ℕ → TimePoint) → Json → Event Json
  transactions_post peers_post transaction_message : Json → Event Json
  latest_block_message : (ℕ → TimePoint) → Json → Event Json
  all_blocks_message : (ℕ → TimePoint) → (ℕ → TimePoint) → Json → Event Json

-- The node that a handler leaves, if it ends with one.
unfoldable pub left : {Json Double : Type 0} → Handled Json Double → Option (Node Double)
left (answers node j tasks) = some node
left (refuses e node) = some node
left (escapes e node) = some node
left ill_defined = none
left still_mining = none

left-Settles :
    {Json Double : Type 0} (P : Node Double → Type 0) (h : Handled Json Double)
    (node' : Node Double)
    → Settles P h
    → left h ≡ some node'
    → P node'
unfolding left
left-Settles P (answers node j tasks) node' p e = subst P (some-injective _ _ e) p
left-Settles P (refuses x node) node' p e = subst P (some-injective _ _ e) p
left-Settles P (escapes x node) node' p e = subst P (some-injective _ _ e) p
left-Settles P ill_defined node' p e = cc
left-Settles P still_mining node' p e = cc

module _ (ssl : OpenSsl) (lib : JsonLib) {Double : Type 0} (floats : Floats Double)
    (config : Config Double) (connect : Bytes → ℕ → Option Error)
    (send : Transaction → Option Error) where
  -- The handlers that http_setup and websocket_setup install, but for those that only read.
  unfoldable pub handle : Event lib.Json → Node Double → Handled lib.Json Double
  handle (blocks_post fuel clock j) node =
      handle_blocks_post ssl lib floats config fuel clock j node
  handle (transactions_post j) node = handle_transactions_post ssl lib floats config send j node
  handle (peers_post j) node = handle_peers_post lib connect j node
  handle (transaction_message j) node = handle_receive_transaction ssl lib floats config j node
  handle (latest_block_message clock j) node =
      handle_receive_latest_block ssl lib floats config connect clock j node
  handle (all_blocks_message clock clock' j) node =
      handle_receive_all_blocks ssl lib floats config clock clock' j node

  -- The state of the constructor before blockchain_setup.
  abbrev pub fresh : Chain (List Transaction) Double → Node Double
  fresh chain = record { chain = chain; unspent = []; pool = []; peers = [] }

  -- The nodes that come about by events that a guard allows, from a chain made by the operations of
  -- Blockchain.
  pub data Reach (Allowed : Event lib.Json → Node Double → Type 0) : Node Double → Type 0 where
    set_up :
        (chain : Chain (List Transaction) Double) (node : Node Double)
        → Built ssl lib (list_data ssl lib config) floats config chain
        → blockchain_setup (fresh chain) ≡ done node
        → Reach Allowed node
    handled :
        (e : Event lib.Json) (node node' : Node Double)
        → Reach Allowed node
        → Allowed e node
        → left (handle e node) ≡ some node'
        → Reach Allowed node'

  -- What holds after the setup and is kept by every handler holds of every node that is reached.
  Reach-invariant :
      (Allowed : Event lib.Json → Node Double → Type 0) (P : Node Double → Type 0)
      → ((chain : Chain (List Transaction) Double) (node : Node Double)
          → Built ssl lib (list_data ssl lib config) floats config chain
          → IsSetUp (fresh chain) node
          → P node)
      → ((e : Event lib.Json) (node : Node Double)
          → Allowed e node
          → P node
          → Settles P (handle e node))
      → (node : Node Double) → Reach Allowed node
      → P node
  Reach-invariant Allowed P base step _ (set_up chain node built e) =
      base chain node built (blockchain_setup-IsSetUp (fresh chain) node e)
  Reach-invariant Allowed P base step _ (handled e before node r a l) =
      left-Settles P (handle e before) node
        (step e before a (Reach-invariant Allowed P base step before r)) l

  pub handle-Keeps :
      (e : Event lib.Json) (node : Node Double)
      → IsSafe ssl lib floats config node
      → Settles (IsSafe ssl lib floats config) (handle e node)
  unfolding handle
  handle-Keeps (blocks_post fuel clock j) =
      handle_blocks_post-Keeps ssl lib floats config fuel clock j
  handle-Keeps (transactions_post j) = handle_transactions_post-Keeps ssl lib floats config send j
  handle-Keeps (peers_post j) = handle_peers_post-Keeps ssl lib floats config connect j
  handle-Keeps (transaction_message j) = handle_receive_transaction-Keeps ssl lib floats config j
  handle-Keeps (latest_block_message clock j) =
      handle_receive_latest_block-Keeps ssl lib floats config connect clock j
  handle-Keeps (all_blocks_message clock clock' j) =
      handle_receive_all_blocks-Keeps ssl lib floats config clock clock' j

  pub handle-HasPool :
      (e : Event lib.Json) (node : Node Double)
      → HasPool ssl lib floats config node
      → Settles (HasPool ssl lib floats config) (handle e node)
  unfolding handle
  handle-HasPool (blocks_post fuel clock j) =
      handle_blocks_post-HasPool ssl lib floats config fuel clock j
  handle-HasPool (transactions_post j) =
      handle_transactions_post-HasPool ssl lib floats config send j
  handle-HasPool (peers_post j) = handle_peers_post-HasPool ssl lib floats config connect j
  handle-HasPool (transaction_message j) =
      handle_receive_transaction-HasPool ssl lib floats config j
  handle-HasPool (latest_block_message clock j) =
      handle_receive_latest_block-HasPool ssl lib floats config connect clock j
  handle-HasPool (all_blocks_message clock clock' j) =
      handle_receive_all_blocks-HasPool ssl lib floats config clock clock' j

  -- No message brings a block that is ahead of the chain.
  abbrev pub NoneAhead : Event lib.Json → Node Double → Type 0
  NoneAhead (latest_block_message clock j) node = NotAhead ssl lib floats config j node
  NoneAhead (blocks_post fuel clock j) node = Unit
  NoneAhead (transactions_post j) node = Unit
  NoneAhead (peers_post j) node = Unit
  NoneAhead (transaction_message j) node = Unit
  NoneAhead (all_blocks_message clock clock' j) node = Unit

  handle-IsConsistent :
      (e : Event lib.Json) (node : Node Double)
      → NoneAhead e node
      → IsConsistent node
      → Settles IsConsistent (handle e node)
  unfolding handle
  handle-IsConsistent (blocks_post fuel clock j) node a =
      handle_blocks_post-IsConsistent ssl lib floats config fuel clock j node
  handle-IsConsistent (transactions_post j) node a =
      handle_transactions_post-IsConsistent ssl lib floats config send j node
  handle-IsConsistent (peers_post j) node a =
      handle_peers_post-IsConsistent ssl lib floats config connect j node
  handle-IsConsistent (transaction_message j) node a =
      handle_receive_transaction-IsConsistent ssl lib floats config j node
  handle-IsConsistent (latest_block_message clock j) node a =
      handle_receive_latest_block-IsConsistent ssl lib floats config connect clock j node a
  handle-IsConsistent (all_blocks_message clock clock' j) node a =
      handle_receive_all_blocks-IsConsistent ssl lib floats config clock clock' j node

  -- Every event, whatever it brings.
  abbrev pub Any : Event lib.Json → Node Double → Type 0
  Any e node = Unit

  -- However requests and messages come, and whether their handlers answer or refuse: a node set up
  -- over a chain that the operations of Blockchain made under its configuration always has a chain in
  -- which every block carries its own hash and valid data and follows the block before it, and a pool
  -- within its limit, of transactions that were found valid and share no input.
  pub Reach-sound :
      (node : Node Double)
      → Reach Any node
      → IsSafe ssl lib floats config node × HasPool ssl lib floats config node
  Reach-sound node r = (
    Reach-invariant Any (IsSafe ssl lib floats config)
        (λ chain n built s.
          same-IsSafe ssl lib floats config (fresh chain) n s.same_chain
            (Built-IsLinked ssl lib (list_data ssl lib config) floats config built))
        (λ e n a. handle-Keeps e n) node r,
    Reach-invariant Any (HasPool ssl lib floats config)
        (λ chain n built s. set_up-HasPool ssl lib floats config s) (λ e n a. handle-HasPool e n)
        node r,
  )

  -- If a node is set up over such a chain and no message brings a block that is ahead of its chain,
  -- then its unspent outputs are at all times those that the transactions of its chain leave, however
  -- its handlers end.
  pub Reach-IsConsistent : (node : Node Double) → Reach NoneAhead node → IsConsistent node
  Reach-IsConsistent =
      Reach-invariant NoneAhead IsConsistent
        (λ chain n built s.
          subst
            (λ (c : Chain (List Transaction) Double). update_blocks c.blocks [] ≡ done n.unspent)
            (sym s.same_chain) s.replayed)
        handle-IsConsistent
