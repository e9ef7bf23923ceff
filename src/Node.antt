-- ===== src/Node.antt =====
-- class Node of include/node.h and src/node.cc, as built with TRANSACTIONS: the state that its
-- handlers share, and how a handler ends. Logging and the texts of log messages are left out, and
-- the handlers run one after the other.
pub mod Http
pub mod Messages
pub mod Receive
pub mod Steady
pub mod Updates
pub mod Settles
pub mod Safety
pub mod Ahead
pub mod Gossip
pub mod Consistent
pub mod Pooled
pub mod Drained
pub mod System
pub mod Servers
pub mod Served
pub mod Callbacks
pub mod Running
pub mod Talks
use buenzli_coin.Base.{ℕ, List, [], ◌∷◌}
use buenzli_coin.Base.Exec.{Error, Exec, done, throws, undefined, bind_exec, map_exec}
use buenzli_coin.Block.{Block}
use buenzli_coin.Blockchain.{Chain}
use buenzli_coin.Pool.{Pool, prune, remove_all}
use buenzli_coin.Transaction.{UTxO, Transaction}
use buenzli_coin.Unspent.{update_all}
use buenzli_coin.Web.Peers.{Peers}

pub record Node (Double : Type 0) : Type 0 where
  pub chain : Chain (List Transaction) Double
  pub unspent : List UTxO
  pub pool : Pool
  pub peers : Peers

-- What a handler starts on another thread, or sends.
pub data Task : Type 0 where
  broadcast_latest_block : Task
  request_latest_block request_all_blocks : ℕ → Task
  broadcast_transaction : Transaction → Task

-- How a handler ends: it answers; it throws an HTTPError with `bad_request`, or a WebSocketError;
-- another exception escapes; it runs into undefined behaviour; it is still mining when the fuel is
-- used up.
pub data Handled (Json Double : Type 0) : Type 0 where
  answers : Node Double → Json → List Task → Handled Json Double
  refuses : Error → Node Double → Handled Json Double
  escapes : Error → Node Double → Handled Json Double
  ill_defined : Handled Json Double
  still_mining : Handled Json Double

-- The double loop of Node::blockchain_setup
unfoldable pub update_blocks : List (Block (List Transaction)) → List UTxO → Exec (List UTxO)
update_blocks [] us = done us
update_blocks (b ∷ bs) us = bind_exec (update_all b.payload us) (update_blocks bs)

module _ {Double : Type 0} where
  -- Node::blockchain_setup
  unfoldable pub blockchain_setup : Node Double → Exec (Node Double)
  unfolding update_blocks
  blockchain_setup node =
      map_exec (λ us. record node { unspent = us; pool = [] }) (update_blocks node.chain.blocks [])

  -- The updates of the outputs and of the pool that end handle_blocks_post.
  unfoldable pub apply_constructed : List Transaction → Node Double → Exec (Node Double)
  apply_constructed ts node =
      bind_exec (update_all ts node.unspent)
        λ us. map_exec (λ pool. record node { unspent = us; pool = pool }) (prune us node.pool)

  -- The updates of the outputs and of the pool that end handle_receive_latest_block.
  unfoldable pub apply_received : List Transaction → Node Double → Exec (Node Double)
  apply_received ts node = bind_exec (update_all ts node.unspent) λ us.
      bind_exec (remove_all ts node.pool)
        λ pool. map_exec (λ pool'. record node { unspent = us; pool = pool' }) (prune us pool)

  -- The rest of a handler, outside every try block, after a step that may throw.
  unfoldable pub after_step :
      {Json : Type 0} → Node Double → Exec (Node Double) → Json → List Task → Handled Json Double
  after_step node (done node') answer tasks = answers node' answer tasks
  after_step node (throws e) answer tasks = escapes e node
  after_step node undefined answer tasks = ill_defined
