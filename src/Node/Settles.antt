-- ===== src/Node/Settles.antt =====
-- One rule for each handler of src/node.cc that changes the state: what a property of nodes needs, to
-- hold of the node that the handler leaves.
pub mod Receive
pub mod Latest
use buenzli_coin.Base.{ℕ, ◌≡◌, refl, List, ◌∷◌, Bytes, Option, none, some, length}
use buenzli_coin.Base.Exec.{
  Result, ok, err, Exec, done, throws, undefined, Error, Outcome, returns, raises, faults, runs_on,
}
use buenzli_coin.Base.Steady.{NeverThrows}
use buenzli_coin.Blockchain.{Chain, construct_next_block}
use buenzli_coin.Clock.{TimePoint}
use buenzli_coin.Config.{Config}
use buenzli_coin.Crypto.Keypair.{OpenSsl}
use buenzli_coin.Difficulty.{Floats}
use buenzli_coin.Json.{JsonLib}
use buenzli_coin.Ledger.{list_data}
use buenzli_coin.Node.{
  Node, Task, Handled, answers, refuses, escapes, ill_defined, still_mining, apply_constructed,
  after_step,
}
use buenzli_coin.Node.Http.{
  draw, after_updates, after_construct, construct_for, handle_blocks_post, after_send, after_add,
  add_parsed, handle_transactions_post,
}
use buenzli_coin.Node.Steady.{apply_constructed-NeverThrows}
use buenzli_coin.Pool.{Pool, add}
use buenzli_coin.Transaction.{Transaction, make_reward}

-- The node that a handler leaves has a property, however the handler ends.
abbrev pub Settles : {Json Double : Type 0} → (Node Double → Type 0) → Handled Json Double → Type 0
Settles P (answers node j tasks) = P node
Settles P (refuses e node) = P node
Settles P (escapes e node) = P node
Settles P ill_defined = Unit
Settles P still_mining = Unit

module _ {Double : Type 0} (P : Node Double → Type 0) where
  pub after_step-Settles :
      {Json : Type 0} (node : Node Double) (r : Exec (Node Double)) (j : Json) (tasks : List Task)
      → NeverThrows r
      → ((node' : Node Double) → r ≡ done node' → P node')
      → Settles P (after_step node r j tasks)
  unfolding after_step
  after_step-Settles node (done node') j tasks steady h = h node' refl
  after_step-Settles node (throws e) j tasks steady h = absurd steady
  after_step-Settles node undefined j tasks steady h = tt

module _ (ssl : OpenSsl) (lib : JsonLib) {Double : Type 0} (floats : Floats Double)
    (config : Config Double) (P : Node Double → Type 0) where
  after_updates-Settles :
      (node : Node Double) (r : Exec (Node Double))
      → NeverThrows r
      → ((node' : Node Double) → r ≡ done node' → P node')
      → Settles P (after_updates ssl lib floats config node r)
  unfolding after_updates
  after_updates-Settles node (done node') steady h = h node' refl
  after_updates-Settles node (throws e) steady h = absurd steady
  after_updates-Settles node undefined steady h = tt

  after_construct-Settles :
      (ts : List Transaction) (node : Node Double) (o : Outcome (Chain (List Transaction) Double))
      → ((chain : Chain (List Transaction) Double)
          → o ≡ returns chain
          → (node' : Node Double)
          → apply_constructed ts (record node { chain = chain }) ≡ done node'
          → P node')
      → ((e : Error) (chain : Chain (List Transaction) Double)
          → o ≡ raises e chain
          → P (record node { chain = chain }))
      → Settles P (after_construct ssl lib floats config ts node o)
  unfolding after_construct
  after_construct-Settles ts node (returns chain) h k =
      after_updates-Settles (record node { chain = chain }) _
        (apply_constructed-NeverThrows ts (record node { chain = chain })) (h chain refl)
  after_construct-Settles ts node (raises e chain) h k = k e chain refl
  after_construct-Settles ts node faults h k = tt
  after_construct-Settles ts node runs_on h k = tt

  -- The node after the transactions are taken out of the pool.
  abbrev pub drained : Node Double → Node Double
  drained node = record node { pool = (draw config.num_per_block node.pool).1 }

  -- The transactions of the block that is constructed.
  abbrev pub assembled : Bytes → Node Double → List Transaction
  assembled address node =
      make_reward ssl config address (length node.chain.blocks)
      ∷ (draw config.num_per_block node.pool).0

  construct_for-Settles :
      (fuel : ℕ) (clock : ℕ → TimePoint) (node : Node Double) (r : Exec Bytes)
      → P node
      → ((address : Bytes) (chain : Chain (List Transaction) Double)
          → construct_next_block ssl lib
              (list_data ssl lib config)
              floats
              config
              fuel
              clock
              (assembled address node)
              node.chain
            ≡ returns chain
          → (node' : Node Double)
          → apply_constructed (assembled address node) (record (drained node) { chain = chain })
            ≡ done node'
          → P node')
      → ((address : Bytes) (e : Error) (chain : Chain (List Transaction) Double)
          → construct_next_block ssl lib
              (list_data ssl lib config)
              floats
              config
              fuel
              clock
              (assembled address node)
              node.chain
            ≡ raises e chain
          → P (record (drained node) { chain = chain }))
      → Settles P (construct_for ssl lib floats config fuel clock node r)
  unfolding construct_for
  construct_for-Settles fuel clock node (throws e) p h k = p
  construct_for-Settles fuel clock node undefined p h k = tt
  construct_for-Settles fuel clock node (done address) p h k =
      after_construct-Settles (assembled address node) (drained node) _ (h address) (k address)

  pub handle_blocks_post-Settles :
      (fuel : ℕ) (clock : ℕ → TimePoint) (j : lib.Json) (node : Node Double)
      → P node
      → ((address : Bytes) (chain : Chain (List Transaction) Double)
          → construct_next_block ssl lib
              (list_data ssl lib config)
              floats
              config
              fuel
              clock
              (assembled address node)
              node.chain
            ≡ returns chain
          → (node' : Node Double)
          → apply_constructed (assembled address node) (record (drained node) { chain = chain })
            ≡ done node'
          → P node')
      → ((address : Bytes) (e : Error) (chain : Chain (List Transaction) Double)
          → construct_next_block ssl lib
              (list_data ssl lib config)
              floats
              config
              fuel
              clock
              (assembled address node)
              node.chain
            ≡ raises e chain
          → P (record (drained node) { chain = chain }))
      → Settles P (handle_blocks_post ssl lib floats config fuel clock j node)
  unfolding handle_blocks_post
  handle_blocks_post-Settles fuel clock j node p h k = construct_for-Settles fuel clock node _ p h k

  after_add-Settles :
      (send : Transaction → Option Error) (node : Node Double) (t : Transaction) (r : Result Pool)
      → P node
      → ((pool : Pool) → r ≡ ok pool → P (record node { pool = pool }))
      → Settles P (after_add ssl lib floats config send node t r)
  unfolding after_add after_send
  after_add-Settles send node t (ok pool) p h = sent (send t)
    where
      sent :
          (o : Option Error)
          → Settles P (after_send ssl lib floats config (record node { pool = pool }) t o)
      sent none = h pool refl
      sent (some x) = h pool refl
  after_add-Settles send node t (err x) p h = p

  add_parsed-Settles :
      (send : Transaction → Option Error) (node : Node Double) (r : Result Transaction)
      → P node
      → ((t : Transaction) (pool : Pool)
          → add ssl config t node.pool ≡ ok pool
          → P (record node { pool = pool }))
      → Settles P (add_parsed ssl lib floats config send node r)
  unfolding add_parsed
  add_parsed-Settles send node (err e) p h = p
  add_parsed-Settles send node (ok t) p h = after_add-Settles send node _ _ p (h _)

  pub handle_transactions_post-Settles :
      (send : Transaction → Option Error) (j : lib.Json) (node : Node Double)
      → P node
      → ((t : Transaction) (pool : Pool)
          → add ssl config t node.pool ≡ ok pool
          → P (record node { pool = pool }))
      → Settles P (handle_transactions_post ssl lib floats config send j node)
  unfolding handle_transactions_post
  handle_transactions_post-Settles send j node p h = add_parsed-Settles send node _ p h
