-- ===== src/Node/Safety.antt =====
-- Which chain a handler of src/node.cc leaves behind, however it ends.
use buenzli_coin.Base.{ℕ, ◌≡◌, sym, subst, List, Bytes, Option, none}
use buenzli_coin.Base.Exec.{bind_exec-eq-done, Error, Outcome}
use buenzli_coin.Blockchain.{Chain, construct_next_block, chain_from_json}
use buenzli_coin.Blockchain.Built.{Built-IsLinked, chain_from_json-Built}
use buenzli_coin.Blockchain.Growth.{
  Leaves, append_next_block-IsLinked, construct_next_block-IsLinked,
}
use buenzli_coin.Blockchain.Linked.{IsLinked}
use buenzli_coin.Clock.{TimePoint}
use buenzli_coin.Config.{Config}
use buenzli_coin.Crypto.Keypair.{OpenSsl}
use buenzli_coin.Difficulty.{Floats}
use buenzli_coin.Json.{JsonLib, subscript}
use buenzli_coin.Ledger.{list_data}
use buenzli_coin.Node.{Node}
use buenzli_coin.Node.Http.{handle_blocks_post, handle_transactions_post, handle_peers_post}
use buenzli_coin.Node.Receive.{
  handle_receive_latest_block, handle_receive_all_blocks, handle_receive_transaction,
}
use buenzli_coin.Node.Settles.{
  Settles, assembled, handle_blocks_post-Settles, handle_transactions_post-Settles,
}
use buenzli_coin.Node.Settles.Receive.{
  handle_receive_transaction-Settles, handle_receive_all_blocks-Settles,
}
use buenzli_coin.Node.Settles.Latest.{
  handle_receive_latest_block-Settles, handle_peers_post-Settles,
}
use buenzli_coin.Node.Updates.{
  apply_constructed-Updated, apply_received-Updated, blockchain_setup-IsSetUp,
}
use buenzli_coin.Transaction.{Transaction}

module _ (ssl : OpenSsl) (lib : JsonLib) {Double : Type 0} (floats : Floats Double)
    (config : Config Double) where
  -- Every block of the chain carries its own hash and valid data and follows the block before it.
  abbrev pub IsSafe : Node Double → Type 0
  IsSafe node = IsLinked ssl lib (list_data ssl lib config) none node.chain.blocks

  pub same-IsSafe :
      (node node' : Node Double)
      → node'.chain ≡ node.chain
      → IsLinked ssl lib (list_data ssl lib config) none node.chain.blocks
      → IsSafe node'
  same-IsSafe node node' same =
      subst
        (λ (c : Chain (List Transaction) Double).
          IsLinked ssl lib (list_data ssl lib config) none c.blocks)
        (sym same)

  abbrev LeavesLinked : Outcome (Chain (List Transaction) Double) → Type 0
  LeavesLinked = Leaves λ (c : Chain (List Transaction) Double).
      IsLinked ssl lib (list_data ssl lib config) none c.blocks

  constructed :
      (fuel : ℕ) (clock : ℕ → TimePoint) (address : Bytes) (node : Node Double)
      → IsSafe node
      → LeavesLinked (
          construct_next_block ssl lib
            (list_data ssl lib config)
            floats
            config
            fuel
            clock
            (assembled ssl lib floats config IsSafe address node)
            node.chain)
  constructed fuel clock address node =
      construct_next_block-IsLinked ssl lib (list_data ssl lib config) floats config fuel clock _
        node.chain

  -- handle_blocks_post leaves a linked chain, if it found one, also where it refuses.
  pub handle_blocks_post-Keeps :
      (fuel : ℕ) (clock : ℕ → TimePoint) (j : lib.Json) (node : Node Double)
      → IsSafe node
      → Settles IsSafe (handle_blocks_post ssl lib floats config fuel clock j node)
  handle_blocks_post-Keeps fuel clock j node p =
      handle_blocks_post-Settles ssl lib floats config IsSafe fuel clock j node p
        (λ address chain e node' made.
          same-IsSafe (record node { chain = chain }) node'
            (apply_constructed-Updated _ _ node' made).same_chain
            (subst LeavesLinked e (constructed fuel clock address node p)))
        λ address x chain e. subst LeavesLinked e (constructed fuel clock address node p)

  -- handle_receive_all_blocks leaves a linked chain, if it found one.
  pub handle_receive_all_blocks-Keeps :
      (clock clock' : ℕ → TimePoint) (j : lib.Json) (node : Node Double)
      → IsSafe node
      → Settles IsSafe (handle_receive_all_blocks ssl lib floats config clock clock' j node)
  handle_receive_all_blocks-Keeps clock clock' j node p =
      handle_receive_all_blocks-Settles ssl lib floats config IsSafe clock clock' j node p
        λ chain e node' made.
          let (j', _, built) =
            bind_exec-eq-done (subscript lib j "blockchain")
              (chain_from_json ssl lib (list_data ssl lib config) floats config clock) e in
          same-IsSafe (record node { chain = chain }) node'
            (blockchain_setup-IsSetUp _ node' made).same_chain
            (Built-IsLinked ssl lib (list_data ssl lib config) floats config (
              chain_from_json-Built ssl lib (list_data ssl lib config) floats config clock j'
                built))

  pub handle_transactions_post-Keeps :
      (send : Transaction → Option Error) (j : lib.Json) (node : Node Double)
      → IsSafe node
      → Settles IsSafe (handle_transactions_post ssl lib floats config send j node)
  handle_transactions_post-Keeps send j node p =
      handle_transactions_post-Settles ssl lib floats config IsSafe send j node p λ t pool e. p

  pub handle_receive_transaction-Keeps :
      (j : lib.Json) (node : Node Double)
      → IsSafe node
      → Settles IsSafe (handle_receive_transaction ssl lib floats config j node)
  handle_receive_transaction-Keeps j node p =
      handle_receive_transaction-Settles ssl lib floats config IsSafe j node p λ t pool e. p

  module _ (connect : Bytes → ℕ → Option Error) where
    -- handle_receive_latest_block leaves a linked chain, if it found one, also where it refuses.
    pub handle_receive_latest_block-Keeps :
        (clock : ℕ → TimePoint) (j : lib.Json) (node : Node Double)
        → IsSafe node
        → Settles IsSafe (handle_receive_latest_block ssl lib floats config connect clock j node)
    handle_receive_latest_block-Keeps clock j node p =
        let appended =
          append_next_block-IsLinked ssl lib (list_data ssl lib config) floats config in
        handle_receive_latest_block-Settles ssl lib floats config connect IsSafe clock j node p
          (λ b e far peers' node' made.
            same-IsSafe node node' (apply_received-Updated _ _ node' made).same_chain p)
          (λ b chain e node' made.
            same-IsSafe (record node { chain = chain }) node'
              (apply_received-Updated _ _ node' made).same_chain
              (subst LeavesLinked e (appended (clock 1) b node.chain p)))
          λ b x chain e. subst LeavesLinked e (appended (clock 1) b node.chain p)

    pub handle_peers_post-Keeps :
        (j : lib.Json) (node : Node Double)
        → IsSafe node
        → Settles IsSafe (handle_peers_post lib connect j node)
    handle_peers_post-Keeps j node p =
        handle_peers_post-Settles lib connect IsSafe j node p λ peers'. p
