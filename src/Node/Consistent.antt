-- ===== src/Node/Consistent.antt =====
-- Whether the unspent outputs of a node (src/node.cc) are those of its chain: what the list of
-- unspent outputs is for, and what blockchain_setup establishes.
use buenzli_coin.Base.{ℕ, ◌≤◌, ◌≡◌, ap, ◌∙◌, subst, arith, [], List, Bytes, Option}
use buenzli_coin.Base.Exec.{Error, returns}
use buenzli_coin.Block.{Block}
use buenzli_coin.Blockchain.{Chain, construct_next_block}
use buenzli_coin.Clock.{TimePoint}
use buenzli_coin.Config.{Config}
use buenzli_coin.Crypto.Keypair.{OpenSsl}
use buenzli_coin.Difficulty.{Floats}
use buenzli_coin.Json.{JsonLib, subscript}
use buenzli_coin.Ledger.{list_data}
use buenzli_coin.Node.{Node}
use buenzli_coin.Node.Http.{handle_blocks_post, handle_transactions_post, handle_peers_post}
use buenzli_coin.Node.Receive.{
  handle_receive_latest_block, handle_receive_all_blocks, handle_receive_transaction,
}
use buenzli_coin.Node.Settles.{
  Settles, assembled, handle_blocks_post-Settles, handle_transactions_post-Settles,
}
use buenzli_coin.Node.Settles.Receive.{
  handle_receive_transaction-Settles, handle_receive_all_blocks-Settles,
}
use buenzli_coin.Node.Settles.Latest.{
  handle_receive_latest_block-Settles, handle_peers_post-Settles,
}
use buenzli_coin.Node.Updates.{
  Updated, apply_constructed-Updated, apply_received-Updated, blockchain_setup-IsSetUp,
}
use buenzli_coin.Transaction.{Transaction}
use buenzli_coin.Blockchain.Extension.{
  Extends, append_next_block-Extends, construct_next_block-Extends,
}
use buenzli_coin.Node.Updates.{update_blocks-snoc}
use buenzli_coin.Base.{length}
use buenzli_coin.Base.Exec.{done, bind_exec}
use buenzli_coin.Block.{block_from_json}
use buenzli_coin.Node.{update_blocks}
use buenzli_coin.Unspent.{update_all}

module _ {Double : Type 0} where
  -- The unspent outputs are those that the transactions of the chain leave.
  abbrev pub IsConsistent : Node Double → Type 0
  IsConsistent node = update_blocks node.chain.blocks [] ≡ done node.unspent

  -- A chain that is one block longer, and the outputs after the transactions of the block.
  extended-IsConsistent :
      {ts : List Transaction} (node : Node Double) (pool : List Transaction)
      (chain : Chain (List Transaction) Double) (node' : Node Double)
      → IsConsistent node
      → Extends ts node.chain.blocks (returns chain)
      → Updated ts (record node { chain = chain; pool = pool }) node'
      → IsConsistent node'
  extended-IsConsistent node pool chain node' c (b, e, p) u =
      ap (λ (k : Chain (List Transaction) Double). update_blocks k.blocks []) u.same_chain
      ∙ ap (λ bs. update_blocks bs []) e
      ∙ update_blocks-snoc node.chain.blocks b []
      ∙ ap (λ m. bind_exec m (update_all b.payload)) c
      ∙ ap (λ l. update_all l node.unspent) p
      ∙ u.spent

module _ (ssl : OpenSsl) (lib : JsonLib) {Double : Type 0} (floats : Floats Double)
    (config : Config Double) where
  constructed :
      (fuel : ℕ) (clock : ℕ → TimePoint) (address : Bytes) (node : Node Double)
      → Extends (assembled ssl lib floats config IsConsistent address node) node.chain.blocks (
          construct_next_block ssl lib
            (list_data ssl lib config)
            floats
            config
            fuel
            clock
            (assembled ssl lib floats config IsConsistent address node)
            node.chain)
  constructed fuel clock address node =
      construct_next_block-Extends ssl lib (list_data ssl lib config) floats config fuel clock _
        node.chain

  -- handle_blocks_post keeps the unspent outputs those of the chain, however it ends.
  pub handle_blocks_post-IsConsistent :
      (fuel : ℕ) (clock : ℕ → TimePoint) (j : lib.Json) (node : Node Double)
      → IsConsistent node
      → Settles IsConsistent (handle_blocks_post ssl lib floats config fuel clock j node)
  handle_blocks_post-IsConsistent fuel clock j node c =
      handle_blocks_post-Settles ssl lib floats config IsConsistent fuel clock j node c
        (λ address chain e node' made.
          extended-IsConsistent node _ chain node' c
            (subst (Extends _ node.chain.blocks) e (constructed fuel clock address node))
            (apply_constructed-Updated _ _ node' made))
        λ address x chain e.
          ap (λ bs. update_blocks bs [])
            (subst
              (Extends (assembled ssl lib floats config IsConsistent address node)
                node.chain.blocks)
              e (constructed fuel clock address node))
          ∙ c

  -- handle_receive_all_blocks keeps the unspent outputs those of the chain, however it ends.
  pub handle_receive_all_blocks-IsConsistent :
      (clock clock' : ℕ → TimePoint) (j : lib.Json) (node : Node Double)
      → IsConsistent node
      → Settles IsConsistent (handle_receive_all_blocks ssl lib floats config clock clock' j node)
  handle_receive_all_blocks-IsConsistent clock clock' j node c =
      handle_receive_all_blocks-Settles ssl lib floats config IsConsistent clock clock' j node c
        λ chain e node' made.
          let setup = blockchain_setup-IsSetUp (record node { chain = chain }) node' made in
          ap (λ (k : Chain (List Transaction) Double). update_blocks k.blocks []) setup.same_chain
          ∙ setup.replayed

  pub handle_transactions_post-IsConsistent :
      (send : Transaction → Option Error) (j : lib.Json) (node : Node Double)
      → IsConsistent node
      → Settles IsConsistent (handle_transactions_post ssl lib floats config send j node)
  handle_transactions_post-IsConsistent send j node c =
      handle_transactions_post-Settles ssl lib floats config IsConsistent send j node c
        λ t pool e. c

  pub handle_receive_transaction-IsConsistent :
      (j : lib.Json) (node : Node Double)
      → IsConsistent node
      → Settles IsConsistent (handle_receive_transaction ssl lib floats config j node)
  handle_receive_transaction-IsConsistent j node c =
      handle_receive_transaction-Settles ssl lib floats config IsConsistent j node c λ t pool e. c

  -- The block of a message is not ahead of the chain.
  abbrev pub NotAhead : lib.Json → Node Double → Type 0
  NotAhead j node =
      (b : Block (List Transaction))
      → bind_exec (subscript lib j "block") (block_from_json ssl lib (list_data ssl lib config))
        ≡ done b
      → b.index ≤ length node.chain.blocks

  module _ (connect : Bytes → ℕ → Option Error) where
    -- handle_receive_latest_block keeps the unspent outputs those of the chain, however it ends, if
    -- the block that it is sent is not ahead of the chain.
    pub handle_receive_latest_block-IsConsistent :
        (clock : ℕ → TimePoint) (j : lib.Json) (node : Node Double)
        → NotAhead j node
        → IsConsistent node
        → Settles IsConsistent
            (handle_receive_latest_block ssl lib floats config connect clock j node)
    handle_receive_latest_block-IsConsistent clock j node le c =
        let appended =
          append_next_block-Extends ssl lib (list_data ssl lib config) floats config (clock 1) in
        handle_receive_latest_block-Settles ssl lib floats config connect IsConsistent clock j node
          c (λ b e far. let near = le b e in absurd (omega arith))
          (λ b chain e node' made.
            extended-IsConsistent node node.pool chain node' c
              (subst (Extends b.payload node.chain.blocks) e (appended b node.chain))
              (apply_received-Updated _ _ node' made))
          λ b x chain e.
            ap (λ bs. update_blocks bs [])
              (subst (Extends b.payload node.chain.blocks) e (appended b node.chain))
            ∙ c

    pub handle_peers_post-IsConsistent :
        (j : lib.Json) (node : Node Double)
        → IsConsistent node
        → Settles IsConsistent (handle_peers_post lib connect j node)
    handle_peers_post-IsConsistent j node c =
        handle_peers_post-Settles lib connect IsConsistent j node c λ peers'. c
