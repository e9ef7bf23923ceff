-- ===== src/Node/Pooled.antt =====
-- The pool of a node (src/node.cc): every handler leaves a pool within its limit, of accepted
-- transactions that share no input.
use buenzli_coin.Base.{ℕ, arith, sym, subst, List, Bytes, Option}
use buenzli_coin.Base.Exec.{Error}
use buenzli_coin.Clock.{TimePoint}
use buenzli_coin.Config.{Config}
use buenzli_coin.Crypto.Keypair.{OpenSsl}
use buenzli_coin.Difficulty.{Floats}
use buenzli_coin.Json.{JsonLib}
use buenzli_coin.Node.{Node}
use buenzli_coin.Node.Http.{handle_blocks_post, handle_transactions_post, handle_peers_post}
use buenzli_coin.Node.Receive.{
  handle_receive_latest_block, handle_receive_all_blocks, handle_receive_transaction,
}
use buenzli_coin.Node.Settles.{
  Settles, handle_blocks_post-Settles, handle_transactions_post-Settles,
}
use buenzli_coin.Node.Settles.Receive.{
  handle_receive_transaction-Settles, handle_receive_all_blocks-Settles,
}
use buenzli_coin.Node.Settles.Latest.{
  handle_receive_latest_block-Settles, handle_peers_post-Settles,
}
use buenzli_coin.Node.Updates.{
  Updated, apply_constructed-Updated, apply_received-Updated, IsSetUp, blockchain_setup-IsSetUp,
}
use buenzli_coin.Transaction.{Transaction}
use buenzli_coin.Node.Updates.{draw-IsPart}
use buenzli_coin.Pool.Invariant.{IsPool, add-IsPool}
use buenzli_coin.Pool.Part.{IsPool-part}

module _ (ssl : OpenSsl) (lib : JsonLib) {Double : Type 0} (floats : Floats Double)
    (config : Config Double) where
  abbrev pub HasPool : Node Double → Type 0
  HasPool node = IsPool ssl config node.pool

  Updated-HasPool :
      {ts : List Transaction} {node node' : Node Double}
      → Updated ts node node'
      → HasPool node
      → HasPool node'
  Updated-HasPool u p = IsPool-part ssl config u.part p

  pub set_up-HasPool : {node node' : Node Double} → IsSetUp node node' → HasPool node'
  set_up-HasPool s =
      subst (IsPool ssl config) (sym s.empty_pool)
        (record { bounded = omega arith; accepted = tt; disjoint = tt })

  pub handle_blocks_post-HasPool :
      (fuel : ℕ) (clock : ℕ → TimePoint) (j : lib.Json) (node : Node Double)
      → HasPool node
      → Settles HasPool (handle_blocks_post ssl lib floats config fuel clock j node)
  handle_blocks_post-HasPool fuel clock j node p =
      let rest = IsPool-part ssl config (draw-IsPart config.num_per_block node.pool) p in
      handle_blocks_post-Settles ssl lib floats config HasPool fuel clock j node p
        (λ address chain e node' made.
          Updated-HasPool (apply_constructed-Updated _ _ node' made) rest)
        λ address x chain e. rest

  pub handle_receive_all_blocks-HasPool :
      (clock clock' : ℕ → TimePoint) (j : lib.Json) (node : Node Double)
      → HasPool node
      → Settles HasPool (handle_receive_all_blocks ssl lib floats config clock clock' j node)
  handle_receive_all_blocks-HasPool clock clock' j node p =
      handle_receive_all_blocks-Settles ssl lib floats config HasPool clock clock' j node p
        λ chain e node' made. set_up-HasPool (blockchain_setup-IsSetUp _ node' made)

  pub handle_transactions_post-HasPool :
      (send : Transaction → Option Error) (j : lib.Json) (node : Node Double)
      → HasPool node
      → Settles HasPool (handle_transactions_post ssl lib floats config send j node)
  handle_transactions_post-HasPool send j node p =
      handle_transactions_post-Settles ssl lib floats config HasPool send j node p
        λ t pool e. add-IsPool ssl config t node.pool pool p e

  pub handle_receive_transaction-HasPool :
      (j : lib.Json) (node : Node Double)
      → HasPool node
      → Settles HasPool (handle_receive_transaction ssl lib floats config j node)
  handle_receive_transaction-HasPool j node p =
      handle_receive_transaction-Settles ssl lib floats config HasPool j node p
        λ t pool e. add-IsPool ssl config t node.pool pool p e

  module _ (connect : Bytes → ℕ → Option Error) where
    pub handle_receive_latest_block-HasPool :
        (clock : ℕ → TimePoint) (j : lib.Json) (node : Node Double)
        → HasPool node
        → Settles HasPool (handle_receive_latest_block ssl lib floats config connect clock j node)
    handle_receive_latest_block-HasPool clock j node p =
        handle_receive_latest_block-Settles ssl lib floats config connect HasPool clock j node p
          (λ b e far peers' node' made. Updated-HasPool (apply_received-Updated _ _ node' made) p)
          (λ b chain e node' made. Updated-HasPool (apply_received-Updated _ _ node' made) p)
          λ b x chain e. p

    pub handle_peers_post-HasPool :
        (j : lib.Json) (node : Node Double)
        → HasPool node
        → Settles HasPool (handle_peers_post lib connect j node)
    handle_peers_post-HasPool j node p =
        handle_peers_post-Settles lib connect HasPool j node p λ peers'. p
