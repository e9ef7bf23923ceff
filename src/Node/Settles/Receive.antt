-- ===== src/Node/Settles/Receive.antt =====
-- The rules for handle_receive_transaction and handle_receive_all_blocks of src/node.cc.
use buenzli_coin.Base.{ℕ, ◌≡◌, refl, Bool-cases, inl, inr, List, []}
use buenzli_coin.Base.Exec.{
  Result, ok, err, Exec, done, throws, undefined, bind_exec, Verdict, valid, invalid,
}
use buenzli_coin.Blockchain.{Chain, is_greater, chain_from_json}
use buenzli_coin.Clock.{TimePoint}
use buenzli_coin.Config.{Config}
use buenzli_coin.Crypto.Keypair.{OpenSsl}
use buenzli_coin.Difficulty.{Floats}
use buenzli_coin.Json.{JsonLib, subscript}
use buenzli_coin.Ledger.{list_data}
use buenzli_coin.Node.{Node, blockchain_setup}
use buenzli_coin.Node.Receive.{
  replace, receive_chain, handle_receive_all_blocks, keep_or_add, receive_parsed,
  handle_receive_transaction,
}
use buenzli_coin.Node.Steady.{blockchain_setup-NeverThrows}
use buenzli_coin.Pool.{Pool, add}
use buenzli_coin.Transaction.{Transaction}
use buenzli_coin.Node.Settles.{Settles, after_step-Settles}

module _ (ssl : OpenSsl) (lib : JsonLib) {Double : Type 0} (floats : Floats Double)
    (config : Config Double) (P : Node Double → Type 0) where
  keep_or_add-Settles :
      (node : Node Double) (r : Result Pool)
      → P node
      → ((pool : Pool) → r ≡ ok pool → P (record node { pool = pool }))
      → Settles P (keep_or_add ssl lib floats config node r)
  unfolding keep_or_add
  keep_or_add-Settles node (ok pool) p h = h pool refl
  keep_or_add-Settles node (err x) p h = p

  receive_parsed-Settles :
      (node : Node Double) (r : Result Transaction)
      → P node
      → ((t : Transaction) (pool : Pool)
          → add ssl config t node.pool ≡ ok pool
          → P (record node { pool = pool }))
      → Settles P (receive_parsed ssl lib floats config node r)
  unfolding receive_parsed
  receive_parsed-Settles node (err e) p h = p
  receive_parsed-Settles node (ok t) p h = keep_or_add-Settles node _ p (h _)

  pub handle_receive_transaction-Settles :
      (j : lib.Json) (node : Node Double)
      → P node
      → ((t : Transaction) (pool : Pool)
          → add ssl config t node.pool ≡ ok pool
          → P (record node { pool = pool }))
      → Settles P (handle_receive_transaction ssl lib floats config j node)
  unfolding handle_receive_transaction
  handle_receive_transaction-Settles j node p h = receive_parsed-Settles node _ p h

  replace-Settles :
      (node : Node Double) (chain : Chain (List Transaction) Double) (v : Verdict)
      → P node
      → ((node' : Node Double)
          → blockchain_setup (record node { chain = chain }) ≡ done node'
          → P node')
      → Settles P (replace ssl lib floats config node chain v)
  unfolding replace
  replace-Settles node chain (invalid e) p h = p
  replace-Settles node chain valid p h =
      let node₁ : Node Double = record node { chain = chain } in
      elim (Bool-cases (is_greater floats config chain node.chain)) [
        | inl e ↦ rw e (
            after_step-Settles P node₁ (blockchain_setup node₁) lib.null []
              (blockchain_setup-NeverThrows node₁) h)
        | inr e ↦ rw e p
      ]

  receive_chain-Settles :
      (clock : ℕ → TimePoint) (node : Node Double) (r : Exec (Chain (List Transaction) Double))
      → P node
      → ((chain : Chain (List Transaction) Double)
          → r ≡ done chain
          → (node' : Node Double) → blockchain_setup (record node { chain = chain }) ≡ done node'
          → P node')
      → Settles P (receive_chain ssl lib floats config clock node r)
  unfolding receive_chain
  receive_chain-Settles clock node (throws e) p h = p
  receive_chain-Settles clock node undefined p h = tt
  receive_chain-Settles clock node (done chain) p h = replace-Settles node chain _ p (h chain refl)

  pub handle_receive_all_blocks-Settles :
      (clock clock' : ℕ → TimePoint) (j : lib.Json) (node : Node Double)
      → P node
      → ((chain : Chain (List Transaction) Double)
          → bind_exec
              (subscript lib j "blockchain")
              (chain_from_json ssl lib (list_data ssl lib config) floats config clock)
            ≡ done chain
          → (node' : Node Double) → blockchain_setup (record node { chain = chain }) ≡ done node'
          → P node')
      → Settles P (handle_receive_all_blocks ssl lib floats config clock clock' j node)
  unfolding handle_receive_all_blocks
  handle_receive_all_blocks-Settles clock clock' j node p h =
      receive_chain-Settles clock' node _ p h
