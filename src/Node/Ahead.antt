-- ===== src/Node/Ahead.antt =====
-- What handle_receive_latest_block of src/node.cc does with a block that is ahead of the chain.
use buenzli_coin.Base.{
  ℕ, ◌<◌, ◌≡◌, ◌≢◌, refl, true, false, ltb, ◌==◌, List, [], ◌∷◌, Bytes, Option, length, arith,
}
use buenzli_coin.Base.Exec.{done, bind_exec, Error, valid}
use buenzli_coin.Block.{Block, valid_block, block_from_json}
use buenzli_coin.Clock.{TimePoint}
use buenzli_coin.Config.{Config}
use buenzli_coin.Crypto.Keypair.{OpenSsl}
use buenzli_coin.Difficulty.{Floats}
use buenzli_coin.Json.{JsonLib, subscript}
use buenzli_coin.Ledger.{list_data}
use buenzli_coin.Node.{Node, request_all_blocks, answers, apply_received, after_step}
use buenzli_coin.Node.Receive.{
  absorb, ahead, place, place_valid, linked, receive_block, origin_of, handle_receive_latest_block,
}
use buenzli_coin.Node.Updates.{apply_received-Updated}
use buenzli_coin.Transaction.{Transaction}
use buenzli_coin.Unspent.{update_all}
use buenzli_coin.Web.Peers

ltb_complete : (m n : ℕ) → m < n → ltb m n ≡ true
ltb_complete m n h = ground arith

not_zero : (n : ℕ) → n ≢ 0 → (n == 0) ≡ false
not_zero n h = ground arith

module _ (ssl : OpenSsl) (lib : JsonLib) {Double : Type 0} (floats : Floats Double)
    (config : Config Double) (connect : Bytes → ℕ → Option Error) where
  -- A valid block of a known peer that is ahead of the chain is not appended, and its transactions
  -- are spent all the same: the handler answers and asks for the chain of the peer, the chain is
  -- what it was, and the unspent outputs are those after the transactions of the block. The premise
  -- is that the updates of the outputs and the pool have a defined result.
  pub ahead_lem :
      (clock : ℕ → TimePoint) (j : lib.Json) (b : Block (List Transaction)) (host : Bytes)
      (port : ℕ) (node node' : Node Double)
      → bind_exec (subscript lib j "block") (block_from_json ssl lib (list_data ssl lib config))
        ≡ done b
      → valid_block ssl lib
          (list_data ssl lib config)
          config
          (clock 0)
          (linked ssl lib floats config connect node b)
        ≡ valid
      → length node.chain.blocks < b.index
      → origin_of ssl lib floats config connect j ≡ done (host, port)
      → Peers.find host port node.peers ≢ 0
      → apply_received (linked ssl lib floats config connect node b).payload node ≡ done node'
      → (handle_receive_latest_block ssl lib floats config connect clock j node
          ≡ answers node' lib.null (request_all_blocks (Peers.find host port node.peers) ∷ []))
        × (node'.chain ≡ node.chain)
        × (update_all (linked ssl lib floats config connect node b).payload node.unspent
            ≡ done node'.unspent)
  unfolding handle_receive_latest_block receive_block place_valid place ahead absorb after_step
      linked
  ahead_lem clock j b host port node node' parsed ok later from known applied =
      let updated = apply_received-Updated _ node node' applied in
      (
        rw (parsed, ok, ltb_complete _ _ later, from, not_zero _ known, applied) refl,
        updated.same_chain,
        updated.spent,
      )
