-- ===== src/Node/Drained.antt =====
-- What handle_blocks_post of src/node.cc leaves behind when the block cannot be constructed.
use buenzli_coin.Base.{
  ℕ, zero, suc, ◌≡◌, ◌≢◌, refl, sym, ap, ◌∙◌, List, [], ◌∷◌, ◌++◌, Bytes, Option, none, some,
}
use buenzli_coin.Base.Exec.{
  Exec, done, throws, undefined, Error, Outcome, returns, raises, faults, runs_on, Verdict, valid,
  invalid,
}
use buenzli_coin.Base.Steady.{NeverThrows}
use buenzli_coin.Block.{Block, BlockData}
use buenzli_coin.Blockchain.{
  Chain, construct_next_block, construct_checked, mine_block, append_mined,
}
use buenzli_coin.Clock.{TimePoint}
use buenzli_coin.Config.{Config}
use buenzli_coin.Crypto.Keypair.{OpenSsl}
use buenzli_coin.Difficulty.{Floats, Adjuster}
use buenzli_coin.Json.{JsonLib, string_at}
use buenzli_coin.Ledger.{list_data}
use buenzli_coin.Node.{Node, refuses}
use buenzli_coin.Node.Http.{draw, after_updates, after_construct, construct_for, handle_blocks_post}
use buenzli_coin.Node.Steady.{apply_constructed-NeverThrows}
use buenzli_coin.Pool.{Pool}
use buenzli_coin.Transaction.{Transaction}

draw-append : (n : ℕ) (pool : Pool) → pool ≡ (draw n pool).0 ++ (draw n pool).1
unfolding draw
draw-append zero pool = refl
draw-append (suc n) [] = refl
draw-append (suc n) (t ∷ pool) = ap (λ ts. t ∷ ts) (draw-append n pool)

-- If at least one transaction may be taken and there is one, one is taken.
draw-takes : (n : ℕ) (pool : Pool) → n ≢ 0 → pool ≢ [] → (draw n pool).0 ≢ []
unfolding draw
draw-takes zero pool m p e = m refl
draw-takes (suc n) [] m p e = p refl
draw-takes (suc n) (t ∷ pool) m p e = cc

module _ (ssl : OpenSsl) (lib : JsonLib) {Double : Type 0} (floats : Floats Double)
    (config : Config Double) where
  abbrev kind : BlockData lib.Json
  kind = list_data ssl lib config

  mine_block-raises :
      (fuel : ℕ) (clock : ℕ → TimePoint) (b : Block (List Transaction))
      (c c' : Chain (List Transaction) Double) (a : Exec (Adjuster Double)) (e : Error)
      → mine_block ssl lib kind floats config fuel clock b c a ≡ raises e c'
      → c' ≡ c
  unfolding mine_block append_mined
  mine_block-raises fuel clock b c c' (done a) e h = mined _ h
    where
      mined :
          (o : Option (Block (List Transaction)))
          → append_mined ssl lib kind floats config c a o ≡ raises e c'
          → c' ≡ c
      mined none h = cc
      mined (some b') h = cc
  mine_block-raises fuel clock b c c' (throws x) e h = cc
  mine_block-raises fuel clock b c c' undefined e h = cc

  construct_checked-raises :
      (fuel : ℕ) (clock : ℕ → TimePoint) (b : Block (List Transaction))
      (c c' : Chain (List Transaction) Double) (v : Verdict) (e : Error)
      → construct_checked ssl lib kind floats config fuel clock b c v ≡ raises e c'
      → c' ≡ c
  unfolding construct_checked
  construct_checked-raises fuel clock b c c' (invalid x) e h = cc
  construct_checked-raises fuel clock b c c' valid e h = mine_block-raises fuel clock b c c' _ e h

  -- A block that cannot be constructed leaves the chain as it is.
  construct_next_block-raises :
      (fuel : ℕ) (clock : ℕ → TimePoint) (payload : List Transaction)
      (c c' : Chain (List Transaction) Double) (e : Error)
      → construct_next_block ssl lib kind floats config fuel clock payload c ≡ raises e c'
      → c' ≡ c
  unfolding construct_next_block
  construct_next_block-raises fuel clock payload c c' e h =
      construct_checked-raises fuel clock _ c c' _ e h

  -- The updates throw nothing, so the request is refused only where the construction raises.
  after_updates-refuses :
      (node node' : Node Double) (m : Exec (Node Double)) (e : Error)
      → NeverThrows m
      → after_updates ssl lib floats config node m ≢ refuses e node'
  unfolding after_updates
  after_updates-refuses node node' (done n) e s h = cc
  after_updates-refuses node node' (throws x) e s h = absurd s
  after_updates-refuses node node' undefined e s h = cc

  after_construct-refuses :
      (ts : List Transaction) (node node' : Node Double)
      (o : Outcome (Chain (List Transaction) Double)) (e : Error)
      → ((x : Error) (c : Chain (List Transaction) Double) → o ≡ raises x c → c ≡ node.chain)
      → after_construct ssl lib floats config ts node o ≡ refuses e node'
      → node' ≡ node
  unfolding after_construct
  after_construct-refuses ts node node' (returns c) e k h = absurd (
      after_updates-refuses (record node { chain = c }) node' _ e
        (apply_constructed-NeverThrows ts (record node { chain = c })) h)
  after_construct-refuses ts node node' (raises x c) e k h = let same = k x c refl in cc
  after_construct-refuses ts node node' faults e k h = cc
  after_construct-refuses ts node node' runs_on e k h = cc

  refusal :
      (fuel : ℕ) (clock : ℕ → TimePoint) (j : lib.Json) (node node' : Node Double) (address : Bytes)
      (e : Error)
      → string_at lib j "address" ≡ done address
      → handle_blocks_post ssl lib floats config fuel clock j node ≡ refuses e node'
      → node' ≡ record node { pool = (draw config.num_per_block node.pool).1 }
  unfolding handle_blocks_post construct_for
  refusal fuel clock j node node' address e read refused =
      after_construct-refuses _ (record node { pool = (draw config.num_per_block node.pool).1 })
        node' _ e (λ x c h. construct_next_block-raises fuel clock _ node.chain c x h)
        (rw read at refused)

  -- If handle_blocks_post refuses a request that has an address, at a node that takes at least one
  -- transaction into a block and has one in its pool, then the chain and the unspent outputs are as
  -- before, and transactions, at least one, are gone from the front of the pool: they are lost.
  pub drained_lem :
      (fuel : ℕ) (clock : ℕ → TimePoint) (j : lib.Json) (node node' : Node Double) (address : Bytes)
      (e : Error)
      → string_at lib j "address" ≡ done address
      → handle_blocks_post ssl lib floats config fuel clock j node ≡ refuses e node'
      → config.num_per_block ≢ 0
      → node.pool ≢ []
      → (node'.chain ≡ node.chain)
        × (node'.unspent ≡ node.unspent)
        × ((lost : List Transaction) × (lost ≢ []) × (node.pool ≡ lost ++ node'.pool))
  drained_lem fuel clock j node node' address e read refused some_taken some_there =
      let drawn = draw config.num_per_block node.pool in
      let same : node' ≡ record node { pool = drawn.1 } =
        (refusal fuel clock j node node' address e read refused) in
      (
        ap (λ (n : Node Double). n.chain) same,
        ap (λ (n : Node Double). n.unspent) same,
        (
          drawn.0,
          draw-takes config.num_per_block node.pool some_taken some_there,
          draw-append config.num_per_block node.pool
              ∙ ap (λ (n : Node Double). drawn.0 ++ n.pool) (sym same),
        ),
      )
