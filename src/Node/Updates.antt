-- ===== src/Node/Updates.antt =====
-- What the updates of a node in src/node.cc do to its chain, its unspent outputs and its pool.
use mathlib.Core.Path.{fun_ext}
use buenzli_coin.Base.{ℕ, zero, suc, ◌≡◌, refl, sym, ap, ◌∙◌, subst, List, [], ◌∷◌, ◌++◌}
use buenzli_coin.Base.Exec.{
  Exec, done, throws, undefined, map_exec, bind_exec, bind_exec-eq-done, done-injective,
}
use buenzli_coin.Base.Steady.{bind_exec_assoc, bind_exec-done}
use buenzli_coin.Block.{Block}
use buenzli_coin.Node.{Node, blockchain_setup, update_blocks, apply_constructed, apply_received}
use buenzli_coin.Node.Http.{draw}
use buenzli_coin.Pool.{Pool, prune, remove_all}
use buenzli_coin.Pool.Part.{
  IsPart, nil, skip, IsPart-refl, IsPart-trans, remove_all-IsPart, prune-IsPart,
}
use buenzli_coin.Transaction.{UTxO, Transaction}
use buenzli_coin.Unspent.{update_all}

pub map_exec-eq-done {ℓ κ} :
    {A : Type ℓ} {B : Type κ} (f : A → B) (m : Exec A) {b : B}
    → map_exec f m ≡ done b
    → (a : A) × (m ≡ done a) × (f a ≡ b)
map_exec-eq-done f (done a) e = (a, refl, done-injective e)
map_exec-eq-done f (throws x) e = cc
map_exec-eq-done f undefined e = cc

pub draw-IsPart : (n : ℕ) (pool : Pool) → IsPart (draw n pool).1 pool
unfolding draw
draw-IsPart zero pool = IsPart-refl pool
draw-IsPart (suc n) [] = nil
draw-IsPart (suc n) (t ∷ pool) = skip (draw-IsPart n pool)

pub update_blocks-snoc :
    (bs : List (Block (List Transaction))) (b : Block (List Transaction)) (us : List UTxO)
    → update_blocks (bs ++ b ∷ []) us ≡ bind_exec (update_blocks bs us) (update_all b.payload)
unfolding update_blocks
update_blocks-snoc [] b us = bind_exec-done (update_all b.payload us)
update_blocks-snoc (c ∷ bs) b us =
    ap (bind_exec (update_all c.payload us)) (fun_ext (λ us'. update_blocks-snoc bs b us'))
    ∙ sym (bind_exec_assoc (update_all c.payload us) (update_blocks bs) (update_all b.payload))

module _ {Double : Type 0} where
  -- The chain is what it was, the unspent outputs are those after the transactions, and the pool is
  -- a part of what it was.
  pub record Updated (ts : List Transaction) (node node' : Node Double) : Type 0 where
    pub same_chain : node'.chain ≡ node.chain
    pub spent : update_all ts node.unspent ≡ done node'.unspent
    pub part : IsPart node'.pool node.pool

  Updated-by :
      {ts : List Transaction} {node node' : Node Double} {us : List UTxO} {pool : Pool}
      → update_all ts node.unspent ≡ done us
      → IsPart pool node.pool
      → record node { unspent = us; pool = pool } ≡ node'
      → Updated ts node node'
  Updated-by updated part e =
      subst (Updated _ _) e (record { same_chain = refl; spent = updated; part = part })

  pub apply_constructed-Updated :
      (ts : List Transaction) (node node' : Node Double)
      → apply_constructed ts node ≡ done node'
      → Updated ts node node'
  unfolding apply_constructed
  apply_constructed-Updated ts node node' e =
      let (us, updated, rest) = bind_exec-eq-done (update_all ts node.unspent) _ e in
      let (pool, pruned, made) = map_exec-eq-done _ (prune us node.pool) rest in
      Updated-by updated (prune-IsPart us node.pool pool pruned) made

  pub apply_received-Updated :
      (ts : List Transaction) (node node' : Node Double)
      → apply_received ts node ≡ done node'
      → Updated ts node node'
  unfolding apply_received
  apply_received-Updated ts node node' e =
      let (us, updated, rest) = bind_exec-eq-done (update_all ts node.unspent) _ e in
      let (pool, removed, rest') = bind_exec-eq-done (remove_all ts node.pool) _ rest in
      let (pool', pruned, made) = map_exec-eq-done _ (prune us pool) rest' in
      Updated-by updated
        (IsPart-trans (prune-IsPart us pool pool' pruned)
          (remove_all-IsPart ts node.pool pool removed))
        made

  -- The unspent outputs are those of the chain, and the pool is empty.
  pub record IsSetUp (node node' : Node Double) : Type 0 where
    pub same_chain : node'.chain ≡ node.chain
    pub replayed : update_blocks node.chain.blocks [] ≡ done node'.unspent
    pub empty_pool : node'.pool ≡ []

  pub blockchain_setup-IsSetUp :
      (node node' : Node Double) → blockchain_setup node ≡ done node' → IsSetUp node node'
  unfolding blockchain_setup
  blockchain_setup-IsSetUp node node' e =
      let (us, updated, made) = map_exec-eq-done _ (update_blocks node.chain.blocks []) e in
      subst (IsSetUp node) made
        (record { same_chain = refl; replayed = updated; empty_pool = refl })
