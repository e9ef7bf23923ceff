-- ===== src/Node/Steady.antt =====
-- No update of the unspent outputs or the pool (src/transaction.cc) throws, so none in a handler of
-- src/node.cc is left half done by an exception.
use buenzli_coin.Base.{Bool, true, false, List, [], ◌∷◌, bytes_eq, if◌then◌else◌}
use buenzli_coin.Base.Exec.{Exec, done, undefined, map_exec}
use buenzli_coin.Base.Steady.{NeverThrows, NeverThrows-map, NeverThrows-bind}
use buenzli_coin.Block.{Block}
use buenzli_coin.EraseLoop.{erase_loop}
use buenzli_coin.Node.{Node, update_blocks, blockchain_setup, apply_constructed, apply_received}
use buenzli_coin.Pool.{Pool, remove, remove_all, prune, prune_round, all_listed}
use buenzli_coin.Transaction.{TxI, UTxO, Transaction, matches}
use buenzli_coin.Unspent.{spend, update, update_all}

erase_loop-NeverThrows {ℓ} :
    {A : Type ℓ} (p : A → Bool) (xs : List A) → NeverThrows (erase_loop p xs)
unfolding erase_loop
erase_loop-NeverThrows p [] = tt
erase_loop-NeverThrows p (x ∷ []) = one (p x)
  where
    one : (b : Bool) → NeverThrows (if b then undefined else done (x ∷ []))
    one true = tt
    one false = tt
erase_loop-NeverThrows p (x ∷ y ∷ ys) =
    two (p x) (NeverThrows-map (λ r. y ∷ r) (erase_loop p ys) (erase_loop-NeverThrows p ys))
      (NeverThrows-map (λ r. x ∷ r) (erase_loop p (y ∷ ys)) (erase_loop-NeverThrows p (y ∷ ys)))
  where
    two :
        (b : Bool)
        → NeverThrows (map_exec (λ r. y ∷ r) (erase_loop p ys))
        → NeverThrows (map_exec (λ r. x ∷ r) (erase_loop p (y ∷ ys)))
        → NeverThrows (elim b [
          | true ↦ map_exec (λ r. y ∷ r) (erase_loop p ys)
          | false ↦ map_exec (λ r. x ∷ r) (erase_loop p (y ∷ ys))
        ])
    two true h k = h
    two false h k = k

spend-NeverThrows : (is : List TxI) (us : List UTxO) → NeverThrows (spend is us)
unfolding spend
spend-NeverThrows [] us = tt
spend-NeverThrows (i ∷ is) us =
    NeverThrows-bind (erase_loop (λ u. matches u i) us) (spend is)
      (erase_loop-NeverThrows (λ u. matches u i) us) (spend-NeverThrows is)

pub update_all-NeverThrows :
    (ts : List Transaction) (us : List UTxO) → NeverThrows (update_all ts us)
unfolding update_all update
update_all-NeverThrows [] us = tt
update_all-NeverThrows (t ∷ ts) us =
    NeverThrows-bind (update t us) (update_all ts) (spend-NeverThrows t.inputs _)
      (update_all-NeverThrows ts)

remove_all-NeverThrows : (ts : List Transaction) (pool : Pool) → NeverThrows (remove_all ts pool)
unfolding remove_all remove
remove_all-NeverThrows [] pool = tt
remove_all-NeverThrows (t ∷ ts) pool =
    NeverThrows-bind (remove t pool) (remove_all ts)
      (erase_loop-NeverThrows (λ t'. bytes_eq t'.hash t.hash) pool) (remove_all-NeverThrows ts)

prune-NeverThrows : (us : List UTxO) (pool : Pool) → NeverThrows (prune us pool)
unfolding prune
prune-NeverThrows us [] = tt
prune-NeverThrows us (t ∷ pool) =
    round (all_listed us t.inputs) (prune us pool) (prune-NeverThrows us pool)
  where
    round : (b : Bool) (rest : Exec Pool) → NeverThrows rest → NeverThrows (prune_round b t rest)
    round true rest h = NeverThrows-map (λ ts. t ∷ ts) rest h
    round false rest h = tt

update_blocks-NeverThrows :
    (bs : List (Block (List Transaction))) (us : List UTxO) → NeverThrows (update_blocks bs us)
unfolding update_blocks
update_blocks-NeverThrows [] us = tt
update_blocks-NeverThrows (b ∷ bs) us =
    NeverThrows-bind (update_all b.payload us) (update_blocks bs)
      (update_all-NeverThrows b.payload us) (update_blocks-NeverThrows bs)

module _ {Double : Type 0} where
  pub blockchain_setup-NeverThrows : (node : Node Double) → NeverThrows (blockchain_setup node)
  unfolding blockchain_setup
  blockchain_setup-NeverThrows node =
      NeverThrows-map _ (update_blocks node.chain.blocks [])
        (update_blocks-NeverThrows node.chain.blocks [])

  pub apply_constructed-NeverThrows :
      (ts : List Transaction) (node : Node Double) → NeverThrows (apply_constructed ts node)
  unfolding apply_constructed
  apply_constructed-NeverThrows ts node =
      NeverThrows-bind (update_all ts node.unspent) _ (update_all-NeverThrows ts node.unspent)
        λ us. NeverThrows-map _ (prune us node.pool) (prune-NeverThrows us node.pool)

  pub apply_received-NeverThrows :
      (ts : List Transaction) (node : Node Double) → NeverThrows (apply_received ts node)
  unfolding apply_received
  apply_received-NeverThrows ts node =
      NeverThrows-bind (update_all ts node.unspent) _ (update_all-NeverThrows ts node.unspent) λ us.
        NeverThrows-bind (remove_all ts node.pool) _ (remove_all-NeverThrows ts node.pool)
          λ pool. NeverThrows-map _ (prune us pool) (prune-NeverThrows us pool)
