-- ===== src/Pool/Removal.antt =====
-- The members of the pool in src/transaction.cc that take transactions out.
use buenzli_coin.Base.{
  ◌≤◌, ◌≡◌, ◌≢◌, ◌↔◌, refl, sym, ◌∙◌, Bool, true, false, List, [], ◌∷◌, All, arith, bytes_eq,
  reject, count_p,
}
use buenzli_coin.Base.Exec.{Exec, done, throws, undefined, Error, done-injective}
use buenzli_coin.EraseLoop.{erase_loop-reject, erase_loop-undefined, last_passes}
use buenzli_coin.Transaction.{Transaction, UTxO}
use buenzli_coin.Pool.{Pool, remove, prune, prune_round, all_listed}

abbrev pub has_hash_of : Transaction → Transaction → Bool
has_hash_of t t' = bytes_eq t'.hash t.hash

-- If at most one transaction of the pool has the hash, and the last one does not, `remove` takes
-- that one out and keeps the others in their order.
pub remove-reject :
    (t : Transaction) (pool : Pool)
    → count_p (has_hash_of t) pool ≤ 1
    → last_passes (has_hash_of t) pool ≡ false
    → remove t pool ≡ done (reject (has_hash_of t) pool)
unfolding remove
remove-reject t pool h l = erase_loop-reject (has_hash_of t) pool h l

-- If the one transaction of the pool that has the hash is the last one, `remove` runs into
-- undefined behaviour.
pub remove-undefined :
    (t : Transaction) (pool : Pool)
    → count_p (has_hash_of t) pool ≤ 1
    → last_passes (has_hash_of t) pool ≡ true
    → remove t pool ≡ undefined
unfolding remove
remove-undefined t pool h l = erase_loop-undefined (has_hash_of t) pool h l

-- Every transaction of the pool names listed outputs only.
abbrev pub AllListed : List UTxO → Pool → Type 0
AllListed us = All λ t. all_listed us t.inputs ≡ true

prune-kept : (us : List UTxO) (pool : Pool) → AllListed us pool → prune us pool ≡ done pool
unfolding prune
prune-kept us [] h = refl
prune-kept us (t ∷ pool) h = rw h.0 (rw (prune-kept us pool h.1))

prune_round_sound :
    (b : Bool) (t : Transaction) (rest : Exec Pool) {pool' : Pool}
    → prune_round b t rest ≡ done pool'
    → (b ≡ true) × (ts : Pool) × (rest ≡ done ts)
prune_round_sound true t (done ts) h = (refl, ts, refl)
prune_round_sound true t (throws e) h = cc
prune_round_sound true t undefined h = cc
prune_round_sound false t rest h = cc

prune_done : (us : List UTxO) (pool pool' : Pool) → prune us pool ≡ done pool' → AllListed us pool
unfolding prune
prune_done us [] pool' h = tt
prune_done us (t ∷ pool) pool' h =
    let (b, ts, e) = prune_round_sound (all_listed us t.inputs) t (prune us pool) h in
    (b, prune_done us pool ts e)

prune-ne-throws : (us : List UTxO) (pool : Pool) (e : Error) → prune us pool ≢ throws e
unfolding prune
prune-ne-throws us [] e h = cc
prune-ne-throws us (t ∷ pool) e h = ground (arith, prune-ne-throws us pool e)

-- `prune` never takes a transaction out: where it is defined it returns the pool as it was, and it
-- is defined exactly when every input of every transaction of the pool names a listed output.
-- Otherwise it runs into undefined behaviour; it does not throw.
pub prune_lem :
    (us : List UTxO) (pool : Pool)
    → ((pool' : Pool) → prune us pool ≡ done pool' → pool' ≡ pool)
      × (AllListed us pool ↔ (prune us pool ≡ done pool))
      × (¬ AllListed us pool → prune us pool ≡ undefined)
prune_lem us pool = (
  λ pool' h. done-injective (sym h ∙ prune-kept us pool (prune_done us pool pool' h)),
  (prune-kept us pool, prune_done us pool pool),
  λ n. go (prune us pool) refl n,
)
  where
    go : (r : Exec Pool) → prune us pool ≡ r → ¬ AllListed us pool → r ≡ undefined
    go (done ts) e n = absurd (n (prune_done us pool ts e))
    go (throws x) e n = absurd (prune-ne-throws us pool x e)
    go undefined e n = refl
