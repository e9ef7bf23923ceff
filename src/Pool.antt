-- ===== src/Pool.antt =====
-- class TransactionUnconfirmedPool of include/transaction.h and src/transaction.cc: a list of
-- transactions. Its member `clear` makes the list empty; `empty` and `get` read it.
pub mod Invariant
pub mod Removal
pub mod Part
use buenzli_coin.Base.{
  Bool, true, false, not, List, [], ◌∷◌, ◌++◌, ◌==◌, if◌then◌else◌, length, any, bytes_eq, map,
}
use buenzli_coin.Base.Exec.{
  Result, ok, err, Exec, done, undefined, map_exec, bind_exec, Verdict, valid, invalid, pool_full,
  invalid_for_pool, duplicate_inputs,
}
use buenzli_coin.Config.{Config}
use buenzli_coin.Crypto.Keypair.{OpenSsl}
use buenzli_coin.EraseLoop.{erase_loop}
use buenzli_coin.Json.{JsonLib}
use buenzli_coin.Transaction.{TxI, UTxO, Transaction, same_input, matches, valid_transaction}
use buenzli_coin.Transaction.Codec.{transaction_to_json}

abbrev pub Pool : Type 0
Pool = List Transaction

-- `next`; `front()` of an empty list is undefined behaviour.
unfoldable pub next : Pool → Exec (Transaction × Pool)
next [] = undefined
next (t ∷ pool) = done (t, pool)

-- The two inner loops of `add`, for one transaction of the pool.
abbrev pub shares_input : Transaction → Transaction → Bool
shares_input t t' = any (λ txi. any (same_input txi) t'.inputs) t.inputs

-- `push_back` where no transaction of the pool shares an input.
abbrev pub push_unshared : Transaction → Pool → Result Pool
push_unshared t pool =
    if any (shares_input t) pool then err duplicate_inputs else ok (pool ++ t ∷ [])

abbrev pub push_valid : Verdict → Transaction → Pool → Result Pool
push_valid valid t pool = push_unshared t pool
push_valid (invalid e) t pool = err (invalid_for_pool e)

-- TransactionUnconfirmedPool::add
unfoldable pub add : OpenSsl → {Double : Type 0} → Config Double → Transaction → Pool → Result Pool
add ssl config t pool =
    if length pool == config.num_per_block
    then err pool_full
    else push_valid (valid_transaction ssl config t) t pool

-- TransactionUnconfirmedPool::remove
unfoldable pub remove : Transaction → Pool → Exec Pool
unfolding erase_loop
remove t pool = erase_loop (λ t'. bytes_eq t'.hash t.hash) pool

-- `for (auto const &t : ts) remove(t)`
unfoldable pub remove_all : List Transaction → Pool → Exec Pool
unfolding remove
remove_all [] pool = done pool
remove_all (t ∷ ts) pool = bind_exec (remove t pool) (remove_all ts)

-- Whether every input of a transaction names a listed output: no input has `txi_valid` false.
unfoldable pub all_listed : List UTxO → List TxI → Bool
all_listed us is = not (any (λ txi. not (any (λ u. matches u txi) us)) is)

abbrev pub prune_round : Bool → Transaction → Exec Pool → Exec Pool
prune_round true t rest = map_exec (λ ts. t ∷ ts) rest
prune_round false t rest = undefined

-- TransactionUnconfirmedPool::prune. At an input that names no listed output the transaction is
-- erased inside the loop over its own inputs. That destroys the vector which the loop goes over,
-- and the loop's next increment of its iterator is undefined behaviour.
unfoldable pub prune : List UTxO → Pool → Exec Pool
prune us [] = done []
prune us (t ∷ pool) = let rest = prune us pool in prune_round (all_listed us t.inputs) t rest

-- TransactionUnconfirmedPool::to_json
abbrev pub pool_to_json : (lib : JsonLib) → Pool → lib.Json
pool_to_json lib pool = lib.array (map (transaction_to_json lib) pool)
