-- ===== src/Unspent.antt =====
-- class TransactionUnspentOutputs of include/transaction.h and src/transaction.cc: the list of the
-- unspent outputs of the whole chain. Its member `clear` makes the list empty, `get` reads it.
pub mod Distinct
pub mod Spend
pub mod Coins
pub mod Supply
pub mod Refinement
use buenzli_coin.Base.{ℕ, ◌+◌, List, [], ◌∷◌, ◌++◌, map}
use buenzli_coin.Base.Exec.{Exec, done, bind_exec}
use buenzli_coin.EraseLoop.{erase_loop}
use buenzli_coin.Crypto.Digest.{Digest}
use buenzli_coin.Json.{JsonLib}
use buenzli_coin.Transaction.{TxI, TxO, UTxO, Transaction, matches}
use buenzli_coin.Transaction.Codec.{unspent_to_json}

-- `emplace_back(hash, i, outputs[i])` for every i.
unfoldable pub new_outputs : Digest → ℕ → List TxO → List UTxO
new_outputs hash i [] = []
new_outputs hash i (o ∷ os) =
    record { output_hash = hash; output_index = i; output = o } ∷ new_outputs hash (i + 1) os

-- The erasing loop, once for every input.
unfoldable pub spend : List TxI → List UTxO → Exec (List UTxO)
unfolding erase_loop
spend [] us = done us
spend (txi ∷ rest) us = bind_exec (erase_loop (λ u. matches u txi) us) (spend rest)

-- TransactionUnspentOutputs::update
unfoldable pub update : Transaction → List UTxO → Exec (List UTxO)
unfolding spend new_outputs
update t us = spend t.inputs (us ++ new_outputs t.hash 0 t.outputs)

-- `for (auto const &t : ts) update(t)`
unfoldable pub update_all : List Transaction → List UTxO → Exec (List UTxO)
unfolding update
update_all [] us = done us
update_all (t ∷ ts) us = bind_exec (update t us) (update_all ts)

-- TransactionUnspentOutputs::to_json
abbrev pub unspent_outputs_to_json : (lib : JsonLib) → List UTxO → lib.Json
unspent_outputs_to_json lib us = lib.array (map (unspent_to_json lib) us)
