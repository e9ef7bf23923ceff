-- ===== src/TransactionList.antt =====
-- class TransactionList of include/transaction.h and src/transaction.cc: the data of a block.
pub mod Valid
use buenzli_coin.Base.{
  ℕ, zero, suc, ◌+◌, ◌%◌, Bool, true, false, not, List, [], ◌∷◌, map, ltb, ◌==◌, if◌then◌else◌,
  length,
}
use buenzli_coin.Base.Exec.{
  Result, Verdict, valid, invalid, invalid_number, invalid_type, invalid_transaction_index,
  in_transaction, all_results,
}
use buenzli_coin.Config.{Config}
use buenzli_coin.Crypto.Keypair.{OpenSsl}
use buenzli_coin.Json.{JsonLib}
use buenzli_coin.Transaction.{
  UTxO, Kind, standard, reward, Transaction, size_mod, valid_transaction, update_unspent_outputs,
}
use buenzli_coin.Transaction.Codec.{transaction_to_json, transaction_from_json}

abbrev pub same_kind : Kind → Kind → Bool
same_kind standard standard = true
same_kind reward reward = true
same_kind standard reward = false
same_kind reward standard = false

-- The type that the i-th transaction must have.
abbrev pub expected_kind : ℕ → Kind
expected_kind zero = reward
expected_kind (suc i) = standard

-- `error` of the i-th transaction's own check, or what the rest of the loop returns.
abbrev pub after_transaction : ℕ → Verdict → Verdict → Verdict
after_transaction i valid rest = rest
after_transaction i (invalid e) rest = invalid (in_transaction i e)

module _ (ssl : OpenSsl) {Double : Type 0} (config : Config Double) where
  -- The loop of TransactionList::valid from the i-th transaction on.
  unfoldable pub check_transactions : ℕ → ℕ → List Transaction → Verdict
  check_transactions index i [] = valid
  check_transactions index i (t ∷ ts) =
      let rest = check_transactions index (suc i) ts in
      if not (same_kind t.kind (expected_kind i))
      then invalid (invalid_type i)
      else if not (t.index == index)
      then invalid (invalid_transaction_index i t.index)
      else after_transaction i (valid_transaction ssl config t) rest

  -- TransactionList::valid
  unfoldable pub valid_list : List Transaction → ℕ → Verdict
  unfolding check_transactions
  valid_list ts index =
      if ltb ((config.num_per_block + 1) % size_mod) (length ts)
      then invalid invalid_number
      else check_transactions index 0 ts

-- `for (auto &t : ts.get()) t.update_unspent_outputs(…)`, as the callers do.
unfoldable pub link_all : List UTxO → List Transaction → List Transaction
unfolding update_unspent_outputs
link_all us ts = map (update_unspent_outputs us) ts

module _ (lib : JsonLib) where
  open lib use {Json, array, elements}

  unfoldable pub list_to_json : List Transaction → Json
  list_to_json ts = array (map (transaction_to_json lib) ts)

  unfoldable pub list_from_json : Json → Result (List Transaction)
  list_from_json j = all_results (transaction_from_json lib) (elements j)
