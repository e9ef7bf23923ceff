-- ===== src/Unspent/Supply.antt =====
-- Transaction::valid and TransactionUnspentOutputs::update of src/transaction.cc together: what an
-- accepted transaction does to the coins in circulation.
use buenzli_coin.Base.{ℕ, ◌+◌, ◌*◌, ◌%◌, ◌<◌, ◌≡◌, refl, ap, List, [], ◌∷◌, arith, reject, All}
use buenzli_coin.Base.Exec.{done, valid}
use buenzli_coin.Config.{Config}
use buenzli_coin.Crypto.Keypair.{OpenSsl}
use buenzli_coin.Transaction.{
  TxI, UTxO, Transaction, matches, size_mod, determine_hash, valid_standard, valid_reward,
}
use buenzli_coin.Transaction.Amounts.{total, total_outputs, matching, total_inputs}
use buenzli_coin.Transaction.Valid.{IsSigned, valid_standard_iff, valid_reward_iff}
use buenzli_coin.Unspent.{new_outputs, update}
use buenzli_coin.Unspent.Spend.{is_spent, reject-reject, reject-never, update_lem}
use buenzli_coin.Unspent.Coins.{
  AreDistinct, IsReady, update-total, total-reject, total-reject_spent, total-append,
  total-new_outputs,
}

module _ (ssl : OpenSsl) where
  -- An accepted standard transaction that is checked against the current unspent outputs has a defined
  -- update, which keeps the coins in circulation the same, provided that no output is listed twice, its
  -- hash is new to the list, it has an output, its inputs differ and name none of its own outputs, and
  -- neither the coins in circulation nor those of its outputs reach 2 ^ 64.
  pub valid_standard-total :
      (t : Transaction)
      → valid_standard ssl t ≡ valid
      → IsReady t t.unspent_outputs
      → AreDistinct t.inputs
      → total t.unspent_outputs < size_mod
      → total_outputs t.outputs < size_mod
      → (us' : List UTxO) × (update t t.unspent_outputs ≡ done us')
        × (total us' ≡ total t.unspent_outputs)
  valid_standard-total t v r d below below_outputs =
      let (us', e, sums) = update-total t t.unspent_outputs r d in
      (
        us',
        e,
        omega (
          arith,
          sums,
          ((valid_standard_iff ssl t).0 v).balanced,
          total-reject_spent t.inputs t.unspent_outputs d,
        ),
      )

  -- An accepted reward transaction adds the configured amount to the coins in circulation.
  pub valid_reward-total :
      {Double : Type 0} (config : Config Double) (t : Transaction) (us : List UTxO)
      → valid_reward ssl config t ≡ valid
      → IsReady t us
      → (us' : List UTxO) × (update t us ≡ done us') × (total us' ≡ total us + config.reward_amount)
  valid_reward-total config t us v r =
      let w = (valid_reward_iff ssl config t).0 v in
      let (us', e, sums) = update-total t us r (rw w.no_inputs tt) in
      (
        us',
        e,
        omega (
          arith,
          sums,
          ap (λ (is : List TxI). total_inputs is us) w.no_inputs,
          ap total_outputs w.one_output.1,
          w.one_output.2,
        ),
      )

  matching-reject_self :
      (i : TxI) (us : List UTxO) → total (matching i (reject (λ u. matches u i) us)) ≡ 0
  matching-reject_self i [] = refl
  matching-reject_self i (u ∷ us) = ground (arith, matching-reject_self i us)

  total-reject_twice :
      (i : TxI) (us : List UTxO)
      → total (reject (is_spent (i ∷ i ∷ [])) us) + total (matching i us) ≡ total us
  total-reject_twice i us = rw (← reject-reject i (i ∷ []) us) (
      rw (← reject-reject i [] (reject (λ u. matches u i) us), reject-never)
        (omega (
          arith,
          total-reject i us,
          total-reject i (reject (λ u. matches u i) us),
          matching-reject_self i us,
        )))

  -- A transaction that names one output twice is accepted with outputs of twice its coins, if its
  -- hash and its signature are right. If also no output is listed twice, its hash is new to the list,
  -- it has an output and its inputs name none of its own outputs, then its update mints the coins of
  -- the output that it names.
  pub double_input_mints :
      (t : Transaction) (i : TxI)
      → t.inputs ≡ i ∷ i ∷ []
      → t.hash ≡ determine_hash ssl t
      → IsSigned ssl t.hash t.unspent_outputs i
      → total_outputs t.outputs ≡ 2 * total (matching i t.unspent_outputs)
      → IsReady t t.unspent_outputs
      → (valid_standard ssl t ≡ valid)
        × ((us' : List UTxO) × (update t t.unspent_outputs ≡ done us')
            × (total us' ≡ total t.unspent_outputs + total (matching i t.unspent_outputs)))
  double_input_mints t i e h s b r =
      let us = t.unspent_outputs in
      let named = ap (λ (is : List TxI). total_inputs is us) e in
      (
        (valid_standard_iff ssl t).1 (record {
          hashed = h;
          signed = rw e (s, (s, tt));
          balanced =
              let sums : total_inputs t.inputs us ≡ total_outputs t.outputs =
                omega (arith, named, b) in
              ap (λ (n : ℕ). n % size_mod) sums;
        }),
        (
          _,
          update_lem t us r.distinct r.has_output r.foreign,
          omega (
            arith,
            total-append (reject (is_spent t.inputs) us) (new_outputs t.hash 0 t.outputs),
            total-new_outputs t.hash 0 t.outputs,
            ap (λ (is : List TxI). total (reject (is_spent is) us)) e,
            total-reject_twice i us,
            b,
          ),
        ),
      )

  -- A transaction whose outputs have 2 ^ 64 coins more than its inputs is accepted if its hash and
  -- its signatures are right. If also its inputs differ and name none of its own outputs, it has an
  -- output, no output is listed twice and its hash is new to the list, then its update mints those
  -- 2 ^ 64 coins.
  pub overflow_mints :
      (t : Transaction)
      → t.hash ≡ determine_hash ssl t
      → All (IsSigned ssl t.hash t.unspent_outputs) t.inputs
      → total_outputs t.outputs ≡ total_inputs t.inputs t.unspent_outputs + size_mod
      → IsReady t t.unspent_outputs
      → AreDistinct t.inputs
      → (valid_standard ssl t ≡ valid)
        × ((us' : List UTxO) × (update t t.unspent_outputs ≡ done us')
            × (total us' ≡ total t.unspent_outputs + size_mod))
  overflow_mints t h s b r d =
      let (us', e, sums) = update-total t t.unspent_outputs r d in
      (
        (valid_standard_iff ssl t).1 (record { hashed = h; signed = s; balanced = omega arith }),
        (us', e, omega (arith, sums)),
      )
