-- ===== src/Unspent/Coins.antt =====
-- The coins in circulation under TransactionUnspentOutputs::update of src/transaction.cc.
use buenzli_coin.Base.{
  ℕ, ◌+◌, ◌≡◌, ◌≢◌, refl, ap, false, List, [], ◌∷◌, ◌++◌, arith, bytes_eq, any, reject,
  bytes_eq_sound, bytes_eq_complete,
}
use buenzli_coin.Base.Exec.{done}
use buenzli_coin.Crypto.Digest.{Digest}
use buenzli_coin.Transaction.{TxI, TxO, UTxO, Transaction, matches, same_input}
use buenzli_coin.Transaction.Amounts.{total, total_outputs, matching, total_inputs}
use buenzli_coin.Unspent.{new_outputs, update}
use buenzli_coin.Unspent.Distinct.{
  Distinct, IsFresh, append-new_outputs-Distinct, reject-Distinct, any-reject,
}
use buenzli_coin.Unspent.Spend.{is_spent, AreForeign, update_lem, reject-reject, reject-never}

-- No two inputs name the same output.
abbrev pub AreDistinct : List TxI → Type 0
AreDistinct [] = Unit
AreDistinct (i ∷ is) = (any (same_input i) is ≡ false) × AreDistinct is

pub total-append : (us vs : List UTxO) → total (us ++ vs) ≡ total us + total vs
total-append [] vs = omega arith
total-append (u ∷ us) vs = omega (arith, total-append us vs)

pub total-new_outputs :
    (h : Digest) (n : ℕ) (os : List TxO) → total (new_outputs h n os) ≡ total_outputs os
unfolding new_outputs
total-new_outputs h n [] = refl
total-new_outputs h n (o ∷ os) = ap (λ r. o.amount + r) (total-new_outputs h (n + 1) os)

-- One input takes out what it names.
pub total-reject :
    (i : TxI) (us : List UTxO)
    → total (reject (λ u. matches u i) us) + total (matching i us) ≡ total us
total-reject i [] = refl
total-reject i (u ∷ us) = ground (arith, total-reject i us)

-- Another input still finds what it names.
matching-reject :
    (i j : TxI) (us : List UTxO)
    → same_input i j ≡ false
    → matching j (reject (λ u. matches u i) us) ≡ matching j us
matching-reject i j [] h = refl
matching-reject i j (u ∷ us) h = ground (
  arith,
  matching-reject i j us h,
  bytes_eq_sound u.output_hash i.output_hash,
  bytes_eq_sound u.output_hash j.output_hash,
  bytes_eq_complete i.output_hash j.output_hash,
)

total_inputs-reject :
    (i : TxI) (is : List TxI) (us : List UTxO)
    → any (same_input i) is ≡ false
    → total_inputs is (reject (λ u. matches u i) us) ≡ total_inputs is us
total_inputs-reject i [] us h = refl
total_inputs-reject i (j ∷ is) us h =
    ground (arith, matching-reject i j us, total_inputs-reject i is us)

pub total-reject_spent :
    (is : List TxI) (us : List UTxO)
    → AreDistinct is
    → total (reject (is_spent is) us) + total_inputs is us ≡ total us
total-reject_spent [] us d = rw (reject-never us) (omega arith)
total-reject_spent (i ∷ is) us d = rw (← reject-reject i is us) (
    omega (
      arith,
      total-reject_spent is (reject (λ u. matches u i) us) d.1,
      total_inputs-reject i is us d.0,
      total-reject i us,
    ))

-- What an update needs: no output listed twice, a hash that is new to the list, an output, and
-- inputs that name no output of the transaction itself.
pub record IsReady (t : Transaction) (us : List UTxO) : Type 0 where
  pub distinct : Distinct us
  pub fresh : IsFresh t.hash us
  pub has_output : t.outputs ≢ []
  pub foreign : AreForeign t.hash t.inputs

-- An update that is ready succeeds, and again no output is listed twice.
pub update-Distinct :
    (t : Transaction) (us : List UTxO)
    → IsReady t us
    → (us' : List UTxO) × (update t us ≡ done us') × Distinct us'
update-Distinct t us r = (
  _,
  update_lem t us r.distinct r.has_output r.foreign,
  append-new_outputs-Distinct (reject (is_spent t.inputs) us) t.hash t.outputs
      (reject-Distinct (is_spent t.inputs) us r.distinct)
      (any-reject (λ u. bytes_eq u.output_hash t.hash) (is_spent t.inputs) us r.fresh),
)

-- If no output is listed twice, the hash of a transaction is new to the list, the transaction has an
-- output, and its inputs differ and name none of its own outputs, then its update is defined, and the
-- coins that the inputs name leave circulation and those of the outputs enter it.
pub update-total :
    (t : Transaction) (us : List UTxO)
    → IsReady t us
    → AreDistinct t.inputs
    → (us' : List UTxO) × (update t us ≡ done us')
      × (total us' + total_inputs t.inputs us ≡ total us + total_outputs t.outputs)
update-total t us r d = (
  _,
  update_lem t us r.distinct r.has_output r.foreign,
  omega (
    arith,
    total-append (reject (is_spent t.inputs) us) (new_outputs t.hash 0 t.outputs),
    total-new_outputs t.hash 0 t.outputs,
    total-reject_spent t.inputs us d,
  ),
)
