-- ===== src/Unspent/Spend.antt =====
-- TransactionUnspentOutputs::update of src/transaction.cc against its specification: the named
-- outputs are gone, the others stay in their order, and the new ones stand at the end.
use buenzli_coin.Base.{
  ℕ, ◌+◌, ◌≡◌, ◌≢◌, refl, ap, ◌∙◌, Bool, false, List, [], ◌∷◌, ◌++◌, arith, bytes_eq, any, reject,
  reject-append, count_p, All,
}
use buenzli_coin.Base.Exec.{done}
use buenzli_coin.EraseLoop.{erase_loop, erase_loop-reject, last_passes}
use buenzli_coin.Crypto.Digest.{Digest}
use buenzli_coin.Transaction.{TxI, TxO, UTxO, Transaction, matches}
use buenzli_coin.Unspent.{new_outputs, spend, update}
use buenzli_coin.Unspent.Distinct.{Distinct, count-matches, reject-Distinct}

-- Some input names the output.
abbrev pub is_spent : List TxI → UTxO → Bool
is_spent is u = any (matches u) is

-- No input names an output of the transaction that has this hash.
abbrev pub AreForeign : Digest → List TxI → Type 0
AreForeign h = All λ i. bytes_eq h i.output_hash ≡ false

count-append_new :
    (i : TxI) (h : Digest) (n : ℕ) (us : List UTxO) (os : List TxO)
    → bytes_eq h i.output_hash ≡ false
    → count_p (λ u. matches u i) (us ++ new_outputs h n os) ≡ count_p (λ u. matches u i) us
unfolding new_outputs
count-append_new i h n [] [] f = refl
count-append_new i h n [] (o ∷ os) f = ground (arith, count-append_new i h (n + 1) [] os f)
count-append_new i h n (u ∷ us) os f = omega (arith, count-append_new i h n us os f)

reject-new_outputs :
    (i : TxI) (h : Digest) (n : ℕ) (os : List TxO)
    → bytes_eq h i.output_hash ≡ false
    → reject (λ u. matches u i) (new_outputs h n os) ≡ new_outputs h n os
unfolding new_outputs
reject-new_outputs i h n [] f = refl
reject-new_outputs i h n (o ∷ os) f = ground (arith, reject-new_outputs i h (n + 1) os f)

last-new_outputs :
    (i : TxI) (h : Digest) (n : ℕ) (o : TxO) (os : List TxO)
    → bytes_eq h i.output_hash ≡ false
    → last_passes (λ u. matches u i) (new_outputs h n (o ∷ os)) ≡ false
unfolding new_outputs
last-new_outputs i h n o [] f = ground arith
last-new_outputs i h n o (p ∷ os) f = last-new_outputs i h (n + 1) p os f

last_passes-append :
    (p : UTxO → Bool) (us : List UTxO) (v : UTxO) (vs : List UTxO)
    → last_passes p (us ++ v ∷ vs) ≡ last_passes p (v ∷ vs)
last_passes-append p [] v vs = refl
last_passes-append p (u ∷ []) v vs = refl
last_passes-append p (u ∷ w ∷ us) v vs = last_passes-append p (w ∷ us) v vs

pub reject-reject :
    (i : TxI) (is : List TxI) (us : List UTxO)
    → reject (is_spent is) (reject (λ u. matches u i) us) ≡ reject (is_spent (i ∷ is)) us
reject-reject i is [] = refl
reject-reject i is (u ∷ us) = ground (arith, reject-reject i is us)

pub reject-never : (us : List UTxO) → reject (is_spent []) us ≡ us
reject-never [] = refl
reject-never (u ∷ us) = ap (λ r. u ∷ r) (reject-never us)

-- One round of the erasing loop, with outputs of a new transaction at the end.
erase_round :
    (i : TxI) (h : Digest) (us : List UTxO) (o : TxO) (os : List TxO)
    → Distinct us
    → bytes_eq h i.output_hash ≡ false
    → erase_loop (λ u. matches u i) (us ++ new_outputs h 0 (o ∷ os))
      ≡ done (reject (λ u. matches u i) us ++ new_outputs h 0 (o ∷ os))
unfolding new_outputs
erase_round i h us o os d f =
    erase_loop-reject (λ u. matches u i) (us ++ new_outputs h 0 (o ∷ os))
      (rw (count-append_new i h 0 us (o ∷ os) f) (count-matches i us d))
      (last_passes-append _ us _ (new_outputs h 1 os) ∙ last-new_outputs i h 0 o os f)
    ∙ ap done (
        reject-append (λ u. matches u i) us (new_outputs h 0 (o ∷ os))
        ∙ ap (◌++◌ (reject (λ u. matches u i) us)) (reject-new_outputs i h 0 (o ∷ os) f))

spend_lem :
    (is : List TxI) (h : Digest) (us : List UTxO) (o : TxO) (os : List TxO)
    → Distinct us
    → AreForeign h is
    → spend is (us ++ new_outputs h 0 (o ∷ os))
      ≡ done (reject (is_spent is) us ++ new_outputs h 0 (o ∷ os))
unfolding spend
spend_lem [] h us o os d f = rw (reject-never us)
spend_lem (i ∷ is) h us o os d f = rw (erase_round i h us o os d f.0) (
    spend_lem is h (reject (λ u. matches u i) us) o os (reject-Distinct _ us d) f.1
    ∙ rw (reject-reject i is us))

-- If no output is listed twice, and the transaction has an output and spends none of its own, then
-- the update is defined. It takes out the outputs that some input names, keeps the others in
-- their order, and appends the new ones.
pub update_lem :
    (t : Transaction) (us : List UTxO)
    → Distinct us
    → t.outputs ≢ []
    → AreForeign t.hash t.inputs
    → update t us ≡ done (reject (is_spent t.inputs) us ++ new_outputs t.hash 0 t.outputs)
unfolding update
update_lem t us d ne f = go t.outputs ne
  where
    go :
        (os : List TxO)
        → os ≢ []
        → spend t.inputs (us ++ new_outputs t.hash 0 os)
          ≡ done (reject (is_spent t.inputs) us ++ new_outputs t.hash 0 os)
    go [] n = absurd (n refl)
    go (o ∷ os) n = spend_lem t.inputs t.hash us o os d f
