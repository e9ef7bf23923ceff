-- ===== src/Unspent/Refinement.antt =====
-- TransactionUnspentOutputs::update of src/transaction.cc against an abstract ledger: which output, if
-- any, is unspent under a hash and an index, whatever the order and the make-up of the list.
use mathlib.Core.Path.{fun_ext}
use buenzli_coin.Base.{
  ℕ, zero, suc, ◌+◌, ◌≡◌, refl, ap, subst, ◌∙◌, Bool, true, false, ◌&&◌, Bool-cases, inl, inr, ◌==◌,
  List, [], ◌∷◌, ◌++◌, Option, none, some, any, reject, get_elem?, if◌then◌else◌, bytes_eq,
  bytes_eq_sound, bytes_eq_refl, arith,
}
use buenzli_coin.Base.Exec.{done}
use buenzli_coin.Crypto.Digest.{Digest}
use buenzli_coin.Transaction.{TxI, TxO, UTxO, Transaction}
use buenzli_coin.Unspent.{new_outputs, update_all}
use buenzli_coin.Unspent.Coins.{IsReady}
use buenzli_coin.Unspent.Distinct.{any-reject}
use buenzli_coin.Unspent.Spend.{is_spent, AreForeign, update_lem}

-- The abstract ledger.
abbrev pub Ledger : Type 0
Ledger = Digest → ℕ → Option TxO

abbrev lists : Digest → ℕ → UTxO → Bool
lists h i u = bytes_eq u.output_hash h && u.output_index == i

abbrev pub spends : Digest → ℕ → TxI → Bool
spends h i x = bytes_eq h x.output_hash && i == x.output_index

-- The ledger that a list of unspent outputs stands for.
abbrev pub view : List UTxO → Ledger
view [] h i = none
view (u ∷ us) h i = if lists h i u then some u.output else view us h i

-- What a transaction does to the ledger: its outputs are there, those that its inputs name are gone,
-- and all others are as they were.
abbrev pub transfer : Transaction → Ledger → Ledger
transfer t ledger h i =
    if bytes_eq t.hash h
    then get_elem? t.outputs i
    else if any (spends h i) t.inputs
    then none
    else ledger h i

abbrev pub transfer_all : List Transaction → Ledger → Ledger
transfer_all [] ledger = ledger
transfer_all (t ∷ ts) ledger = transfer_all ts (transfer t ledger)

view-skip :
    (h : Digest) (i : ℕ) (us vs : List UTxO)
    → any (λ u. bytes_eq u.output_hash h) us ≡ false
    → view (us ++ vs) h i ≡ view vs h i
view-skip h i [] vs f = refl
view-skip h i (u ∷ us) vs f = ground (arith, view-skip h i us vs)

view-new :
    (h : Digest) (n i j : ℕ) (os : List TxO)
    → j ≡ n + i
    → view (new_outputs h n os) h j ≡ get_elem? os i
unfolding new_outputs
view-new h n i j [] e = refl
view-new h n zero j (o ∷ os) e = ground (arith, bytes_eq_refl h)
view-new h n (suc i) j (o ∷ os) e =
    ground (arith, bytes_eq_refl h, view-new h (n + 1) i j os (omega arith))

view-others :
    (h h' : Digest) (n i : ℕ) (us : List UTxO) (os : List TxO)
    → bytes_eq h h' ≡ false
    → view (us ++ new_outputs h n os) h' i ≡ view us h' i
unfolding new_outputs
view-others h h' n i [] [] d = refl
view-others h h' n i [] (o ∷ os) d = rw d (view-others h h' (n + 1) i [] os d)
view-others h h' n i (u ∷ us) os d =
    ap (λ r. if lists h' i u then some u.output else r) (view-others h h' n i us os d)

and-both : (a b : Bool) → (a && b) ≡ true → (a ≡ true) × (b ≡ true)
and-both true true e = (refl, refl)
and-both true false e = cc
and-both false b e = cc

is_spent-lists :
    (h : Digest) (i : ℕ) (u : UTxO) (is : List TxI)
    → lists h i u ≡ true
    → is_spent is u ≡ any (spends h i) is
is_spent-lists h i u is e =
    let (p, q) = and-both (bytes_eq u.output_hash h) (u.output_index == i) e in
    let same_index : u.output_index ≡ i = ground (arith, q) in
    rw (bytes_eq_sound u.output_hash h p, same_index) refl

view-reject :
    (h : Digest) (i : ℕ) (is : List TxI) (us : List UTxO)
    → view (reject (is_spent is) us) h i ≡ (if any (spends h i) is then none else view us h i)
view-reject h i is [] = ground arith
view-reject h i is (u ∷ us) = elim (Bool-cases (lists h i u)) [
  | inl e ↦ elim (Bool-cases (any (spends h i) is)) [
    | inl x ↦ rw (is_spent-lists h i u is e, x) (view-reject h i is us ∙ rw x refl)
    | inr x ↦ rw (is_spent-lists h i u is e, x, e) refl
  ]
  | inr e ↦ elim (Bool-cases (is_spent is u)) [
    | inl x ↦ rw (x, e) (view-reject h i is us)
    | inr x ↦ rw (x, e) (view-reject h i is us)
  ]
]

spends-foreign :
    (h : Digest) (i : ℕ) (is : List TxI) → AreForeign h is → any (spends h i) is ≡ false
spends-foreign h i [] f = refl
spends-foreign h i (x ∷ is) f = rw (f.0) (spends-foreign h i is f.1)

-- The list after a transaction that can be applied.
abbrev pub after : Transaction → List UTxO → List UTxO
after t us = reject (is_spent t.inputs) us ++ new_outputs t.hash 0 t.outputs

view-after :
    (t : Transaction) (us : List UTxO) → IsReady t us → view (after t us) ≡ transfer t (view us)
view-after t us r = fun_ext λ h. fun_ext λ i. elim (Bool-cases (bytes_eq t.hash h)) [
  | inl e ↦ rw e (own h i (bytes_eq_sound t.hash h e))
  | inr e ↦ rw e (
      view-others t.hash h 0 i (reject (is_spent t.inputs) us) t.outputs e
      ∙ view-reject h i t.inputs us)
]
  where
    own : (h : Digest) (i : ℕ) → t.hash ≡ h → view (after t us) h i ≡ get_elem? t.outputs i
    own h i e =
        subst (λ x. view (after t us) x i ≡ get_elem? t.outputs i) e
          (view-skip t.hash i (reject (is_spent t.inputs) us) (new_outputs t.hash 0 t.outputs)
              (any-reject (λ u. bytes_eq u.output_hash t.hash) (is_spent t.inputs) us r.fresh)
            ∙ view-new t.hash 0 i i t.outputs (omega arith))

-- Every transaction of a list can be applied when its turn comes.
abbrev pub AreReady : List Transaction → List UTxO → Type 0
AreReady [] us = Unit
AreReady (t ∷ ts) us = IsReady t us × AreReady ts (after t us)

-- The update of the unspent outputs by the transactions of a block has a defined result, and it
-- implements the abstract ledger, in which under every hash and index the outputs of a transaction
-- appear, those that its inputs name disappear and all others stay. The premise is that every
-- transaction is ready when its turn comes: no output is listed twice, none of the transaction is
-- listed yet, it has an output, and its inputs name none of its own.
pub update_all-view :
    (ts : List Transaction) (us : List UTxO)
    → AreReady ts us
    → (us' : List UTxO) × (update_all ts us ≡ done us') × (view us' ≡ transfer_all ts (view us))
unfolding update_all
update_all-view [] us r = (us, refl, refl)
update_all-view (t ∷ ts) us (r, rs) =
    let (us', e, v) = update_all-view ts (after t us) rs in
    (
      us',
      rw (update_lem t us r.distinct r.has_output r.foreign) e,
      v ∙ ap (transfer_all ts) (view-after t us r),
    )
