-- ===== src/Pool/Part.antt =====
-- What the pool of src/transaction.cc keeps when transactions are taken out of it: a part of a sound
-- pool is a sound pool.
use buenzli_coin.Base.{
  ◌≤◌, ◌≡◌, sym, subst, Bool, true, false, Bool-cases, inl, inr, List, [], ◌∷◌, All, length,
  bytes_eq, arith,
}
use buenzli_coin.Base.Exec.{
  Exec, done, throws, undefined, map_exec, Guarantees, valid, done-injective, bind_exec-eq-done,
}
use buenzli_coin.Config.{Config}
use buenzli_coin.Crypto.Keypair.{OpenSsl}
use buenzli_coin.EraseLoop.{erase_loop}
use buenzli_coin.Pool.{Pool, shares_input, remove, remove_all, prune}
use buenzli_coin.Pool.Invariant.{IsPool, IsDisjoint}
use buenzli_coin.Pool.Removal.{prune_lem}
use buenzli_coin.Transaction.{UTxO, Transaction, valid_transaction}

-- A list with elements taken out.
pub data IsPart {ℓ} {A : Type ℓ} : List A → List A → Type ℓ where
  nil : IsPart [] []
  skip : {y : A} {xs ys : List A} → IsPart xs ys → IsPart xs (y ∷ ys)
  keep : {x : A} {xs ys : List A} → IsPart xs ys → IsPart (x ∷ xs) (x ∷ ys)

pub IsPart-refl {ℓ} : {A : Type ℓ} (xs : List A) → IsPart xs xs
IsPart-refl [] = nil
IsPart-refl (x ∷ xs) = keep (IsPart-refl xs)

pub IsPart-trans {ℓ} : {A : Type ℓ} {xs ys zs : List A} → IsPart xs ys → IsPart ys zs → IsPart xs zs
IsPart-trans p nil = p
IsPart-trans p (skip q) = skip (IsPart-trans p q)
IsPart-trans (skip p) (keep q) = skip (IsPart-trans p q)
IsPart-trans (keep p) (keep q) = keep (IsPart-trans p q)

All-part {ℓ κ} : {A : Type ℓ} (P : A → Type κ) {xs ys : List A} → IsPart xs ys → All P ys → All P xs
All-part P nil h = tt
All-part P (skip p) h = All-part P p h.1
All-part P (keep p) h = (h.0, All-part P p h.1)

length-part {ℓ} : {A : Type ℓ} {xs ys : List A} → IsPart xs ys → length xs ≤ length ys
length-part nil = omega arith
length-part (skip p) = omega (arith, length-part p)
length-part (keep p) = omega (arith, length-part p)

IsDisjoint-part : {xs ys : Pool} → IsPart xs ys → IsDisjoint ys → IsDisjoint xs
IsDisjoint-part nil d = tt
IsDisjoint-part (skip p) d = IsDisjoint-part p d.1
IsDisjoint-part (keep {x} p) d =
    (All-part (λ s. shares_input s x ≡ false) p d.0, IsDisjoint-part p d.1)

pub IsPool-part :
    (ssl : OpenSsl) {Double : Type 0} (config : Config Double) {pool' pool : Pool}
    → IsPart pool' pool
    → IsPool ssl config pool
    → IsPool ssl config pool'
IsPool-part ssl config p v = record {
  bounded = omega (arith, v.bounded, length-part p);
  accepted = All-part (λ t. valid_transaction ssl config t ≡ valid) p v.accepted;
  disjoint = IsDisjoint-part p v.disjoint;
}

erased-IsPart {ℓ} :
    {A : Type ℓ} (f : List A → List A) (xs ys : List A) (m : Exec (List A))
    → ((r : List A) → IsPart r ys → IsPart (f r) xs)
    → Guarantees (λ r. IsPart r ys) m
    → Guarantees (λ r. IsPart r xs) (map_exec f m)
erased-IsPart f xs ys (done r) h p = h r p
erased-IsPart f xs ys (throws e) h p = tt
erased-IsPart f xs ys undefined h p = tt

erase_loop-IsPart {ℓ} :
    {A : Type ℓ} (p : A → Bool) (xs : List A) → Guarantees (λ r. IsPart r xs) (erase_loop p xs)
unfolding erase_loop
erase_loop-IsPart p [] = nil
erase_loop-IsPart p (x ∷ []) = elim (Bool-cases (p x)) [ inl e ↦ rw e tt | inr e ↦ rw e (keep nil) ]
erase_loop-IsPart p (x ∷ y ∷ ys) =
    elim (p x)
      as (λ b.
        Guarantees (λ r. IsPart r (x ∷ y ∷ ys))
          (elim b [
            | true ↦ map_exec (λ r. y ∷ r) (erase_loop p ys)
            | false ↦ map_exec (λ r. x ∷ r) (erase_loop p (y ∷ ys))
          ])) [
            | true ↦
                erased-IsPart (λ r. y ∷ r) (x ∷ y ∷ ys) ys (erase_loop p ys) (λ r q. skip (keep q))
                  (erase_loop-IsPart p ys)
            | false ↦
                erased-IsPart (λ r. x ∷ r) (x ∷ y ∷ ys) (y ∷ ys) (erase_loop p (y ∷ ys))
                  (λ r q. keep q) (erase_loop-IsPart p (y ∷ ys))
          ]

pub remove_all-IsPart :
    (ts : List Transaction) (pool pool' : Pool)
    → remove_all ts pool ≡ done pool'
    → IsPart pool' pool
unfolding remove_all remove
remove_all-IsPart [] pool pool' e = subst (λ r. IsPart r pool) (done-injective e) (IsPart-refl pool)
remove_all-IsPart (t ∷ ts) pool pool' e =
    let (pool₁, first, rest) =
      bind_exec-eq-done (erase_loop (λ t'. bytes_eq t'.hash t.hash) pool) (remove_all ts) e in
    IsPart-trans (remove_all-IsPart ts pool₁ pool' rest) (
      subst (Guarantees (λ r. IsPart r pool)) first
        (erase_loop-IsPart (λ t'. bytes_eq t'.hash t.hash) pool))

pub prune-IsPart :
    (us : List UTxO) (pool pool' : Pool) → prune us pool ≡ done pool' → IsPart pool' pool
prune-IsPart us pool pool' e =
    subst (λ r. IsPart r pool) (sym ((prune_lem us pool).0 pool' e)) (IsPart-refl pool)
