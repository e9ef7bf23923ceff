-- ===== src/Unspent/Distinct.antt =====
-- No output is listed twice: the invariant of the unspent outputs, and what it gives for the loop.
use buenzli_coin.Base.{
  or_false, ℕ, ◌+◌, ◌≤◌, ◌<◌, ◌≡◌, refl, Bool, true, false, ◌&&◌, List, [], ◌∷◌, ◌++◌, arith, ◌==◌,
  bytes_eq, bytes_eq_sound, bytes_eq_complete, any, reject, count_p, Bool-cases, inl, inr,
}
use buenzli_coin.Crypto.Digest.{Digest}
use buenzli_coin.Transaction.{TxI, TxO, UTxO, matches}
use buenzli_coin.Unspent.{new_outputs}

-- UTxO::operator==(UTxO const &)
abbrev pub same_output : UTxO → UTxO → Bool
same_output u v = bytes_eq u.output_hash v.output_hash && u.output_index == v.output_index

abbrev pub Distinct : List UTxO → Type 0
Distinct [] = Unit
Distinct (u ∷ us) = (any (same_output u) us ≡ false) × Distinct us

-- No listed output is of the transaction with this hash.
abbrev pub IsFresh : Digest → List UTxO → Type 0
IsFresh h us = any (λ u. bytes_eq u.output_hash h) us ≡ false

same_output_of_matches :
    (u v : UTxO) (i : TxI) → matches u i ≡ true → matches v i ≡ true → same_output u v ≡ true
same_output_of_matches u v i p q = ground (
  arith,
  bytes_eq_sound u.output_hash i.output_hash,
  bytes_eq_sound v.output_hash i.output_hash,
  bytes_eq_complete u.output_hash v.output_hash,
)

count-matches_zero :
    (u : UTxO) (i : TxI) (us : List UTxO)
    → matches u i ≡ true
    → any (same_output u) us ≡ false
    → count_p (λ v. matches v i) us ≡ 0
count-matches_zero u i [] m h = refl
count-matches_zero u i (v ∷ us) m h = elim (Bool-cases (matches v i)) [
  | inl e ↦
      cc (
        same_output_of_matches u v i m e,
        (or_false (same_output u v) (any (same_output u) us) h).0,
      )
  | inr e ↦ rw e (
      omega (
        arith,
        count-matches_zero u i us m (or_false (same_output u v) (any (same_output u) us) h).1,
      ))
]

-- In such a list an input names one output at most.
pub count-matches : (i : TxI) (us : List UTxO) → Distinct us → count_p (λ v. matches v i) us ≤ 1
count-matches i [] h = omega arith
count-matches i (u ∷ us) h = elim (Bool-cases (matches u i)) [
  | inl e ↦ rw e (omega (arith, count-matches_zero u i us e h.0))
  | inr e ↦ rw e (omega (arith, count-matches i us h.1))
]

pub any-reject :
    (q p : UTxO → Bool) (us : List UTxO) → any q us ≡ false → any q (reject p us) ≡ false
any-reject q p [] h = refl
any-reject q p (u ∷ us) h = ground (arith, any-reject q p us)

pub reject-Distinct : (p : UTxO → Bool) (us : List UTxO) → Distinct us → Distinct (reject p us)
reject-Distinct p [] h = tt
reject-Distinct p (u ∷ us) h = elim (Bool-cases (p u)) [
  | inl e ↦ rw e (reject-Distinct p us h.1)
  | inr e ↦ rw e (any-reject (same_output u) p us h.0, reject-Distinct p us h.1)
]

any-append :
    (q : UTxO → Bool) (us vs : List UTxO)
    → any q us ≡ false
    → any q vs ≡ false
    → any q (us ++ vs) ≡ false
any-append q [] vs h k = k
any-append q (u ∷ us) vs h k = ground (arith, any-append q us vs)

-- New outputs have their own indices, from n on.
new_outputs_before :
    (u : UTxO) (h : Digest) (n : ℕ) (os : List TxO)
    → u.output_index < n
    → any (same_output u) (new_outputs h n os) ≡ false
unfolding new_outputs
new_outputs_before u h n [] lt = refl
new_outputs_before u h n (o ∷ os) lt = ground (arith, new_outputs_before u h (n + 1) os)

new_outputs_other :
    (u : UTxO) (h : Digest) (n : ℕ) (os : List TxO)
    → bytes_eq u.output_hash h ≡ false
    → any (same_output u) (new_outputs h n os) ≡ false
unfolding new_outputs
new_outputs_other u h n [] ne = refl
new_outputs_other u h n (o ∷ os) ne = ground (arith, new_outputs_other u h (n + 1) os)

pub new_outputs-Distinct : (h : Digest) (n : ℕ) (os : List TxO) → Distinct (new_outputs h n os)
unfolding new_outputs
new_outputs-Distinct h n [] = tt
new_outputs-Distinct h n (o ∷ os) = (
  new_outputs_before (record { output_hash = h; output_index = n; output = o }) h (n + 1) os
      (omega arith),
  new_outputs-Distinct h (n + 1) os,
)

pub append-new_outputs-Distinct :
    (us : List UTxO) (h : Digest) (os : List TxO)
    → Distinct us
    → IsFresh h us
    → Distinct (us ++ new_outputs h 0 os)
append-new_outputs-Distinct [] h os d f = new_outputs-Distinct h 0 os
append-new_outputs-Distinct (u ∷ us) h os d f = (
  any-append (same_output u) us (new_outputs h 0 os) d.0
      (new_outputs_other u h 0 os (ground arith)),
  append-new_outputs-Distinct us h os d.1 (ground arith),
)
