-- ===== src/Transaction/Amounts.antt =====
-- Sums of coins without wrap-around, and how the sums of src/transaction.cc stand to them.
use native.Mathlib.Nat.{add-zero, add_assoc}
use buenzli_coin.Base.{
  inl, inr, Bool-cases, ℕ, ◌+◌, ◌%◌, ◌≡◌, ◌∙◌, List, [], ◌∷◌, arith, if◌then◌else◌, Bytes,
}
use buenzli_coin.Transaction.{TxI, TxO, UTxO, matches, link_input, sum_outputs, size_mod}

-- The coins of a list of unspent outputs.
abbrev pub total : List UTxO → ℕ
total [] = 0
total (u ∷ us) = u.output.amount + total us

-- The coins of a list of outputs.
abbrev pub total_outputs : List TxO → ℕ
total_outputs [] = 0
total_outputs (o ∷ os) = o.amount + total_outputs os

-- The unspent outputs that an input names.
abbrev pub matching : TxI → List UTxO → List UTxO
matching i [] = []
matching i (u ∷ us) = if matches u i then u ∷ matching i us else matching i us

-- The coins that the inputs name, each input counted by itself.
abbrev pub total_inputs : List TxI → List UTxO → ℕ
total_inputs [] us = 0
total_inputs (i ∷ is) us = total (matching i us) + total_inputs is us

-- The address of the last of the outputs.
abbrev pub last_address : Bytes → List UTxO → Bytes
last_address a [] = a
last_address a (u ∷ us) = last_address u.output.address us

-- The address that an input's coins belong to; empty if the input names no unspent output.
abbrev pub owner : TxI → List UTxO → Bytes
owner i us = last_address [] (matching i us)

mod_add : (s x : ℕ) → (s % size_mod + x) % size_mod ≡ (s + x) % size_mod
mod_add s x = omega arith

pub link_input_lem :
    (i : TxI) (us : List UTxO) (a : Bytes) (s : ℕ)
    → link_input i us (a, s % size_mod)
      ≡ (last_address a (matching i us), (s + total (matching i us)) % size_mod)
unfolding link_input
link_input_lem i [] a s = rw add-zero
link_input_lem i (u ∷ us) a s = elim (Bool-cases (matches u i)) [
  | inl e ↦
      rw (e, mod_add s u.output.amount)
        (link_input_lem i us u.output.address (s + u.output.amount)
          ∙ rw (add_assoc s u.output.amount (total (matching i us))))
  | inr e ↦ rw e (link_input_lem i us a s)
]

pub sum_outputs_lem :
    (os : List TxO) (s : ℕ) → sum_outputs os (s % size_mod) ≡ (s + total_outputs os) % size_mod
unfolding sum_outputs
sum_outputs_lem [] s = omega arith
sum_outputs_lem (o ∷ os) s =
    rw (mod_add s o.amount)
      (sum_outputs_lem os (s + o.amount) ∙ rw (add_assoc s o.amount (total_outputs os)))
