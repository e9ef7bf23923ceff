-- ===== src/Transaction.antt =====
-- class Transaction of include/transaction.h and src/transaction.cc: the records and `valid`.
-- A std::size_t is a number below 2 ^ 64, and sums of amounts wrap.
pub mod Amounts
pub mod Valid
pub mod Codec
pub mod RoundTrip
use buenzli_coin.Base.{
  ℕ, zero, suc, ◌+◌, ◌/◌, ◌%◌, ◌^◌, Bool, true, false, ◌&&◌, not, List, [], ◌∷◌, ◌++◌, ltb, ◌==◌,
  if◌then◌else◌, Bytes, bytes_eq, is_empty,
}
use buenzli_coin.Base.Exec.{
  Result, ok, err, Verdict, valid, invalid, invalid_hash, mismatched_sums, inputs_not_empty,
  more_than_one_output, reward_mismatch, no_unspent_output, invalid_signature, signature_exception,
}
use buenzli_coin.Config.{Config}
use buenzli_coin.Crypto.Digest.{Digest, to_string}
use buenzli_coin.Crypto.Keypair.{OpenSsl, verify}

-- Transaction input.
pub record TxI : Type 0 where
  pub output_hash : Digest
  pub output_index : ℕ
  pub signature : Digest

-- Transaction output.
pub record TxO : Type 0 where
  pub amount : ℕ
  pub address : Bytes

-- Unspent transaction output.
pub record UTxO : Type 0 where
  pub output_hash : Digest
  pub output_index : ℕ
  pub output : TxO

-- TxI::operator==
abbrev pub same_input : TxI → TxI → Bool
same_input a b = bytes_eq a.output_hash b.output_hash && a.output_index == b.output_index

-- UTxO::operator==(TxI const &)
abbrev pub matches : UTxO → TxI → Bool
matches u i = bytes_eq u.output_hash i.output_hash && u.output_index == i.output_index

pub data Kind : Type 0 where
  standard reward : Kind

pub record Transaction : Type 0 where
  pub kind : Kind
  pub index : ℕ
  pub hash : Digest
  pub inputs : List TxI
  pub outputs : List TxO
  pub unspent_outputs : List UTxO

unfoldable pub update_unspent_outputs : List UTxO → Transaction → Transaction
update_unspent_outputs us t = record t { unspent_outputs = us }

-- `ss << n`: decimal digits, at most twenty for a 64-bit number.
unfoldable pub decimal_digits : ℕ → ℕ → Bytes
decimal_digits zero n = []
decimal_digits (suc fuel) n =
    let rest = decimal_digits fuel (n / 10) in
    if ltb n 10 then (b'0' + n) ∷ [] else rest ++ (b'0' + n % 10) ∷ []

unfoldable pub decimal : ℕ → Bytes
unfolding decimal_digits
decimal n = decimal_digits 20 n

unfoldable pub print_inputs : List TxI → Bytes
print_inputs [] = []
print_inputs (i ∷ is) = to_string i.output_hash ++ (decimal i.output_index ++ print_inputs is)

unfoldable pub print_outputs : List TxO → Bytes
print_outputs [] = []
print_outputs (o ∷ os) = decimal o.amount ++ (o.address ++ print_outputs os)

abbrev pub size_mod : ℕ
size_mod = 2 ^ 64

-- The loop over m_unspent_outputs for one input: the address and the running sum.
unfoldable pub link_input : TxI → List UTxO → Bytes × ℕ → Bytes × ℕ
link_input txi [] r = r
link_input txi (u ∷ us) (address, sum) = link_input txi us (
    if matches u txi
    then (u.output.address, (sum + u.output.amount) % size_mod)
    else (address, sum))

unfoldable pub sum_outputs : List TxO → ℕ → ℕ
sum_outputs [] sum = sum
sum_outputs (o ∷ os) sum = sum_outputs os ((sum + o.amount) % size_mod)

-- How one input's signature check goes on.
abbrev pub after_verify {ℓ} : {A : Type ℓ} → ℕ → Result Bool → Result A → Result A
after_verify i (ok true) next = next
after_verify i (ok false) next = err (invalid_signature i)
after_verify i (err e) next = err (signature_exception i e)

module _ (ssl : OpenSsl) where
  unfoldable pub determine_hash : Transaction → Digest
  unfolding print_inputs print_outputs
  determine_hash t =
      ssl.sha256 (decimal t.index ++ (print_inputs t.inputs ++ print_outputs t.outputs))

  -- The loop over m_inputs: txi_sum, or the error that it returns.
  unfoldable pub check_inputs : Digest → List UTxO → ℕ → List TxI → ℕ → Result ℕ
  unfolding link_input
  check_inputs hash us i [] txi_sum = ok txi_sum
  check_inputs hash us i (txi ∷ rest) txi_sum =
      let (address, txi_sum') = link_input txi us ([], txi_sum) in
      let next = check_inputs hash us (i + 1) rest txi_sum' in
      if is_empty address
      then err (no_unspent_output i)
      else after_verify i (verify ssl address hash txi.signature) next

  unfoldable pub check_sums : Result ℕ → ℕ → Verdict
  check_sums (err e) txo_sum = invalid e
  check_sums (ok txi_sum) txo_sum = if txi_sum == txo_sum then valid else invalid mismatched_sums

  unfoldable pub valid_standard : Transaction → Verdict
  unfolding check_inputs check_sums sum_outputs
  valid_standard t =
      if not (bytes_eq t.hash (determine_hash t))
      then invalid invalid_hash
      else check_sums (check_inputs t.hash t.unspent_outputs 0 t.inputs 0) (sum_outputs t.outputs 0)

  module _ {Double : Type 0} (config : Config Double) where
    -- m_outputs.size() != 1 and the test of the first output.
    unfoldable pub check_reward_outputs : List TxO → Verdict
    check_reward_outputs [] = invalid more_than_one_output
    check_reward_outputs (o ∷ []) =
        if o.amount == config.reward_amount then valid else invalid reward_mismatch
    check_reward_outputs (o ∷ p ∷ os) = invalid more_than_one_output

    unfoldable pub valid_reward : Transaction → Verdict
    unfolding check_reward_outputs
    valid_reward t =
        if not (bytes_eq t.hash (determine_hash t))
        then invalid invalid_hash
        else if not (is_empty t.inputs)
        then invalid inputs_not_empty
        else check_reward_outputs t.outputs

    unfoldable pub valid_kind : Kind → Transaction → Verdict
    valid_kind reward t = valid_reward t
    valid_kind standard t = valid_standard t

    -- Transaction::valid
    unfoldable pub valid_transaction : Transaction → Verdict
    unfolding valid_kind
    valid_transaction t = valid_kind t.kind t

    unfoldable pub unhashed_reward : Bytes → ℕ → Transaction
    unhashed_reward address index = record {
      kind = reward;
      index = index;
      hash = [];
      inputs = [];
      outputs = record { amount = config.reward_amount; address = address } ∷ [];
      unspent_outputs = [];
    }

    -- Transaction::reward
    unfoldable pub make_reward : Bytes → ℕ → Transaction
    unfolding unhashed_reward
    make_reward address index = record (unhashed_reward address index) {
      hash = determine_hash (unhashed_reward address index);
    }
