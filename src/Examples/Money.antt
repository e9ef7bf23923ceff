-- ===== src/Examples/Money.antt =====
-- Transactions, unspent outputs and pools on which the code of src/transaction.cc runs.
use buenzli_coin.Base.{ℕ, ◌+◌, ◌≡◌, ◌↔◌, refl, List, [], ◌∷◌, Bytes, codes, bytes_eq, arith}
use buenzli_coin.Base.Exec.{done, valid}
use buenzli_coin.Crypto.Digest.{to_string, hex_digit}
use buenzli_coin.Crypto.Keypair.{verify, verify_key, verify_status, build_key, pad}
use buenzli_coin.Examples.{ssl}
use buenzli_coin.Transaction.{
  TxI, TxO, UTxO, standard, reward, Transaction, determine_hash, print_inputs, print_outputs,
  decimal, decimal_digits, size_mod, valid_standard, check_inputs, check_sums, link_input,
  sum_outputs,
}
use buenzli_coin.Transaction.Amounts.{total, total_outputs, matching, total_inputs}
use buenzli_coin.Transaction.Valid.{IsSigned, IsValidStandard, valid_standard_iff}
use buenzli_coin.Unspent.{update, update_all}
use buenzli_coin.Unspent.Coins.{IsReady, update-total}
use buenzli_coin.Unspent.Distinct.{Distinct}
use buenzli_coin.Unspent.Refinement.{view, transfer_all, update_all-view}
use buenzli_coin.Unspent.Supply.{valid_standard-total, double_input_mints, overflow_mints}

abbrev pub coins : List UTxO
coins =
    record {
      output_hash = 1 ∷ [];
      output_index = 0;
      output = record { amount = 10; address = codes "a" };
    }
    ∷ record {
      output_hash = 2 ∷ [];
      output_index = 0;
      output = record { amount = 5; address = codes "c" };
    }
    ∷ []

-- An input that spends the first coin.
abbrev pub input : Bytes → TxI
input sig = record { output_hash = 1 ∷ []; output_index = 0; signature = sig }

abbrev pub payment : Bytes → List TxI → List TxO → Transaction
payment hash inputs outputs = record {
  kind = standard;
  index = 1;
  hash = hash;
  inputs = inputs;
  outputs = outputs;
  unspent_outputs = coins;
}

abbrev pub to_b : ℕ → List TxO
to_b n =
    record { amount = n; address = codes "b" } ∷ record { amount = 4; address = codes "a" } ∷ []

abbrev over : List TxO
over =
    record { amount = 9223372036854775811; address = codes "b" }
    ∷ record { amount = 9223372036854775815; address = codes "b" }
    ∷ []

pub coins-Distinct : Distinct coins
unfolding bytes_eq
coins-Distinct = (refl, (refl, tt))

abbrev pub once : Transaction
once = payment (239 ∷ []) (input (239 ∷ []) ∷ []) (to_b 6)

abbrev pub twice : Transaction
twice = payment (177 ∷ []) (input (177 ∷ []) ∷ input (177 ∷ []) ∷ []) (to_b 16)

abbrev minting : Transaction
minting = payment (80 ∷ []) (input (80 ∷ []) ∷ []) over

pub once-valid : valid_standard ssl once ≡ valid
unfolding valid_standard check_inputs check_sums link_input sum_outputs determine_hash print_inputs
    print_outputs decimal decimal_digits to_string hex_digit verify verify_key verify_status
    build_key pad bytes_eq
once-valid = refl

once-IsReady : IsReady once coins
unfolding bytes_eq
once-IsReady = record {
  distinct = coins-Distinct;
  has_output = λ h. cc;
  foreign = (refl, tt);
  fresh = refl;
}

valid_standard-total_example :
    (us' : List UTxO) × (update once coins ≡ done us') × (total us' ≡ total coins)
valid_standard-total_example =
    valid_standard-total ssl once once-valid once-IsReady (refl, tt) (omega arith) (omega arith)

update_all-view_example :
    (us' : List UTxO) × (update_all (once ∷ []) coins ≡ done us')
    × (view us' ≡ transfer_all (once ∷ []) (view coins))
update_all-view_example = update_all-view (once ∷ []) coins (once-IsReady, tt)

update-total_example :
    (us' : List UTxO) × (update once coins ≡ done us')
    × (total us' + total_inputs once.inputs coins ≡ total coins + total_outputs once.outputs)
update-total_example = update-total once coins once-IsReady (refl, tt)

valid_standard_iff_example : (valid_standard ssl once ≡ valid) ↔ IsValidStandard ssl once
valid_standard_iff_example = valid_standard_iff ssl once

twice-IsReady : IsReady twice coins
unfolding bytes_eq
twice-IsReady = record {
  distinct = coins-Distinct;
  has_output = λ h. cc;
  foreign = (refl, (refl, tt));
  fresh = refl;
}

twice-hash : twice.hash ≡ determine_hash ssl twice
unfolding determine_hash print_inputs print_outputs decimal decimal_digits to_string hex_digit
    bytes_eq
twice-hash = refl

twice-IsSigned : IsSigned ssl twice.hash coins (input (177 ∷ []))
unfolding verify verify_key verify_status build_key pad bytes_eq
twice-IsSigned = (λ h. cc, refl)

double_input_mints_example :
    (valid_standard ssl twice ≡ valid)
    × ((us' : List UTxO) × (update twice coins ≡ done us')
        × (total us' ≡ total coins + total (matching (input (177 ∷ [])) coins)))
unfolding bytes_eq
double_input_mints_example =
    double_input_mints ssl twice (input (177 ∷ [])) refl twice-hash twice-IsSigned refl
      twice-IsReady

minting-hash : minting.hash ≡ determine_hash ssl minting
unfolding determine_hash print_inputs print_outputs decimal decimal_digits to_string hex_digit
    bytes_eq
minting-hash = refl

minting-IsSigned : IsSigned ssl minting.hash coins (input (80 ∷ []))
unfolding verify verify_key verify_status build_key pad bytes_eq
minting-IsSigned = (λ h. cc, refl)

minting-IsReady : IsReady minting coins
unfolding bytes_eq
minting-IsReady = record {
  distinct = coins-Distinct;
  has_output = λ h. cc;
  foreign = (refl, tt);
  fresh = refl;
}

overflow_mints_example :
    (valid_standard ssl minting ≡ valid)
    × ((us' : List UTxO) × (update minting coins ≡ done us') × (total us' ≡ total coins + size_mod))
unfolding bytes_eq
overflow_mints_example =
    overflow_mints ssl minting minting-hash (minting-IsSigned, tt) refl minting-IsReady (refl, tt)

abbrev pub prize : Transaction
prize = record {
  kind = reward;
  index = 7;
  hash = 249 ∷ [];
  inputs = [];
  outputs = record { amount = 10; address = codes "a" } ∷ [];
  unspent_outputs = [];
}
