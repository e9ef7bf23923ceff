-- ===== src/Examples/Chains.antt =====
-- Chains on which the code of include/blockchain.h runs.
use buenzli_coin.Base.{
  ℕ, ◌+◌, ◌≡◌, ◌↔◌, refl, false, List, [], ◌∷◌, All, bytes_eq, some, none, arith,
}
use buenzli_coin.Base.Int.{pos}
use buenzli_coin.Base.Exec.{done, returns}
use buenzli_coin.Block.{
  Block, BlockData, mine, attempt, hashed, first_block, valid_block, block_hash, max_difficulty,
  block_to_json, block_from_json, payload_at, digest_at, optional_digest,
}
use buenzli_coin.Block.Mining.{IsMined, mine-IsMined, mine-total}
use buenzli_coin.Blockchain.{
  Chain, new_chain, is_greater, construct_next_block, construct_checked, next_block, mine_block,
  append_mined, append_next_block, append_checked, append_adjusted, check_next, valid_genesis_block,
  chain_to_json, chain_from_json, append_all,
}
use buenzli_coin.Blockchain.Append.{IsAppended, append_next_block_iff}
use buenzli_coin.Blockchain.Built.{Built, start, constructed, Built-IsLinked, early_not_greater}
use buenzli_coin.Blockchain.Linked.{IsLinked}
use buenzli_coin.Clock.{TimePoint, to_time_since_epoch, from_time_since_epoch}
use buenzli_coin.Crypto.Digest.{
  to_string, from_string, char_to_nibble, hex_digit, zero_prefix_length, scan_bytes,
}
use buenzli_coin.Difficulty.{new_adjuster, adjust, readjust}
use buenzli_coin.Examples.{Value, json, ssl, floats, config}
use buenzli_coin.Examples.Money.{prize}
use buenzli_coin.Json.{subscript, string_at, number_at, json_get, get_string_at, get_number_at}
use buenzli_coin.Ledger.{list_data}
use buenzli_coin.Ledger.Received.{chain_from_json-no_inputs}
use buenzli_coin.Transaction.{
  Transaction, decimal, decimal_digits, valid_transaction, valid_kind, valid_reward,
  check_reward_outputs, determine_hash, print_inputs, print_outputs,
}
use buenzli_coin.Transaction.Codec.{
  transaction_to_json, transaction_from_json, kind_name, kind_of, output_from_json, output_to_json,
}
use buenzli_coin.TransactionList.{valid_list, check_transactions, list_to_json, list_from_json}

abbrev pub first_prize : Transaction
first_prize = record prize { index = 0; hash = 242 ∷ [] }

abbrev pub clock : ℕ → TimePoint
clock i = pos (1000 + i)

abbrev pub kind : BlockData Value
kind = list_data ssl json config

abbrev pub genesis : Block (List Transaction)
genesis = record {
  payload = first_prize ∷ [];
  timestamp = pos 1002;
  nonce = 0;
  index = 0;
  hash_prev = none;
  hash = 69 ∷ [];
}

abbrev pub one_block : ℕ → Chain (List Transaction) ℕ
one_block t = record {
  blocks = genesis ∷ [];
  adjuster = record { difficulty = 1; cumulative_difficulty = 0; counter = 1; timestamp = pos t };
}

abbrev pub empty : Chain (List Transaction) ℕ
empty = record {
  blocks = [];
  adjuster = record { difficulty = 1; cumulative_difficulty = 0; counter = 0; timestamp = pos 0 };
}

pub one_block-constructed :
    construct_next_block ssl json kind floats config 3 clock
      (first_prize ∷ [])
      (new_chain floats config)
    ≡ returns (one_block 1000)
unfolding construct_next_block construct_checked next_block mine_block append_mined first_block
    hashed valid_block block_hash mine attempt adjust readjust new_chain new_adjuster valid_list
    check_transactions valid_transaction valid_kind valid_reward check_reward_outputs determine_hash
    print_inputs print_outputs decimal decimal_digits to_string hex_digit zero_prefix_length
    scan_bytes bytes_eq list_to_json to_time_since_epoch
one_block-constructed = refl

pub one_block-Built : Built ssl json kind floats config (one_block 1000)
one_block-Built = constructed 3 clock (first_prize ∷ []) start one_block-constructed

Built-IsLinked_example : IsLinked ssl json kind none (genesis ∷ [])
Built-IsLinked_example = Built-IsLinked ssl json kind floats config one_block-Built

early_not_greater_example :
    is_greater floats config (one_block 1000) (new_chain floats config) ≡ false
unfolding new_chain
early_not_greater_example =
    early_not_greater ssl json kind floats config (one_block 1000) (new_chain floats config)
      one_block-Built start (omega arith) (omega arith) (omega arith)

append_next_block_iff_example :
    (append_next_block ssl json kind floats config (pos 1003) genesis empty
      ≡ returns (one_block 1002))
    ↔ IsAppended ssl json kind floats config (pos 1003) genesis empty (one_block 1002)
append_next_block_iff_example =
    append_next_block_iff ssl json kind floats config (pos 1003) genesis empty (one_block 1002)

abbrev pub unmined : Block (List Transaction)
unmined = record genesis { timestamp = pos 1000; hash = [] }

genesis-mined : mine ssl json kind 3 clock 2 1 unmined ≡ some genesis
unfolding mine attempt hashed block_hash decimal decimal_digits to_string hex_digit
    zero_prefix_length scan_bytes bytes_eq list_to_json to_time_since_epoch
genesis-mined = refl

mine-IsMined_example : IsMined ssl json kind 1 unmined genesis
mine-IsMined_example = mine-IsMined ssl json kind 3 clock 2 1 unmined genesis genesis-mined

mine-total_example :
    (b' : Block (List Transaction)) × (mine ssl json kind 3 clock 2 1 unmined ≡ some b')
    × IsMined ssl json kind 1 unmined b'
unfolding attempt hashed block_hash decimal decimal_digits to_string hex_digit zero_prefix_length
    scan_bytes bytes_eq list_to_json to_time_since_epoch
mine-total_example = mine-total ssl json kind 0 3 clock 2 1 unmined (omega arith) (omega arith)

genesis-read :
    chain_from_json ssl json kind floats config clock
      (chain_to_json ssl json kind floats config (one_block 1000))
    ≡ done (one_block 1002)
unfolding append_next_block append_checked append_adjusted check_next valid_genesis_block
    max_difficulty valid_block block_hash adjust readjust new_chain new_adjuster valid_list
    check_transactions valid_transaction valid_kind valid_reward check_reward_outputs determine_hash
    print_inputs print_outputs decimal decimal_digits to_string hex_digit zero_prefix_length
    scan_bytes bytes_eq list_to_json to_time_since_epoch chain_to_json block_to_json block_from_json
    chain_from_json append_all payload_at digest_at optional_digest subscript string_at number_at
    json_get get_string_at get_number_at transaction_to_json transaction_from_json kind_name kind_of
    output_from_json output_to_json from_string char_to_nibble list_from_json from_time_since_epoch
genesis-read = refl

chain_from_json-no_inputs_example :
    All
      (λ (b : Block (List Transaction)). All (λ (t : Transaction). t.inputs ≡ []) b.payload)
      (genesis ∷ [])
chain_from_json-no_inputs_example =
    chain_from_json-no_inputs json ssl config floats clock
      (chain_to_json ssl json kind floats config (one_block 1000)) (one_block 1002) genesis-read
