-- ===== src/Examples/Nodes.antt =====
-- Nodes on which the handlers of src/node.cc run.
use buenzli_coin.Base.{
  ℕ, ◌≡◌, refl, List, [], ◌∷◌, ◌++◌, Bytes, codes, bytes_eq, Option, none, arith,
}
use buenzli_coin.Base.Int.{◌-ℤ◌}
use buenzli_coin.Base.Exec.{Error, done, valid, bind_exec}
use buenzli_coin.Block.{
  Block, valid_block, block_hash, block_to_json, block_from_json, payload_at, digest_at,
  optional_digest,
}
use buenzli_coin.Clock.{to_time_since_epoch, from_time_since_epoch}
use buenzli_coin.Crypto.Digest.{to_string, from_string, char_to_nibble, hex_digit}
use buenzli_coin.EraseLoop.{erase_loop}
use buenzli_coin.Examples.{Value, json, ssl, floats, config}
use buenzli_coin.Examples.Money.{coins, once, prize}
use buenzli_coin.Examples.Chains.{clock, kind, empty, genesis}
use buenzli_coin.Json.{subscript, string_at, number_at, json_get, get_string_at, get_number_at}
use buenzli_coin.Node.{Node, request_all_blocks, answers, apply_received}
use buenzli_coin.Node.Ahead.{ahead_lem}
use buenzli_coin.Node.Http.{address_at}
use buenzli_coin.Node.Messages.{block_message}
use buenzli_coin.Node.Receive.{linked, origin_of, handle_receive_latest_block}
use buenzli_coin.Pool.{prune, remove_all, remove, all_listed}
use buenzli_coin.Transaction.{
  UTxO, Transaction, update_unspent_outputs, decimal, decimal_digits, valid_transaction, valid_kind,
  valid_reward, check_reward_outputs, determine_hash, print_inputs, print_outputs,
}
use buenzli_coin.Transaction.Codec.{
  transaction_to_json, transaction_from_json, kind_name, kind_of, output_from_json, output_to_json,
}
use buenzli_coin.TransactionList.{
  valid_list, check_transactions, link_all, list_to_json, list_from_json,
}
use buenzli_coin.Unspent.{update, update_all, spend, new_outputs}
use buenzli_coin.Web.Peers

abbrev connect : Bytes → ℕ → Option Error
connect host port = none

abbrev later_prize : Transaction
later_prize = record prize { index = 1; hash = 243 ∷ [] }

-- A block of the index 1.
abbrev later : Block (List Transaction)
later = record genesis { payload = later_prize ∷ []; index = 1; hash = 70 ∷ [] }

abbrev message : Value
message = block_message ssl json floats config (codes "p") 7 later

abbrev peers : List Peers.Peer
peers = record { host = codes "q"; port = 1 } ∷ record { host = codes "p"; port = 7 } ∷ []

abbrev node : Node ℕ
node = record { chain = empty; unspent = coins; pool = once ∷ []; peers = peers }

abbrev more_coins : List UTxO
more_coins =
    coins
    ++ record {
      output_hash = 243 ∷ [];
      output_index = 0;
      output = record { amount = 10; address = codes "a" };
    }
      ∷ []

abbrev node' : Node ℕ
node' = record node { unspent = more_coins }

message-block :
    bind_exec (subscript json message "block") (block_from_json ssl json kind) ≡ done later
unfolding subscript string_at number_at block_to_json block_from_json payload_at digest_at
    optional_digest transaction_to_json transaction_from_json kind_name kind_of output_from_json
    output_to_json json_get get_string_at get_number_at from_string char_to_nibble to_string
    hex_digit list_from_json list_to_json from_time_since_epoch to_time_since_epoch bytes_eq
message-block = refl

later-valid :
    valid_block ssl json kind config (clock 0) (linked ssl json floats config connect node later)
    ≡ valid
unfolding linked link_all update_unspent_outputs valid_block block_hash valid_list
    check_transactions valid_transaction valid_kind valid_reward check_reward_outputs determine_hash
    print_inputs print_outputs decimal decimal_digits to_string hex_digit bytes_eq list_to_json
    to_time_since_epoch ◌-ℤ◌
later-valid = refl

message-origin : origin_of ssl json floats config connect message ≡ done (codes "p", 7)
unfolding origin_of address_at subscript string_at number_at
message-origin = refl

known : Peers.find (codes "p") 7 peers ≡ 2
unfolding Peers.find Peers.find_from bytes_eq
known = refl

later-applied :
    apply_received (linked ssl json floats config connect node later).payload node ≡ done node'
unfolding apply_received linked link_all update_unspent_outputs update_all update spend new_outputs
    erase_loop prune all_listed remove_all remove bytes_eq
later-applied = refl

ahead_lem_example :
    (handle_receive_latest_block ssl json floats config connect clock message node
      ≡ answers node' json.null (request_all_blocks (Peers.find (codes "p") 7 peers) ∷ []))
    × (node'.chain ≡ node.chain)
    × (update_all (linked ssl json floats config connect node later).payload coins
        ≡ done more_coins)
ahead_lem_example =
    ahead_lem ssl json floats config connect clock message later (codes "p") 7 node node'
      message-block later-valid (omega arith) message-origin (λ h. omega (arith, h, known))
      later-applied
