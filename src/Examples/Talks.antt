-- ===== src/Examples/Talks.antt =====
-- The requests of src/node.cc to a peer without blocks, with a JSON library that reads them back.
use buenzli_coin.Base.{ℕ, ◌≡◌, refl, true, Bool, List, [], ◌∷◌, Bytes, bytes_eq, codes, none, some}
use buenzli_coin.Base.Int.{◌-ℤ◌}
use buenzli_coin.Base.Exec.{done, Error}
use buenzli_coin.Block.{
  valid_block, block_hash, block_to_json, block_from_json, payload_at, digest_at, optional_digest,
}
use buenzli_coin.Blockchain.{new_chain, chain_to_json}
use buenzli_coin.Clock.{to_time_since_epoch, from_time_since_epoch}
use buenzli_coin.Crypto.Digest.{to_string, from_string, char_to_nibble, hex_digit}
use buenzli_coin.Examples.{Value, nothing, bytes, json, ssl, floats, config}
use buenzli_coin.Examples.Chains.{clock, genesis, first_prize}
use buenzli_coin.Examples.Wire.{wire}
use buenzli_coin.Json.{
  JsonLib, subscript, string_at, number_at, json_get, get_string_at, get_number_at,
}
use buenzli_coin.Node.{Node}
use buenzli_coin.Node.Messages.{
  handle_request_latest_block, handle_request_all_blocks, answer_latest,
  broadcast_latest_block_request, request_latest_block_request, request_all_blocks_request,
  broadcast_transaction_request,
}
use buenzli_coin.Node.Servers.{
  Surroundings, to_socket, register_socket, socket_handlers, websocket_setup, serve_socket,
}
use buenzli_coin.Node.Talks.{IsCarried, asked, reported, block_request, requests-asked}
use buenzli_coin.Transaction.Codec.{transaction_to_json}
use buenzli_coin.Blockchain.{
  append_next_block, append_checked, append_adjusted, check_next, valid_genesis_block,
}
use buenzli_coin.Block.{max_difficulty}
use buenzli_coin.Crypto.Digest.{zero_prefix_length, scan_bytes}
use buenzli_coin.Difficulty.{new_adjuster, adjust, readjust}
use buenzli_coin.EraseLoop.{erase_loop}
use buenzli_coin.Node.{apply_received, after_step}
use buenzli_coin.Node.Messages.{block_message}
use buenzli_coin.Node.Receive.{
  extends, absorb, after_append, place, place_valid, linked, receive_block,
  handle_receive_latest_block, keep_or_add, receive_parsed, handle_receive_transaction,
}
use buenzli_coin.Pool.{add, prune, all_listed, remove_all, remove}
use buenzli_coin.Transaction.{
  update_unspent_outputs, decimal, decimal_digits, valid_transaction, valid_kind, valid_reward,
  check_reward_outputs, determine_hash, print_inputs, print_outputs,
}
use buenzli_coin.Transaction.Codec.{
  transaction_from_json, kind_name, kind_of, output_from_json, output_to_json,
}
use buenzli_coin.TransactionList.{
  valid_list, check_transactions, link_all, list_to_json, list_from_json,
}
use buenzli_coin.Unspent.{update, update_all, spend, new_outputs}
use buenzli_coin.Web.WebSocketServer.{
  read_request, respond, handle, handle_read, handler_of, on_read, support, support_all, not_ok,
  status_and_data,
}

abbrev what : Error → Bytes
what e = codes "what"

abbrev is_parse_error : Error → Bool
is_parse_error e = true

abbrev around : Surroundings
around = record {
  clock = clock;
  later_clock = clock;
  fuel = 3;
  connect = λ host port. none;
  send = λ t. none;
  opens = λ f. true;
  takes = λ f. true;
  host = codes "h";
  port = 8332;
}

abbrev node : Node ℕ
unfolding new_chain
node = record { chain = new_chain floats config; unspent = []; pool = []; peers = [] }

abbrev origin : Value
origin = json.object (("host", bytes (codes "h")) ∷ ("port", json.number 8332) ∷ [])

abbrev known : List Value
unfolding request_latest_block_request request_all_blocks_request broadcast_transaction_request
    transaction_to_json block_to_json
known =
    request_latest_block_request ssl json floats config
    ∷ request_all_blocks_request ssl json floats config
    ∷ broadcast_transaction_request ssl json floats config first_prize
    ∷ block_request ssl json floats config around what is_parse_error (codes "p") 7 genesis
    ∷ not_ok json (codes "what")
    ∷ status_and_data json (codes "ok") nothing
    ∷ status_and_data json (codes "ok")
        (json.object (("blockchain", json.array []) ∷ ("origin", origin) ∷ []))
    ∷ []

abbrev lib : JsonLib
lib = wire known

latest-IsCarried :
    IsCarried ssl lib floats config around what is_parse_error
      (request_latest_block_request ssl lib floats config)
      node
unfolding known node request_latest_block_request serve_socket websocket_setup register_socket
    socket_handlers support_all support handler_of bytes_eq on_read read_request handle_read handle
    respond to_socket handle_request_latest_block answer_latest new_chain
latest-IsCarried = (refl, refl)

all-IsCarried :
    IsCarried ssl lib floats config around what is_parse_error
      (request_all_blocks_request ssl lib floats config)
      node
unfolding known node request_latest_block_request request_all_blocks_request serve_socket
    websocket_setup register_socket socket_handlers support_all support handler_of bytes_eq on_read
    read_request handle_read handle respond to_socket handle_request_all_blocks chain_to_json
    new_chain broadcast_transaction_request transaction_to_json kind_name output_to_json
    block_to_json list_to_json to_string hex_digit to_time_since_epoch
all-IsCarried = (refl, refl)

transaction-IsCarried :
    IsCarried ssl lib floats config around what is_parse_error
      (broadcast_transaction_request ssl lib floats config first_prize)
      node
unfolding known node request_latest_block_request request_all_blocks_request
    broadcast_transaction_request transaction_to_json kind_name output_to_json to_string hex_digit
    serve_socket websocket_setup register_socket socket_handlers support_all support handler_of
    bytes_eq on_read read_request handle_read handle respond to_socket new_chain
    handle_receive_transaction receive_parsed keep_or_add transaction_from_json kind_of
    output_from_json json_get get_string_at get_number_at from_string char_to_nibble
    update_unspent_outputs add valid_transaction valid_kind valid_reward check_reward_outputs
    determine_hash print_inputs print_outputs decimal decimal_digits
transaction-IsCarried = (refl, refl)

block-IsCarried :
    IsCarried ssl lib floats config around what is_parse_error
      (block_request ssl lib floats config around what is_parse_error (codes "p") 7 genesis)
      node
unfolding known node request_latest_block_request request_all_blocks_request
    broadcast_transaction_request transaction_to_json kind_name output_to_json to_string hex_digit
    serve_socket websocket_setup register_socket socket_handlers support_all support handler_of
    bytes_eq on_read read_request handle_read handle respond to_socket new_chain
    transaction_from_json kind_of output_from_json json_get get_string_at get_number_at from_string
    char_to_nibble valid_transaction valid_kind valid_reward check_reward_outputs determine_hash
    print_inputs print_outputs decimal decimal_digits block_to_json list_to_json to_time_since_epoch
    from_time_since_epoch block_from_json payload_at digest_at optional_digest list_from_json
    subscript string_at number_at handle_receive_latest_block receive_block linked link_all
    update_unspent_outputs place_valid place extends after_append absorb after_step apply_received
    valid_block block_hash valid_list check_transactions ◌-ℤ◌ append_next_block append_checked
    append_adjusted check_next valid_genesis_block adjust readjust new_adjuster max_difficulty
    zero_prefix_length scan_bytes update_all update spend new_outputs erase_loop prune all_listed
    remove_all remove
block-IsCarried = (refl, refl)

requests-asked_example :
    (asked ssl lib floats config around what is_parse_error
        (request_latest_block_request ssl lib floats config)
        node
      ≡ reported ssl lib floats config around what is_parse_error
          (handle_request_latest_block ssl lib floats config around.host around.port node))
    × (asked ssl lib floats config around what is_parse_error
          (request_all_blocks_request ssl lib floats config)
          node
        ≡ reported ssl lib floats config around what is_parse_error
            (handle_request_all_blocks ssl lib floats config around.host around.port node))
    × (asked ssl lib floats config around what is_parse_error
          (broadcast_transaction_request ssl lib floats config first_prize)
          node
        ≡ reported ssl lib floats config around what is_parse_error (
            handle_receive_transaction ssl lib floats config
              (transaction_to_json lib first_prize)
              node))
    × (broadcast_latest_block_request ssl lib floats config (codes "p") 7 (some genesis)
        ≡ done
            (block_request ssl lib floats config around what is_parse_error (codes "p") 7 genesis))
    × (asked ssl lib floats config around what is_parse_error
          (block_request ssl lib floats config around what is_parse_error (codes "p") 7 genesis)
          node
        ≡ reported ssl lib floats config around what is_parse_error (
            handle_receive_latest_block ssl lib floats config around.connect around.clock
              (block_message ssl lib floats config (codes "p") 7 genesis)
              node))
requests-asked_example =
    requests-asked ssl lib floats config around what is_parse_error (codes "p") 7 genesis
      first_prize node latest-IsCarried all-IsCarried transaction-IsCarried block-IsCarried
