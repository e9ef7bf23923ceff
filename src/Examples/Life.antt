-- ===== src/Examples/Life.antt =====
-- The life of a node of src/node.cc: it is set up without blocks, mines one and takes up a peer.
use buenzli_coin.Base.{
  List, ℕ, ◌≡◌, refl, [], ◌∷◌, Bytes, codes, bytes_eq, Option, none, some, Bool, true,
}
use buenzli_coin.Base.Exec.{Error, done}
use buenzli_coin.Block.{valid_block, block_hash, mine, attempt, hashed, first_block}
use buenzli_coin.Blockchain.{
  new_chain, construct_next_block, construct_checked, next_block, mine_block, append_mined,
}
use buenzli_coin.Blockchain.Built.{start}
use buenzli_coin.Clock.{to_time_since_epoch}
use buenzli_coin.Crypto.Digest.{to_string, hex_digit, zero_prefix_length, scan_bytes}
use buenzli_coin.Difficulty.{new_adjuster, adjust, readjust}
use buenzli_coin.EraseLoop.{erase_loop}
use buenzli_coin.Examples.{Value, bytes, json, ssl, floats, config}
use buenzli_coin.Examples.Chains.{clock, one_block}
use buenzli_coin.Json.{subscript, string_at, number_at}
use buenzli_coin.Node.{Node, blockchain_setup, update_blocks, apply_constructed}
use buenzli_coin.Node.Consistent.{IsConsistent}
use buenzli_coin.Node.Http.{
  address_at, draw, after_updates, after_construct, construct_for, handle_blocks_post,
  after_connect, add_address, handle_peers_post,
}
use buenzli_coin.Node.Pooled.{HasPool}
use buenzli_coin.Node.Callbacks.{takes_latest_block}
use buenzli_coin.Node.Running.{
  Occurrence, on_http, on_socket, on_answer, launched, IsSoundLive, run_node, run_node-IsSound,
}
use buenzli_coin.Node.Served.{IsSound}
use buenzli_coin.Node.Servers.{Surroundings}
use buenzli_coin.Node.Safety.{IsSafe}
use buenzli_coin.Node.System.{
  Event, blocks_post, peers_post, left, handle, fresh, Reach, set_up, handled, Any, NoneAhead,
  Reach-sound, Reach-IsConsistent,
}
use buenzli_coin.Pool.{prune}
use buenzli_coin.Transaction.{
  Transaction, decimal, decimal_digits, valid_transaction, valid_kind, valid_reward,
  check_reward_outputs, determine_hash, print_inputs, print_outputs, make_reward,
}
use buenzli_coin.TransactionList.{valid_list, check_transactions, list_to_json}
use buenzli_coin.Unspent.{update, update_all, spend, new_outputs}
use buenzli_coin.Web.HttpServer.{post}
use buenzli_coin.Web.HttpServer.Requests.{Request}
use buenzli_coin.Web.HttpServer.Connections as Http
use buenzli_coin.Web.Listening.{connected, ends}
use buenzli_coin.Web.WebSocketServer.Connections.{accepted, message}
use buenzli_coin.Web.Peers

abbrev connect : Bytes → ℕ → Option Error
connect host port = none

abbrev send : Transaction → Option Error
send t = none

abbrev born : Node ℕ
born = fresh ssl json floats config connect send (new_chain floats config)

abbrev mined : Node ℕ
mined = record {
  chain = one_block 1000;
  unspent =
      record {
        output_hash = 242 ∷ [];
        output_index = 0;
        output = record { amount = 10; address = codes "a" };
      }
      ∷ [];
  pool = [];
  peers = [];
}

abbrev met : Node ℕ
met = record mined { peers = record { host = codes "p"; port = 7 } ∷ [] }

abbrev mining : Event Value
mining = blocks_post 3 clock (json.object (("address", bytes (codes "a")) ∷ []))

abbrev meeting : Event Value
meeting = peers_post (json.object (("host", bytes (codes "p")) ∷ ("port", json.number 7) ∷ []))

born_lem : blockchain_setup born ≡ done born
unfolding blockchain_setup update_blocks new_chain
born_lem = refl

mined_lem : left (handle ssl json floats config connect send mining born) ≡ some mined
unfolding left handle handle_blocks_post construct_for draw after_construct after_updates
    make_reward apply_constructed update_all update spend new_outputs erase_loop prune string_at
    subscript construct_next_block construct_checked next_block mine_block append_mined first_block
    hashed valid_block block_hash mine attempt adjust readjust new_chain new_adjuster valid_list
    check_transactions valid_transaction valid_kind valid_reward check_reward_outputs determine_hash
    print_inputs print_outputs decimal decimal_digits to_string hex_digit zero_prefix_length
    scan_bytes bytes_eq list_to_json to_time_since_epoch
mined_lem = refl

met_lem : left (handle ssl json floats config connect send meeting mined) ≡ some met
unfolding left handle handle_peers_post add_address address_at after_connect string_at number_at
    subscript Peers.add
met_lem = refl

abbrev Lives : (Event Value → Node ℕ → Type 0) → Type 0
Lives Allowed = Reach ssl json floats config connect send Allowed met

life :
    (Allowed : Event Value → Node ℕ → Type 0)
    → Allowed mining born
    → Allowed meeting mined
    → Lives Allowed
life Allowed a a' =
    handled meeting mined met
      (handled mining born mined (set_up (new_chain floats config) born start born_lem) a mined_lem)
      a' met_lem

Reach-sound_example : IsSafe ssl json floats config met × HasPool ssl json floats config met
Reach-sound_example =
    Reach-sound ssl json floats config connect send met
      (life (Any ssl json floats config connect send) tt tt)

Reach-IsConsistent_example : IsConsistent met
Reach-IsConsistent_example =
    Reach-IsConsistent ssl json floats config connect send met
      (life (NoneAhead ssl json floats config connect send) tt tt)

abbrev around : Surroundings
around = record {
  clock = clock;
  later_clock = clock;
  fuel = 3;
  connect = connect;
  send = send;
  opens = λ f. true;
  takes = λ f. true;
  host = codes "h";
  port = 8332;
}

abbrev pub what : Error → Bytes
what e = codes "what"

abbrev pub is_parse_error : Error → Bool
is_parse_error e = true

abbrev request : Request
request = record {
  target = codes "/blocks";
  method = post;
  method_string = codes "POST";
  content_type = codes "application/json";
  body = [];
}

met-IsSound : IsSound ssl json floats config met
met-IsSound =
    Reach-sound ssl json floats config connect send met
      (life (Any ssl json floats config connect send) tt tt)

-- A client asks for a block, while a peer sends what is no message.
abbrev pub occurrences : List Occurrence
occurrences =
    on_http around connected
    ∷ on_socket around connected
    ∷ on_socket around (ends 0 accepted)
    ∷ on_http around (ends 0 (Http.request request))
    ∷ on_socket around (ends 0 (message (codes "x")))
    ∷ on_http around (ends 0 Http.wrote)
    ∷ on_answer around takes_latest_block (true, codes "x")
    ∷ []

run_node-IsSound_example :
    IsSoundLive ssl json floats config what is_parse_error
      (run_node ssl json floats config what is_parse_error occurrences (launched met))
run_node-IsSound_example =
    run_node-IsSound ssl json floats config what is_parse_error occurrences met met-IsSound
