-- ===== src/Examples/Start.antt =====
-- The start of a node by src/main.cc, without files.
use buenzli_coin.Base.{bytes_eq, ℕ, ◌≡◌, refl, inl, List, [], ◌∷◌, ◌++◌, Bytes, Option, none, some}
use buenzli_coin.Base.Int.{pos}
use buenzli_coin.Base.Exec.{ok, done, Error}
use buenzli_coin.Blockchain.{new_chain}
use buenzli_coin.Config.{Config}
use buenzli_coin.Config.Toml.{
  TomlLib, from_defaults, toml_assign, toml_for_table, assign_blockgen, assign_transaction,
  read_config, from_toml,
}
use buenzli_coin.Difficulty.{new_adjuster}
use buenzli_coin.Examples.{json, ssl, floats}
use buenzli_coin.Examples.Chains.{clock}
use buenzli_coin.Examples.Life.{occurrences, what, is_parse_error}
use buenzli_coin.Node.{Node, blockchain_setup, update_blocks}
use buenzli_coin.Json.{string_at}
use buenzli_coin.Node.Http.{handle_blocks_post}
use buenzli_coin.Node.Running.{Live, Occurrence, on_stop, launched, IsSoundLive, run_node}
use buenzli_coin.Startup.{
  Options, initial, load_chain, load_config, start_node, start_node-difficulty,
}
use buenzli_coin.Startup.Main.Sound.{Ends, main-IsSound}
use buenzli_coin.Startup.Main.{
  CommandLine, parse_options, exit_success, create_node, prepare_node, main,
}
use buenzli_coin.Web.HttpServer.Connections as Http
use buenzli_coin.Web.WebSocketServer.Connections as Socket

-- A file with one section, in which every number is 7.
abbrev toml : TomlLib ℕ
toml = record {
  Table = Unit;
  Value = Unit;
  parse_file = λ name. ok tt;
  find = λ t name. some tt;
  as_table = some;
  int_value = λ v. some (pos 7);
  size_value = λ v. some 7;
  double_value = λ v. some 7;
}

abbrev file : Bytes → Option Bytes
file name = none

abbrev configured : Config ℕ
configured = record {
  time_expected = pos 7;
  time_max_delta = pos 7;
  difficulty_init = 7;
  difficulty_adjust_after = 7;
  difficulty_adjust_factor_limit = 7;
  num_per_block = 7;
  reward_amount = 7;
}

abbrev options : Options
options = record { blockchain = []; configuration = 99 ∷ [] }

abbrev node : Node ℕ
node = record {
  chain = record {
    blocks = [];
    adjuster = record { difficulty = 2; cumulative_difficulty = 0; counter = 0; timestamp = pos 0 };
  };
  unspent = [];
  pool = [];
  peers = [];
}

node-started : start_node ssl json floats toml file clock options ≡ done (configured, node)
unfolding start_node load_chain load_config initial from_toml read_config toml_for_table
    assign_blockgen assign_transaction toml_assign from_defaults new_chain new_adjuster
    blockchain_setup update_blocks
node-started = refl

start_node-difficulty_example : 2 ≡ floats.of_int (pos 2)
start_node-difficulty_example =
    start_node-difficulty ssl json floats toml file clock (99 ∷ []) configured node node-started

abbrev command_line : CommandLine
command_line = record {
  name = none;
  websocket_host = none;
  websocket_port = some 9000;
  http_host = none;
  http_port = none;
  blockchain = none;
  configuration = some (99 ∷ []);
}

abbrev binds : Bytes → ℕ → Option Error
binds host port = none

abbrev until_stopped : List Occurrence
until_stopped = occurrences ++ on_stop ∷ []

abbrev live : Live ℕ
live = run_node ssl json floats configured what is_parse_error until_stopped (launched node)

ran :
    main ssl json floats toml file clock binds what is_parse_error (ok command_line) until_stopped
    ≡ done (exit_success, some (configured, live))
unfolding main prepare_node parse_options create_node load_chain load_config initial from_toml
    read_config toml_for_table assign_blockgen assign_transaction toml_assign from_defaults
    new_chain new_adjuster blockchain_setup update_blocks Http.react Socket.react bytes_eq
    handle_blocks_post string_at
ran = refl

main-IsSound_example :
    Ends until_stopped exit_success
    × IsSoundLive ssl json floats configured what is_parse_error live
unfolding parse_options
main-IsSound_example =
    main-IsSound ssl json floats toml file clock binds what is_parse_error command_line
      until_stopped exit_success configured live (inl refl) ran
