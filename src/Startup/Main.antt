-- ===== src/Startup/Main.antt =====
-- `main` of src/main.cc: the command line, the node, its run until SIGTERM, and how the program ends.
pub mod Sound
use buenzli_coin.Base.{
  ℕ, ◌≡◌, ◌≢◌, any, false, ◌⊎◌, inl, inr, refl, subst, List, [], ◌∷◌, Bool, Bytes, codes, Option,
  none, some, is_empty, if◌then◌else◌,
}
use buenzli_coin.Base.Exec.{
  Result, Exec, ok, done, throws, undefined, lift, map_exec, bind_exec, bind_exec-eq-done,
  done-injective, Error,
}
use buenzli_coin.Blockchain.{new_chain}
use buenzli_coin.Blockchain.Built.{Built-IsLinked}
use buenzli_coin.Blockchain.Linked.{IsLinked}
use buenzli_coin.Clock.{TimePoint}
use buenzli_coin.Config.{Config}
use buenzli_coin.Config.Toml.{TomlLib}
use buenzli_coin.Crypto.Keypair.{OpenSsl}
use buenzli_coin.Difficulty.{Floats}
use buenzli_coin.Json.{JsonLib}
use buenzli_coin.Ledger.{list_data}
use buenzli_coin.Node.{Node, blockchain_setup}
use buenzli_coin.Node.Pooled.{set_up-HasPool}
use buenzli_coin.Node.Running.{
  Live, Occurrence, launched, run_node, IsSoundLive, is_stop, run_node-IsSound, run_node-run,
}
use buenzli_coin.Node.Safety.{same-IsSafe}
use buenzli_coin.Node.Served.{IsSound}
use buenzli_coin.Node.Updates.{blockchain_setup-IsSetUp, map_exec-eq-done}
use buenzli_coin.Startup.{Options, Transactions, initial, load_chain, load_config, loaded-Built}
use buenzli_coin.Web.Listening.{Run, running, stopped, thrown, held}

-- What the command line gives.
pub record CommandLine : Type 0 where
  pub name : Option Bytes
  pub websocket_host : Option Bytes
  pub websocket_port : Option ℕ
  pub http_host : Option Bytes
  pub http_port : Option ℕ
  pub blockchain : Option Bytes
  pub configuration : Option Bytes

-- The variables of main, but for `verbose`.
pub record Settings : Type 0 where
  pub name : Bytes
  pub websocket_host : Bytes
  pub websocket_port : ℕ
  pub http_host : Bytes
  pub http_port : ℕ
  pub files : Options

abbrev pub or_else : {A : Type 0} → A → Option A → A
or_else a none = a
or_else a (some b) = b

unfoldable pub parse_options : CommandLine → Settings
parse_options c = record {
  name = or_else (codes "BuenzliNode") c.name;
  websocket_host = or_else (codes "127.0.0.1") c.websocket_host;
  websocket_port = or_else 8332 c.websocket_port;
  http_host = or_else (codes "127.0.0.1") c.http_host;
  http_port = or_else 8333 c.http_port;
  files = record {
    blockchain = or_else [] c.blockchain;
    configuration = or_else [] c.configuration;
  };
}

-- How the program ends: main returns after an exception or when the node is stopped; an exception on a
-- thread of the node terminates it; or it has not ended.
pub data Exit : Type 0 where
  exit_success exit_failure terminated unended : Exit

abbrev pub exit_of : Run → Exit
exit_of running = unended
exit_of stopped = exit_success
exit_of thrown = terminated
exit_of held = unended

-- `file` is the content of a file that can be opened, `binds` the exception, if there is one, of a server
-- at an address.
module _ (ssl : OpenSsl) (lib : JsonLib) {Double : Type 0} (floats : Floats Double)
    (toml : TomlLib Double) (file : Bytes → Option Bytes) (clock : ℕ → TimePoint)
    (binds : Bytes → ℕ → Option Error) where
  abbrev pub or_throws : Option Error → Exec (Node Double) → Exec (Node Double)
  or_throws none rest = rest
  or_throws (some e) rest = throws e

  -- The constructor of the node: its two servers, and its setup.
  unfoldable pub create_node :
      Settings → Transactions ssl lib floats toml file clock → Exec (Node Double)
  create_node s chain = or_throws (binds s.websocket_host s.websocket_port) (
      or_throws (binds s.http_host s.http_port)
        (blockchain_setup (record { chain = chain; unspent = []; pool = []; peers = [] })))

  -- The try block, up to run_node.
  unfoldable pub prepare_node : Settings → Exec (Config Double × Node Double)
  unfolding create_node load_chain load_config
  prepare_node s = bind_exec (load_chain ssl lib floats toml file clock s.files) λ chain.
      bind_exec (load_config ssl lib floats toml file clock s.files)
        λ config. map_exec (λ node. (config, node)) (create_node s chain)

  module _ (what : Error → Bytes) (is_parse_error : Error → Bool) where
    abbrev pub run_program :
        List Occurrence
        → Exec (Config Double × Node Double)
        → Exec (Exit × Option (Config Double × Live Double))
    run_program xs (throws e) = done (exit_failure, none)
    run_program xs undefined = undefined
    run_program xs (done (config, node)) =
        let live = run_node ssl lib floats config what is_parse_error xs (launched node) in
        done (exit_of live.run, some (config, live))

    -- `main`, with what happens on the servers. A command line that cannot be parsed is an exception.
    unfoldable pub main :
        Result CommandLine → List Occurrence → Exec (Exit × Option (Config Double × Live Double))
    unfolding parse_options prepare_node run_node
    main line xs = run_program xs (bind_exec (lift line) λ c. prepare_node (parse_options c))
