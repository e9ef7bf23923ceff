-- ===== src/Startup.antt =====
-- The start of a node in `main` of src/main.cc: the chain, the configuration, and the node. Logging is
-- left out.
pub mod Main
use buenzli_coin.Base.{
  ℕ, ◌≡◌, sym, ap, ◌∙◌, subst, List, [], Bytes, Option, none, some, is_empty, if◌then◌else◌, Bool,
  true, false,
}
use buenzli_coin.Base.Int.{pos}
use buenzli_coin.Base.Exec.{
  Exec, done, throws, lift, map_exec, bind_exec, bind_exec-eq-done, done-injective,
  chain_file_not_opened,
}
use buenzli_coin.Blockchain.{Chain, new_chain, chain_from_json}
use buenzli_coin.Blockchain.Built.{Built, start, chain_from_json-Built}
use buenzli_coin.Clock.{TimePoint}
use buenzli_coin.Config.{Config}
use buenzli_coin.Config.Toml.{TomlLib, from_defaults, from_toml}
use buenzli_coin.Crypto.Keypair.{OpenSsl}
use buenzli_coin.Difficulty.{Floats, new_adjuster}
use buenzli_coin.Json.{JsonLib}
use buenzli_coin.Ledger.{list_data}
use buenzli_coin.Node.{Node, blockchain_setup, update_blocks}
use buenzli_coin.Node.Updates.{IsSetUp, map_exec-eq-done, blockchain_setup-IsSetUp}
use buenzli_coin.Transaction.{Transaction}

-- The two file names of the command line; an empty one stands for none.
pub record Options : Type 0 where
  pub blockchain : Bytes
  pub configuration : Bytes

-- `file` is the content of a file that can be opened.
module _ (ssl : OpenSsl) (lib : JsonLib) {Double : Type 0} (floats : Floats Double)
    (toml : TomlLib Double) (file : Bytes → Option Bytes) (clock : ℕ → TimePoint) where
  -- The configuration before `config()` is assigned.
  unfoldable pub initial : Config Double
  unfolding from_defaults
  initial = from_defaults floats

  abbrev pub Transactions : Type 0
  Transactions = Chain (List Transaction) Double

  unfoldable pub chain_of_text : Option Bytes → Exec Transactions
  unfolding initial
  chain_of_text none = throws chain_file_not_opened
  chain_of_text (some text) =
      bind_exec (lift (lib.parse text))
        (chain_from_json ssl lib (list_data ssl lib initial) floats initial clock)

  -- `bc`, which is made before the configuration is read.
  unfoldable pub load_chain : Options → Exec Transactions
  unfolding chain_of_text initial
  load_chain options =
      if is_empty options.blockchain
      then done (new_chain floats initial)
      else chain_of_text (file options.blockchain)

  -- `config()`
  unfoldable pub load_config : Options → Exec (Config Double)
  unfolding initial
  load_config options =
      if is_empty options.configuration
      then done initial
      else lift (from_toml toml floats options.configuration)

  -- The configuration and the node that run.
  unfoldable pub start_node : Options → Exec (Config Double × Node Double)
  unfolding load_chain load_config
  start_node options = bind_exec (load_chain options) λ chain.
      bind_exec (load_config options) λ config.
        map_exec (λ node. (config, node))
          (blockchain_setup (record { chain = chain; unspent = []; pool = []; peers = [] }))

  chain_of_text-Built :
      (o : Option Bytes) (chain : Transactions)
      → chain_of_text o ≡ done chain
      → Built ssl lib (list_data ssl lib initial) floats initial chain
  unfolding chain_of_text
  chain_of_text-Built none chain e = cc
  chain_of_text-Built (some text) chain e =
      let (j, _, parsed) =
        bind_exec-eq-done (lift (lib.parse text))
          (chain_from_json ssl lib (list_data ssl lib initial) floats initial clock) e in
      chain_from_json-Built ssl lib (list_data ssl lib initial) floats initial clock j parsed

  pub loaded-Built :
      (none_given : Bool) (o : Option Bytes) (chain : Transactions)
      → (if none_given then done (new_chain floats initial) else chain_of_text o) ≡ done chain
      → Built ssl lib (list_data ssl lib initial) floats initial chain
  loaded-Built true o chain e =
      subst (Built ssl lib (list_data ssl lib initial) floats initial) (done-injective e) start
  loaded-Built false o chain e = chain_of_text-Built o chain e

  -- The chain that is loaded, and the node that is set up over it.
  started :
      (options : Options) (config : Config Double) (node : Node Double)
      → start_node options ≡ done (config, node)
      → (chain : Transactions) × (load_chain options ≡ done chain)
        × IsSetUp (record { chain = chain; unspent = []; pool = []; peers = [] }) node
  unfolding start_node
  started options config node e =
      let (chain, loaded, rest) = bind_exec-eq-done (load_chain options) _ e in
      let (config', _, rest') = bind_exec-eq-done (load_config options) _ rest in
      let (node', made, same) = map_exec-eq-done _ (blockchain_setup _) rest' in
      (
        chain,
        loaded,
        subst (IsSetUp (record { chain = chain; unspent = []; pool = []; peers = [] }))
            (ap (λ (r : Config Double × Node Double). r.1) same)
            (blockchain_setup-IsSetUp _ node' made),
      )

  -- A node starts with a chain that the operations of Blockchain make under the default
  -- configuration, whatever configuration the file gives the node, with the unspent outputs of that
  -- chain and with an empty pool.
  pub start_node-Built :
      (options : Options) (config : Config Double) (node : Node Double)
      → start_node options ≡ done (config, node)
      → Built ssl lib (list_data ssl lib initial) floats initial node.chain
        × (update_blocks node.chain.blocks [] ≡ done node.unspent)
        × (node.pool ≡ [])
  unfolding load_chain
  start_node-Built options config node e =
      let (chain, loaded, s) = started options config node e in
      (
        subst (Built ssl lib (list_data ssl lib initial) floats initial) (sym s.same_chain)
            (loaded-Built (is_empty options.blockchain) (file options.blockchain) chain loaded),
        subst (λ (c : Transactions). update_blocks c.blocks [] ≡ done node.unspent)
            (sym s.same_chain) s.replayed,
        s.empty_pool,
      )

  -- A node that is started without a chain file has the default difficulty 2, whatever initial
  -- difficulty its configuration has.
  pub start_node-difficulty :
      (configuration : Bytes) (config : Config Double) (node : Node Double)
      → start_node (record { blockchain = []; configuration = configuration }) ≡ done (config, node)
      → node.chain.adjuster.difficulty ≡ floats.of_int (pos 2)
  unfolding load_chain new_chain new_adjuster initial
  start_node-difficulty configuration config node e =
      let (chain, loaded, s) =
        started (record { blockchain = []; configuration = configuration }) config node e in
      ap (λ (c : Transactions). c.adjuster.difficulty) (s.same_chain ∙ sym (done-injective loaded))
