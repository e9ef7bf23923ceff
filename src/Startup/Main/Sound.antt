-- ===== src/Startup/Main/Sound.antt =====
-- What `main` of src/main.cc keeps, and how it ends.
use buenzli_coin.Base.{
  ℕ, ◌≡◌, ◌≢◌, any, false, ◌⊎◌, inl, inr, refl, subst, List, [], ◌∷◌, Bool, Bytes, Option, none,
  some, is_empty, if◌then◌else◌,
}
use buenzli_coin.Base.Exec.{
  Exec, ok, done, throws, undefined, bind_exec-eq-done, done-injective, Error,
}
use buenzli_coin.Blockchain.{new_chain}
use buenzli_coin.Blockchain.Built.{Built-IsLinked}
use buenzli_coin.Blockchain.Linked.{IsLinked}
use buenzli_coin.Clock.{TimePoint}
use buenzli_coin.Config.{Config}
use buenzli_coin.Config.Toml.{TomlLib}
use buenzli_coin.Crypto.Keypair.{OpenSsl}
use buenzli_coin.Difficulty.{Floats}
use buenzli_coin.Json.{JsonLib}
use buenzli_coin.Ledger.{list_data}
use buenzli_coin.Node.{Node, blockchain_setup}
use buenzli_coin.Node.Pooled.{set_up-HasPool}
use buenzli_coin.Node.Running.{
  Live, Occurrence, launched, run_node, IsSoundLive, is_stop, run_node-IsSound, run_node-run,
}
use buenzli_coin.Node.Safety.{same-IsSafe}
use buenzli_coin.Node.Served.{IsSound}
use buenzli_coin.Node.Updates.{blockchain_setup-IsSetUp, map_exec-eq-done}
use buenzli_coin.Startup.{Options, Transactions, initial, load_chain, load_config, loaded-Built}
use buenzli_coin.Startup.Main.{
  CommandLine, Settings, parse_options, Exit, exit_success, exit_of, or_throws, create_node,
  prepare_node, run_program, main,
}
use buenzli_coin.Web.Listening.{Run, running, stopped, thrown, held}

-- With success only if the node is stopped.
abbrev pub Ends : List Occurrence → Exit → Type 0
Ends xs exit = any is_stop xs ≡ false → exit ≢ exit_success

exit_of-Ends :
    (xs : List Occurrence) (r : Run) → (any is_stop xs ≡ false → r ≢ stopped) → Ends xs (exit_of r)
exit_of-Ends xs running h n e = cc
exit_of-Ends xs stopped h n e = h n refl
exit_of-Ends xs thrown h n e = cc
exit_of-Ends xs held h n e = cc

-- A chain file and a configuration file are not both given.
abbrev pub HasOneFile : Options → Type 0
HasOneFile o = (o.blockchain ≡ []) ⊎ (o.configuration ≡ [])

if-empty :
    {A : Type 0} (xs : Bytes) {x z : A} (y : A)
    → xs ≡ []
    → (if is_empty xs then x else y) ≡ z
    → x ≡ z
if-empty [] y e h = h
if-empty (x ∷ xs) y e h = cc

module _ (ssl : OpenSsl) (lib : JsonLib) {Double : Type 0} (floats : Floats Double)
    (toml : TomlLib Double) (file : Bytes → Option Bytes) (clock : ℕ → TimePoint)
    (binds : Bytes → ℕ → Option Error) where
  loaded-IsLinked :
      (o : Options) (chain : Transactions ssl lib floats toml file clock) (config : Config Double)
      → HasOneFile o
      → load_chain ssl lib floats toml file clock o ≡ done chain
      → load_config ssl lib floats toml file clock o ≡ done config
      → IsLinked ssl lib (list_data ssl lib config) none chain.blocks
  unfolding load_chain load_config new_chain
  loaded-IsLinked o chain config (inl e) l m =
      subst
        (λ (c : Transactions ssl lib floats toml file clock).
          IsLinked ssl lib (list_data ssl lib config) none c.blocks)
        (done-injective (if-empty o.blockchain _ e l)) tt
  loaded-IsLinked o chain config (inr e) l m =
      subst (λ (c : Config Double). IsLinked ssl lib (list_data ssl lib c) none chain.blocks)
        (done-injective (if-empty o.configuration _ e m))
        (Built-IsLinked ssl lib (list_data ssl lib (initial ssl lib floats toml file clock)) floats
          (initial ssl lib floats toml file clock)
          (loaded-Built ssl lib floats toml file clock (is_empty o.blockchain) (file o.blockchain)
            chain l))

  bound :
      (s : Settings) (chain : Transactions ssl lib floats toml file clock) (node : Node Double)
      → create_node ssl lib floats toml file clock binds s chain ≡ done node
      → blockchain_setup (record { chain = chain; unspent = []; pool = []; peers = [] }) ≡ done node
  unfolding create_node
  bound s chain node e =
      servers (binds s.websocket_host s.websocket_port) (binds s.http_host s.http_port) e
    where
      servers :
          (a b : Option Error) {m : Exec (Node Double)}
          → or_throws ssl lib floats toml file clock binds a
              (or_throws ssl lib floats toml file clock binds b m)
            ≡ done node
          → m ≡ done node
      servers none none h = h
      servers none (some x) h = cc
      servers (some x) b h = cc

  prepare_node-IsSound :
      (s : Settings) (config : Config Double) (node : Node Double)
      → HasOneFile s.files
      → prepare_node ssl lib floats toml file clock binds s ≡ done (config, node)
      → IsSound ssl lib floats config node
  unfolding prepare_node
  prepare_node-IsSound s config node one e =
      let (chain, l, rest) =
        bind_exec-eq-done (load_chain ssl lib floats toml file clock s.files) _ e in
      let (config', m, rest') =
        bind_exec-eq-done (load_config ssl lib floats toml file clock s.files) _ rest in
      let (node', made, same) =
        map_exec-eq-done _ (create_node ssl lib floats toml file clock binds s chain) rest' in
      let set_up = blockchain_setup-IsSetUp _ node' (bound s chain node' made) in
      let sound : IsSound ssl lib floats config' node' = (
        same-IsSafe ssl lib floats config'
            (record { chain = chain; unspent = []; pool = []; peers = [] }) node' set_up.same_chain
            (loaded-IsLinked s.files chain config' one l m),
        set_up-HasPool ssl lib floats config' set_up,
      ) in
      subst (λ (r : Config Double × Node Double). IsSound ssl lib floats r.0 r.1) same sound

  module _ (what : Error → Bytes) (is_parse_error : Error → Bool) where
    abbrev Ended : List Occurrence → Exit × Option (Config Double × Live Double) → Type 0
    Ended xs (exit, none) = Unit
    Ended xs (exit, some (config, live)) =
        Ends xs exit × IsSoundLive ssl lib floats config what is_parse_error live

    run_program-IsSound :
        (m : Exec (Config Double × Node Double)) (xs : List Occurrence) (exit : Exit)
        (config : Config Double) (live : Live Double)
        → ((config' : Config Double) (node : Node Double)
            → m ≡ done (config', node)
            → IsSound ssl lib floats config' node)
        → run_program ssl lib floats toml file clock binds what is_parse_error xs m
          ≡ done (exit, some (config, live))
        → Ends xs exit × IsSoundLive ssl lib floats config what is_parse_error live
    run_program-IsSound (throws x) xs exit config live sound e = cc
    run_program-IsSound undefined xs exit config live sound e = cc
    run_program-IsSound (done (config', node)) xs exit config live sound e =
        let live' = run_node ssl lib floats config' what is_parse_error xs (launched node) in
        subst (λ (r : Exit × Option (Config Double × Live Double)). Ended xs r) (done-injective e)
          (
            exit_of-Ends xs live'.run (λ n h.
                let started : running ≡ stopped =
                  (run_node-run ssl lib floats config' what is_parse_error xs (launched node) n
                    h) in
                cc),
            run_node-IsSound ssl lib floats config' what is_parse_error xs node
                (sound config' node refl),
          )

    -- The program that is started with at most one of the two files, if it comes to run a node, runs one
    -- that is sound after whatever happens on its servers and whatever its requests are answered: its
    -- chain is linked and has valid data under the configuration that is then in force, its pool is
    -- within its limit and its transactions were found valid and share no input, and every HTTP
    -- connection was written at most one response. It reports success only if it was stopped. Handlers
    -- and callbacks run one after the other here: what happens when two of them overlap, which nothing
    -- in the source prevents, is not covered.
    pub main-IsSound :
        (c : CommandLine) (xs : List Occurrence) (exit : Exit) (config : Config Double)
        (live : Live Double)
        → HasOneFile (parse_options c).files
        → main ssl lib floats toml file clock binds what is_parse_error (ok c) xs
          ≡ done (exit, some (config, live))
        → Ends xs exit × IsSoundLive ssl lib floats config what is_parse_error live
    unfolding main
    main-IsSound c xs exit config live one e =
        run_program-IsSound (prepare_node ssl lib floats toml file clock binds (parse_options c)) xs
          exit config live
          (λ config' node made. prepare_node-IsSound (parse_options c) config' node one made) e
