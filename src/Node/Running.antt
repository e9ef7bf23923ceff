-- ===== src/Node/Running.antt =====
-- Node::run of src/node.cc: the HTTP server and the WebSocket server of a node, with all their
-- connections, over one state, until Node::stop. Handlers do not overlap here; the source does not
-- keep those of the two servers apart.
use buenzli_coin.Base.{
  ◌≡◌, refl, List, [], ◌∷◌, All, any, Bool, true, false, ◌||◌, Option, none, some, Bytes,
}
use buenzli_coin.Base.Exec.{Error}
use buenzli_coin.Config.{Config}
use buenzli_coin.Crypto.Keypair.{OpenSsl}
use buenzli_coin.Difficulty.{Floats}
use buenzli_coin.Json.{JsonLib}
use buenzli_coin.Node.{Node}
use buenzli_coin.Node.Callbacks.{Callback, call_back, call_back-IsSound, Leaves}
use buenzli_coin.Node.Served.{IsSound, serve_http-IsSound, serve_socket-IsSound}
use buenzli_coin.Node.Servers.{Surroundings, http_setup, websocket_setup, serve_http, serve_socket}
use buenzli_coin.Web.Listening.{
  Session, Run, running, stopped, thrown, held, Server, Event, serve_event, stop,
}
use buenzli_coin.Web.Listening.Invariant.{serve_event-Holds, serve_event-kept, serve_event-run}
use buenzli_coin.Web.HttpServer.Connections as Http
use buenzli_coin.Web.HttpServer.Requests.{Reply}
use buenzli_coin.Web.WebSocketServer.Connections as Socket

-- A node that runs: the connections of its two servers.
pub record Live (Double : Type 0) : Type 0 where
  pub run : Run
  pub node : Node Double
  pub http : List (Session Http.Phase Reply)
  pub sockets : List (Session Socket.Phase Bytes)

-- What happens on one of the two servers, or a callback that is told of an answer or of a failure, and
-- what the handlers then take from outside; or SIGTERM. A callback may be told of anything at any time,
-- whether or not a task of a handler has sent a request, so the tasks of the handlers are not kept.
pub data Occurrence : Type 0 where
  on_http : Surroundings → Event Http.End → Occurrence
  on_socket : Surroundings → Event Socket.End → Occurrence
  on_answer : Surroundings → Callback → Bool × Bytes → Occurrence
  on_stop : Occurrence

abbrev pub is_stop : Occurrence → Bool
is_stop (on_http around e) = false
is_stop (on_socket around e) = false
is_stop (on_answer around cb told) = false
is_stop on_stop = true

-- The constructor of Node, before a client connects.
abbrev pub launched : {Double : Type 0} → Node Double → Live Double
launched node = record { run = running; node = node; http = []; sockets = [] }

abbrev http_server : {Double : Type 0} → Live Double → Server Http.Phase (Node Double) Reply
http_server live = record { run = live.run; state = live.node; sessions = live.http }

abbrev socket_server : {Double : Type 0} → Live Double → Server Socket.Phase (Node Double) Bytes
socket_server live = record { run = live.run; state = live.node; sessions = live.sockets }

abbrev with_http :
    {Double : Type 0} → Live Double → Server Http.Phase (Node Double) Reply → Live Double
with_http live srv = record {
  run = srv.run;
  node = srv.state;
  http = srv.sessions;
  sockets = live.sockets;
}

abbrev with_sockets :
    {Double : Type 0} → Live Double → Server Socket.Phase (Node Double) Bytes → Live Double
with_sockets live srv = record {
  run = srv.run;
  node = srv.state;
  http = live.http;
  sockets = srv.sessions;
}

-- The node that a callback leaves; one that does not end holds what it has locked.
unfoldable pub after_callback : {Double : Type 0} → Live Double → Option (Node Double) → Live Double
after_callback live none = record live { run = held }
after_callback live (some node) = record live { node = node }

-- Node::stop
unfoldable pub stop_node : {Double : Type 0} → Live Double → Live Double
stop_node live =
    let live' = with_sockets live (stop (socket_server live)) in
    with_http live' (stop (http_server live'))

neither : {b : Bool} (a : Bool) → (a || b) ≡ false → (a ≡ false) × (b ≡ false)
neither false e = (refl, e)
neither true e = cc

module _ (ssl : OpenSsl) (lib : JsonLib) {Double : Type 0} (floats : Floats Double)
    (config : Config Double) (what : Error → Bytes) (is_parse_error : Error → Bool) where
  unfoldable pub occur : Occurrence → Live Double → Live Double
  unfolding serve_event Http.answer Socket.answer http_setup websocket_setup stop_node call_back
      after_callback
  occur (on_http around e) live = with_http live (
      serve_event Http.protocol
        (Http.answer lib what is_parse_error
          (http_setup ssl lib floats config around what is_parse_error))
        e (http_server live))
  occur (on_socket around e) live = with_sockets live (
      serve_event Socket.protocol
        (Socket.answer lib what (websocket_setup ssl lib floats config around what is_parse_error))
        e (socket_server live))
  occur (on_answer around cb told) live =
      after_callback live (call_back ssl lib floats config around cb told live.node)
  occur on_stop live = stop_node live

  -- An exception that leaves a server's thread ends the program, and so does `stop`, at which both
  -- threads are joined.
  abbrev occur_while : Run → Occurrence → Live Double → Live Double
  occur_while running x live = occur x live
  occur_while stopped x live = live
  occur_while thrown x live = live
  occur_while held x live = live

  -- Node::run
  unfoldable pub run_node : List Occurrence → Live Double → Live Double
  unfolding occur
  run_node [] live = live
  run_node (x ∷ xs) live = run_node xs (occur_while live.run x live)

  -- The node is sound, and no HTTP connection has been written more than one response.
  abbrev pub IsSoundLive : Live Double → Type 0
  IsSoundLive live =
      IsSound ssl lib floats config live.node
      × All (λ c. Http.AtMostOne c.phase c.written) live.http

  after_callback-IsSoundLive :
      (live : Live Double) (o : Option (Node Double))
      → IsSoundLive live
      → Leaves (IsSound ssl lib floats config) o
      → IsSoundLive (after_callback live o)
  unfolding after_callback
  after_callback-IsSoundLive live none sound p = sound
  after_callback-IsSoundLive live (some node) sound p = (p, sound.1)

  occur-IsSoundLive :
      (x : Occurrence) (live : Live Double) → IsSoundLive live → IsSoundLive (occur x live)
  unfolding occur Http.answer Socket.answer serve_http serve_socket stop_node
  occur-IsSoundLive (on_http around e) live sound =
      serve_event-Holds Http.protocol _ (IsSound ssl lib floats config) Http.AtMostOne refl
        (serve_http-IsSound ssl lib floats config around what is_parse_error) Http.react-AtMostOne e
        (http_server live) sound
  occur-IsSoundLive (on_socket around e) live sound = (
    serve_event-kept Socket.protocol _ (IsSound ssl lib floats config) e (socket_server live)
        (λ text node s.
          Socket.dumped-LeavesState lib what (IsSound ssl lib floats config) _
            (serve_socket-IsSound ssl lib floats config around what is_parse_error text node s))
        sound.0,
    sound.1,
  )
  occur-IsSoundLive (on_answer around cb told) live sound =
      after_callback-IsSoundLive live _ sound
        (call_back-IsSound ssl lib floats config around cb told live.node sound.0)
  occur-IsSoundLive on_stop live sound = sound

  occur_while-IsSoundLive :
      (r : Run) (x : Occurrence) (live : Live Double)
      → IsSoundLive live
      → IsSoundLive (occur_while r x live)
  occur_while-IsSoundLive running x live sound = occur-IsSoundLive x live sound
  occur_while-IsSoundLive stopped x live sound = sound
  occur_while-IsSoundLive thrown x live sound = sound
  occur_while-IsSoundLive held x live sound = sound

  run_node-IsSoundLive :
      (xs : List Occurrence) (live : Live Double)
      → IsSoundLive live
      → IsSoundLive (run_node xs live)
  unfolding run_node
  run_node-IsSoundLive [] live sound = sound
  run_node-IsSoundLive (x ∷ xs) live sound =
      run_node-IsSoundLive xs _ (occur_while-IsSoundLive live.run x live sound)

  -- However many clients and peers connect to the two servers of a node, whatever they send, however
  -- their requests are interleaved with each other and with the answers to the node's own requests,
  -- whatever these answers are, whichever operations fail and however the handlers end: a node that is
  -- launched with a linked chain of blocks with valid data, and a pool within its limit of transactions
  -- that were found valid and share no input, always has them, and every HTTP connection is written at
  -- most one response. Handlers and callbacks run one after the other here: what happens when two of
  -- them overlap, which nothing in the source prevents, is not covered.
  pub run_node-IsSound :
      (xs : List Occurrence) (node : Node Double)
      → IsSound ssl lib floats config node
      → IsSoundLive (run_node xs (launched node))
  run_node-IsSound xs node sound = run_node-IsSoundLive xs (launched node) (sound, tt)

  after_callback-run :
      (live : Live Double) (o : Option (Node Double))
      → (after_callback live o).run ≡ stopped
      → live.run ≡ stopped
  unfolding after_callback
  after_callback-run live none h = cc
  after_callback-run live (some node) h = h

  occur-run :
      (x : Occurrence) (live : Live Double)
      → is_stop x ≡ false
      → (occur x live).run ≡ stopped
      → live.run ≡ stopped
  unfolding occur
  occur-run (on_http around e) live n h = serve_event-run Http.protocol _ e (http_server live) h
  occur-run (on_socket around e) live n h =
      serve_event-run Socket.protocol _ e (socket_server live) h
  occur-run (on_answer around cb told) live n h = after_callback-run live _ h
  occur-run on_stop live n h = cc

  occur_while-run :
      (r : Run) (x : Occurrence) (live : Live Double)
      → is_stop x ≡ false
      → (occur_while r x live).run ≡ stopped
      → live.run ≡ stopped
  occur_while-run running x live n h = occur-run x live n h
  occur_while-run stopped x live n h = h
  occur_while-run thrown x live n h = h
  occur_while-run held x live n h = h

  pub run_node-run :
      (xs : List Occurrence) (live : Live Double)
      → any is_stop xs ≡ false
      → (run_node xs live).run ≡ stopped
      → live.run ≡ stopped
  unfolding run_node
  run_node-run [] live n h = h
  run_node-run (x ∷ xs) live n h =
      let (a, b) = neither (is_stop x) n in
      occur_while-run live.run x live a (run_node-run xs _ b h)
