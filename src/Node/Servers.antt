-- ===== src/Node/Servers.antt =====
-- The two servers of a Node of src/node.cc: http_setup and websocket_setup register the handlers, and
-- whatever comes in, the handlers run on the state of the node.
use buenzli_coin.Base.{ℕ, List, [], ◌∷◌, map, Bool, Option, Bytes, codes}
use buenzli_coin.Base.Exec.{Error}
use buenzli_coin.Clock.{TimePoint}
use buenzli_coin.Config.{Config}
use buenzli_coin.Crypto.Keypair.{OpenSsl}
use buenzli_coin.Difficulty.{Floats}
use buenzli_coin.Json.{JsonLib}
use buenzli_coin.Node.{Node, Handled, answers, refuses, escapes, ill_defined, still_mining}
use buenzli_coin.Node.Http.{handle_blocks_post, handle_transactions_post, handle_peers_post}
use buenzli_coin.Node.Messages.{
  handle_blocks_get, handle_blocks_latest_get, handle_peers_get, handle_transactions_latest_get,
  handle_transactions_unconfirmed_get, handle_transactions_unspent_get, handle_blocks_persist_post,
  handle_request_latest_block, handle_request_all_blocks,
}
use buenzli_coin.Node.Receive.{
  handle_receive_latest_block, handle_receive_all_blocks, handle_receive_transaction,
}
use buenzli_coin.Transaction.{Transaction}
use buenzli_coin.Web.Handling.{Handling, returned, web_error, other_error, stops, Response}
use buenzli_coin.Web.HttpServer as Http
use buenzli_coin.Web.HttpServer.Requests as Requests
use buenzli_coin.Web.WebSocketServer as Socket

-- An HTTPError of a handler has the status `bad_request`.
unfoldable pub to_http :
    {Json Double : Type 0}
    → Handled Json Double
    → Handling (Node Double) (Http.Status × Json) (Http.Status × Error)
to_http (answers node j tasks) = returned node (Http.ok_status, j)
to_http (refuses e node) = web_error (Http.bad_request, e) node
to_http (escapes e node) = other_error node
to_http ill_defined = stops
to_http still_mining = stops

unfoldable pub to_socket :
    {Json Double : Type 0} → Handled Json Double → Handling (Node Double) Json Error
to_socket (answers node j tasks) = returned node j
to_socket (refuses e node) = web_error e node
to_socket (escapes e node) = other_error node
to_socket ill_defined = stops
to_socket still_mining = stops

-- What the handlers take from outside the node: the readings of the clock, the fuel of the search for
-- a nonce, what the file system and the network do, and the address of the node's own server.
pub record Surroundings : Type 0 where
  pub clock : ℕ → TimePoint
  pub later_clock : ℕ → TimePoint
  pub fuel : ℕ
  pub connect : Bytes → ℕ → Option Error
  pub send : Transaction → Option Error
  pub opens : Bytes → Bool
  pub takes : Bytes → Bool
  pub host : Bytes
  pub port : ℕ

module _ (ssl : OpenSsl) (lib : JsonLib) {Double : Type 0} (floats : Floats Double)
    (config : Config Double) (around : Surroundings) where
  open lib use {Json}

  abbrev Handles : Type 0
  Handles = Json → Node Double → Handled Json Double

  -- The calls of `support` of Node::http_setup, without the targets' conversion of the results.
  unfoldable pub http_handlers : List (Http.Registration Handles)
  http_handlers =
      (codes "/blocks", Http.get, λ j. handle_blocks_get ssl lib floats config)
      ∷ (codes "/blocks/latest", Http.get, λ j. handle_blocks_latest_get ssl lib floats config)
      ∷ (
        codes "/blocks",
        Http.post,
        handle_blocks_post ssl lib floats config around.fuel around.clock,
      )
      ∷ (
        codes "/blocks/persist",
        Http.post,
        handle_blocks_persist_post ssl lib floats config around.opens around.takes,
      )
      ∷ (codes "/peers", Http.get, λ j. handle_peers_get ssl lib floats config)
      ∷ (codes "/peers", Http.post, handle_peers_post lib around.connect)
      ∷ (
        codes "/transactions/latest",
        Http.get,
        λ j. handle_transactions_latest_get ssl lib floats config,
      )
      ∷ (
        codes "/transactions",
        Http.post,
        handle_transactions_post ssl lib floats config around.send,
      )
      ∷ (
        codes "/transactions/unconfirmed",
        Http.get,
        λ j. handle_transactions_unconfirmed_get ssl lib floats config,
      )
      ∷ (
        codes "/transactions/unspent",
        Http.get,
        λ j. handle_transactions_unspent_get ssl lib floats config,
      )
      ∷ []

  -- The calls of `support` of Node::websocket_setup
  unfoldable pub socket_handlers : List (Bytes × Handles)
  socket_handlers =
      (
        codes "/request-latest-block",
        λ j. handle_request_latest_block ssl lib floats config around.host around.port,
      )
      ∷ (
        codes "/request-all-blocks",
        λ j. handle_request_all_blocks ssl lib floats config around.host around.port,
      )
      ∷ (
        codes "/receive-latest-block",
        handle_receive_latest_block ssl lib floats config around.connect around.clock,
      )
      ∷ (
        codes "/receive-all-blocks",
        handle_receive_all_blocks ssl lib floats config around.clock around.later_clock,
      )
      ∷ (codes "/receive-transaction", handle_receive_transaction ssl lib floats config)
      ∷ []

-- `what` is the text of an exception, and `is_parse_error` tells json::parse_error from the other
-- exceptions of json::parse.
module _ (ssl : OpenSsl) (lib : JsonLib) {Double : Type 0} (floats : Floats Double)
    (config : Config Double) (around : Surroundings) (what : Error → Bytes)
    (is_parse_error : Error → Bool) where
  open lib use {Json}

  unfoldable pub register_http :
      Http.Registration (Handles ssl lib floats config around)
      → Http.Registration (Requests.Handler lib what is_parse_error (Node Double))
  unfolding to_http
  register_http (target, method, h) = (target, method, λ j node. to_http (h j node))

  -- Node::http_setup
  unfoldable pub http_setup : Http.Table (Requests.Handler lib what is_parse_error (Node Double))
  unfolding Http.support_all http_handlers register_http
  http_setup = Http.support_all (map register_http (http_handlers ssl lib floats config around)) []

  unfoldable pub register_socket :
      Bytes × Handles ssl lib floats config around → Bytes × Socket.Handler lib (Node Double)
  unfolding to_socket
  register_socket (target, h) = (target, λ j node. to_socket (h j node))

  -- Node::websocket_setup
  unfoldable pub websocket_setup : Socket.Table (Socket.Handler lib (Node Double))
  unfolding Socket.support_all socket_handlers register_socket
  websocket_setup =
      Socket.support_all (map register_socket (socket_handlers ssl lib floats config around)) []

  -- A request to the HTTP server of a node.
  unfoldable pub serve_http : Requests.Request → Node Double → Response (Node Double) Requests.Reply
  unfolding http_setup
  serve_http request node = Requests.handle_request lib what is_parse_error http_setup request node

  -- A message to the WebSocket server of a node.
  unfoldable pub serve_socket : Bytes → Node Double → Response (Node Double) Json
  unfolding websocket_setup
  serve_socket text node = Socket.on_read lib what websocket_setup text node
