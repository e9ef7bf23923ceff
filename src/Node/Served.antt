-- ===== src/Node/Served.antt =====
-- What holds of the node after a request to its HTTP server or a message to its WebSocket server.
use buenzli_coin.Base.{
  ℕ, List, [], map, Bool, Option, none, some, Bytes, get_last?, Bool-cases, inl, inr,
}
use buenzli_coin.Base.Exec.{Exec, done, throws, undefined, Error}
use buenzli_coin.Block.{Block}
use buenzli_coin.Config.{Config}
use buenzli_coin.Crypto.Keypair.{OpenSsl}
use buenzli_coin.Difficulty.{Floats}
use buenzli_coin.Json.{JsonLib, string_at}
use buenzli_coin.Node.{Node, Handled, answers, refuses, escapes, ill_defined, still_mining}
use buenzli_coin.Node.Messages.{
  handle_blocks_get, handle_blocks_latest_get, handle_peers_get, handle_transactions_latest_get,
  handle_transactions_unconfirmed_get, handle_transactions_unspent_get, persist_to,
  handle_blocks_persist_post, answer_latest, handle_request_latest_block, handle_request_all_blocks,
}
use buenzli_coin.Node.Pooled.{HasPool}
use buenzli_coin.Node.Safety.{IsSafe}
use buenzli_coin.Node.Servers.{
  Surroundings, to_http, to_socket, http_handlers, socket_handlers, http_setup, websocket_setup,
  register_http, register_socket, serve_http, serve_socket,
}
use buenzli_coin.Node.Settles.{Settles}
use buenzli_coin.Node.System.{
  Event, blocks_post, transactions_post, peers_post, transaction_message, latest_block_message,
  all_blocks_message, handle, handle-Keeps, handle-HasPool,
}
use buenzli_coin.Transaction.{Transaction}
use buenzli_coin.Web.Handling.{LeavesState, HandlesState}
use buenzli_coin.Web.HttpServer.Dispatch.{route-All}
use buenzli_coin.Web.HttpServer.Replies.{handle_request-LeavesState}
use buenzli_coin.Web.HttpServer.Requests as Requests
use buenzli_coin.Web.WebSocketServer.Calls.{support_all-KeepsState, on_read-LeavesState}

to_http-HandlesState :
    {Json Double : Type 0} (P : Node Double → Type 0) (h : Handled Json Double)
    → Settles P h
    → HandlesState P (to_http h)
unfolding to_http
to_http-HandlesState P (answers node j tasks) p = p
to_http-HandlesState P (refuses e node) p = p
to_http-HandlesState P (escapes e node) p = p
to_http-HandlesState P ill_defined p = tt
to_http-HandlesState P still_mining p = tt

to_socket-HandlesState :
    {Json Double : Type 0} (P : Node Double → Type 0) (h : Handled Json Double)
    → Settles P h
    → HandlesState P (to_socket h)
unfolding to_socket
to_socket-HandlesState P (answers node j tasks) p = p
to_socket-HandlesState P (refuses e node) p = p
to_socket-HandlesState P (escapes e node) p = p
to_socket-HandlesState P ill_defined p = tt
to_socket-HandlesState P still_mining p = tt

module _ (ssl : OpenSsl) (lib : JsonLib) {Double : Type 0} (floats : Floats Double)
    (config : Config Double) where
  abbrev pub IsSound : Node Double → Type 0
  IsSound node = IsSafe ssl lib floats config node × HasPool ssl lib floats config node

  pair :
      (P Q : Node Double → Type 0) (h : Handled lib.Json Double)
      → Settles P h
      → Settles Q h
      → Settles (λ n. P n × Q n) h
  pair P Q (answers node j tasks) p q = (p, q)
  pair P Q (refuses e node) p q = (p, q)
  pair P Q (escapes e node) p q = (p, q)
  pair P Q ill_defined p q = tt
  pair P Q still_mining p q = tt

  -- Every handler that changes the state, at whatever it is given.
  pub soundness :
      (connect : Bytes → ℕ → Option Error) (send : Transaction → Option Error) (e : Event lib.Json)
      (node : Node Double)
      → IsSound node
      → Settles IsSound (handle ssl lib floats config connect send e node)
  soundness connect send e node p =
      pair (IsSafe ssl lib floats config) (HasPool ssl lib floats config) _
        (handle-Keeps ssl lib floats config connect send e node p.0)
        (handle-HasPool ssl lib floats config connect send e node p.1)

module _ (ssl : OpenSsl) (lib : JsonLib) {Double : Type 0} (floats : Floats Double)
    (config : Config Double) (around : Surroundings) (what : Error → Bytes)
    (is_parse_error : Error → Bool) where
  open lib use {Json}

  -- The handlers that change the state keep a property.
  abbrev KeptBy : (Node Double → Type 0) → Type 0
  KeptBy P =
      (e : Event Json) (node : Node Double)
      → P node
      → Settles P (handle ssl lib floats config around.connect around.send e node)

  persist-Settles :
      (P : Node Double → Type 0) (j : Json) (node : Node Double)
      → P node
      → Settles P
          (handle_blocks_persist_post ssl lib floats config around.opens around.takes j node)
  unfolding handle_blocks_persist_post persist_to
  persist-Settles P j node p = of_file (string_at lib j "file")
    where
      of_file :
          (r : Exec Bytes)
          → Settles P (persist_to ssl lib floats config node r around.opens around.takes)
      of_file undefined = tt
      of_file (throws e) = p
      of_file (done file) = elim (Bool-cases (around.opens file)) [
        | inl x ↦ elim (Bool-cases (around.takes file)) [
          | inl y ↦ rw (x, y) p
          | inr y ↦ rw (x, y) p
        ]
        | inr x ↦ rw x p
      ]

  latest-Settles :
      (P : Node Double → Type 0) (node : Node Double)
      → P node
      → Settles P (handle_request_latest_block ssl lib floats config around.host around.port node)
  unfolding handle_request_latest_block answer_latest
  latest-Settles P node p = of_last (get_last? node.chain.blocks)
    where
      of_last :
          (o : Option (Block (List Transaction)))
          → Settles P (answer_latest ssl lib floats config around.host around.port node o)
      of_last none = p
      of_last (some b) = p

  serve_http-LeavesState :
      (P : Node Double → Type 0) (request : Requests.Request) (node : Node Double)
      → KeptBy P
      → P node
      → LeavesState P (serve_http ssl lib floats config around what is_parse_error request node)
  unfolding serve_http to_http http_setup register_http http_handlers handle handle_blocks_get
      handle_blocks_latest_get handle_peers_get handle_transactions_latest_get
      handle_transactions_unconfirmed_get handle_transactions_unspent_get
  serve_http-LeavesState P request node k p =
      handle_request-LeavesState lib what is_parse_error P _ request node
        (λ target method h e.
          route-All (λ g. (j : Json) (s : Node Double) → P s → HandlesState P (g j s))
            (map (register_http ssl lib floats config around what is_parse_error)
              (http_handlers ssl lib floats config around))
            target method h
            (
              (λ j s q. q),
              (
                (λ j s q. q),
                (
                  (λ j s q.
                      to_http-HandlesState P _ (k (blocks_post around.fuel around.clock j) s q)),
                  (
                    (λ j s q. to_http-HandlesState P _ (persist-Settles P j s q)),
                    (
                      (λ j s q. q),
                      (
                        (λ j s q. to_http-HandlesState P _ (k (peers_post j) s q)),
                        (
                          (λ j s q. q),
                          (
                            (λ j s q. to_http-HandlesState P _ (k (transactions_post j) s q)),
                            ((λ j s q. q), ((λ j s q. q), tt)),
                          ),
                        ),
                      ),
                    ),
                  ),
                ),
              ),
            )
            e)
        p

  serve_socket-LeavesState :
      (P : Node Double → Type 0) (text : Bytes) (node : Node Double)
      → KeptBy P
      → P node
      → LeavesState P (serve_socket ssl lib floats config around what is_parse_error text node)
  unfolding serve_socket to_socket websocket_setup register_socket socket_handlers handle
      handle_request_all_blocks
  serve_socket-LeavesState P text node k p =
      on_read-LeavesState lib what P _ text node
        (support_all-KeepsState lib what P
          (map (register_socket ssl lib floats config around what is_parse_error)
            (socket_handlers ssl lib floats config around))
          []
          (
            (λ j s q. to_socket-HandlesState P _ (latest-Settles P s q)),
            (
              (λ j s q. q),
              (
                (λ j s q. to_socket-HandlesState P _ (k (latest_block_message around.clock j) s q)),
                (
                  (λ j s q.
                      to_socket-HandlesState P _
                        (k (all_blocks_message around.clock around.later_clock j) s q)),
                  ((λ j s q. to_socket-HandlesState P _ (k (transaction_message j) s q)), tt),
                ),
              ),
            ),
          )
          tt)
        p

  -- Whatever a client sends to the HTTP server, and however the request ends.
  pub serve_http-IsSound :
      (request : Requests.Request) (node : Node Double)
      → IsSound ssl lib floats config node
      → LeavesState
          (IsSound ssl lib floats config)
          (serve_http ssl lib floats config around what is_parse_error request node)
  serve_http-IsSound request node sound =
      serve_http-LeavesState _ request node
        (soundness ssl lib floats config around.connect around.send) sound

  -- Whatever bytes a peer sends to the WebSocket server, and however the message ends.
  pub serve_socket-IsSound :
      (text : Bytes) (node : Node Double)
      → IsSound ssl lib floats config node
      → LeavesState
          (IsSound ssl lib floats config)
          (serve_socket ssl lib floats config around what is_parse_error text node)
  serve_socket-IsSound text node sound =
      serve_socket-LeavesState _ text node
        (soundness ssl lib floats config around.connect around.send) sound
