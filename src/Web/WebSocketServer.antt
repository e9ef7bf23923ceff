-- ===== src/Web/WebSocketServer.antt =====
-- class WebSocketServer of include/web/websocket_server.h and src/web/websocket_server.cc: the table
-- of handlers, and what becomes of a message. Its connections are in
-- Connections.
pub mod Calls
pub mod Connections
pub mod Conversation
use buenzli_coin.Base.{List, [], ◌∷◌, Option, none, some, if◌then◌else◌, Bytes, bytes_eq, codes}
use buenzli_coin.Base.Exec.{Result, ok, err, bind_result, map_result, Error}
use buenzli_coin.Json.{JsonLib}
use buenzli_coin.Web.Handling.{
  Handling, returned, web_error, json_error, other_error, stops, Response, responds, escapes,
  no_response,
}

-- m_handlers: an unordered_map, so that every target is there at most once.
abbrev pub Table : Type 0 → Type 0
Table H = List (Bytes × H)

module _ {H : Type 0} where
  -- WebSocketServer::support: `m_handlers[target] = handler`
  unfoldable pub support : Bytes → H → Table H → Table H
  support target h [] = (target, h) ∷ []
  support target h ((t, h') ∷ table) =
      if bytes_eq t target then (t, h) ∷ table else (t, h') ∷ support target h table

  -- Calls of `support`, in their order.
  unfoldable pub support_all : List (Bytes × H) → Table H → Table H
  unfolding support
  support_all [] table = table
  support_all ((t, h) ∷ hs) table = support_all hs (support t h table)

  -- The search of WebSocketServer::handle.
  unfoldable pub handler_of : Bytes → Table H → Option H
  handler_of target [] = none
  handler_of target ((t, h) ∷ table) = if bytes_eq t target then some h else handler_of target table

module _ (lib : JsonLib) where
  open lib use {Json, string, object, parse, member, get_string}

  abbrev pub Handler : Type 0 → Type 0
  Handler State = Json → State → Handling State Json Error

  -- `json::parse(buffer_data)`, `request["target"]` and `request["data"]`
  unfoldable pub read_request : Bytes → Result (Bytes × Json)
  read_request text = bind_result (parse text) λ request.
      bind_result (bind_result (member request "target") get_string)
        λ target. map_result (λ given. (target, given)) (member request "data")

  -- `response["status"]` and `response["data"]`
  abbrev pub status_and_data : Bytes → Json → Json
  status_and_data status given = object (("status", string status) ∷ ("data", given) ∷ [])

  abbrev pub not_ok : Bytes → Json
  not_ok text = status_and_data (codes "not ok") (string text)

-- `what` is the text of a WebSocketError.
module _ (lib : JsonLib) (what : Error → Bytes) {State : Type 0} where
  open lib use {Json}

  -- The try block and its handlers, once the handler of the message has ended.
  unfoldable pub respond : Handling State Json Error → Response State Json
  respond (returned s answer) = responds (status_and_data lib (codes "ok") answer) s
  respond (web_error e s) = responds (not_ok lib (what e)) s
  respond (json_error s) = responds (not_ok lib (codes "Bad request")) s
  respond (other_error s) = escapes s
  respond stops = no_response

  -- WebSocketServer::handle
  unfoldable pub handle : Option (Handler lib State) → Json → State → Response State Json
  unfolding respond
  handle none given s = responds (not_ok lib (codes "Not found")) s
  handle (some h) given s = respond (h given s)

  unfoldable pub handle_read :
      Table (Handler lib State) → State → Result (Bytes × Json) → Response State Json
  unfolding handle handler_of
  handle_read table s (err e) = responds (not_ok lib (codes "Bad request")) s
  handle_read table s (ok (target, given)) = handle (handler_of target table) given s

  -- Connection::on_read, up to the text of the response.
  unfoldable pub on_read : Table (Handler lib State) → Bytes → State → Response State Json
  unfolding read_request handle_read
  on_read table text s = handle_read table s (read_request lib text)
