-- ===== src/Examples/Connections.antt =====
-- Connections to the servers of src/web/websocket_server.cc and src/web/http_server.cc, several at a
-- time.
use buenzli_coin.Base.{
  ℕ, ◌≡◌, refl, true, Bool, List, [], ◌∷◌, ◌++◌, Bytes, bytes_eq, codes, some, All, get_elem?,
}
use buenzli_coin.Base.Exec.{done, bind_exec}
use buenzli_coin.Examples.{Value, bytes}
use buenzli_coin.Examples.Wire.{encode, request, lib, table, what}
use buenzli_coin.Examples.Requests as Requests
use buenzli_coin.Examples.Requests.{is_parse_error, reading, lost}
use buenzli_coin.Web.HttpServer.{route, by_target}
use buenzli_coin.Web.HttpServer.Connections as Http
use buenzli_coin.Web.HttpServer.Connections.{serve_all-one_response}
use buenzli_coin.Web.HttpServer.Requests.{handle_request, handle_body, read_body, run_route, finish}
use buenzli_coin.Web.WebSocketClient.{send_all}
use buenzli_coin.Web.WebSocketClient as Client
use buenzli_coin.Web.WebSocketClient.Exchange.{exchange, resting}
use buenzli_coin.Web.WebSocketClient.Phases.{texts}
use buenzli_coin.Web.WebSocketServer.Conversation.{
  Call, Told, AllCross, told_all, served, at_rest, calls_of, conversation_lem,
}
use buenzli_coin.Web.Listening.{
  Server, running, Event, connected, connect_failed, ends, listening, serve_event, on_end,
  on_reaction, on_response,
}
use buenzli_coin.Web.Listening.InOrder.{in_order, heard, Occur, Agrees}
use buenzli_coin.Web.WebSocketServer as Socket
use buenzli_coin.Web.WebSocketServer.Connections as Sockets
use buenzli_coin.Web.WebSocketServer.Connections.{
  accepted, message, wrote, write_failed, serve_all-in_order,
}

-- Two peers connect; the second one is answered, and the answer to the first one cannot be written.
abbrev events : List (Event Sockets.End)
events =
    connected
    ∷ connected
    ∷ ends 1 accepted
    ∷ ends 0 accepted
    ∷ ends 1 (message (encode request))
    ∷ ends 0 (message (codes "x"))
    ∷ ends 1 wrote
    ∷ ends 0 write_failed
    ∷ []

events-Occur : Occur Sockets.protocol (Sockets.answer lib what table) events (listening 5)
unfolding Occur serve_event on_end on_reaction on_response Sockets.react Sockets.answer
    Socket.on_read Socket.read_request Socket.handle_read Socket.handler_of Socket.handle
    Socket.respond bytes_eq
events-Occur = (
  refl,
  (
    tt,
    (
      refl,
      (
        tt,
        (
          refl,
          (
            (λ h. cc),
            (
              refl,
              (
                (λ h. cc),
                (
                  refl,
                  ((λ h. cc), (refl, ((λ h. cc), (refl, ((λ h. cc), (refl, ((λ h. cc), tt))))))),
                ),
              ),
            ),
          ),
        ),
      ),
    ),
  ),
)

serve_all-in_order_example :
    Agrees Sockets.protocol
      (Sockets.answer lib what table)
      (listening 5)
      (Sockets.serve_all lib what table events (listening 5))
      (in_order (Sockets.answer lib what table) (heard Sockets.message_of events) 5)
serve_all-in_order_example =
    serve_all-in_order lib what table events (listening 5) refl events-Occur

-- Two requests that a client sends at once, on the only connection of the server.
abbrev calls : List (Call Value ℕ)
calls =
    (codes "/count", some (bytes (codes "x")), 1)
    ∷ (codes "/count", some (bytes (codes "x")), 2)
    ∷ []

abbrev ready : Server Sockets.Phase ℕ Bytes
ready = record { run = running; state = 5; sessions = at_rest [] ∷ [] }

abbrev told : Told ℕ ℕ
told = ((1, true, encode (bytes (codes "y"))) ∷ (2, true, encode (bytes (codes "y"))) ∷ [], 7)

abbrev silent : ℕ → Bool × Bytes → List (Value × ℕ)
silent cb answer = []

calls-AllCross : AllCross lib what table calls 5
unfolding Socket.on_read Socket.read_request Socket.handle_read Socket.handler_of Socket.handle
    Socket.respond bytes_eq
calls-AllCross = (refl, (refl, (refl, (refl, tt))))

calls-told : told_all lib what table calls 5 ≡ some told
unfolding Socket.handler_of bytes_eq
calls-told = refl

conversation_lem_example :
    (answers : List Bytes) × ((served lib what table 0 calls ready).state ≡ told.1)
    × (get_elem? (served lib what table 0 calls ready).sessions 0 ≡ some (at_rest ([] ++ answers)))
    × (bind_exec
          (send_all lib silent (calls_of lib calls) (resting lib silent (λ cb a. refl) [] []))
          (Client.on_events lib silent (exchange lib answers))
        ≡ done (
            resting lib silent
              (λ cb a. refl)
              ([] ++ texts lib (calls_of lib calls))
              ([] ++ told.0)))
conversation_lem_example =
    conversation_lem lib what table silent (λ cb a. refl) 0 calls ready [] [] [] told refl
      calls-AllCross calls-told

-- Two clients; the first one's request has no handler, and the second one sends none.
abbrev visits : List (Event Http.End)
visits =
    connected
    ∷ connect_failed
    ∷ connected
    ∷ ends 0 (Http.request lost)
    ∷ ends 1 Http.end_of_stream
    ∷ ends 0 Http.wrote
    ∷ []

visits-Occur :
    Occur Http.protocol
      (Http.answer reading what is_parse_error Requests.table)
      visits
      (listening 5)
unfolding Occur serve_event on_end on_reaction on_response Http.react Http.answer handle_request
    handle_body read_body route by_target run_route finish bytes_eq
visits-Occur = (
  refl,
  (
    tt,
    (refl, (tt, (refl, (tt, (refl, ((λ h. cc), (refl, ((λ h. cc), (refl, ((λ h. cc), tt)))))))))),
  ),
)

serve_all-one_response_example :
    Agrees Http.protocol
      (Http.answer reading what is_parse_error Requests.table)
      (listening 5)
      (Http.serve_all reading what is_parse_error Requests.table visits (listening 5))
      (in_order
        (Http.answer reading what is_parse_error Requests.table)
        (heard Http.request_of visits)
        5)
    × All
        (λ c. Http.AtMostOne c.phase c.written)
        (Http.serve_all reading what is_parse_error Requests.table visits (listening 5)).sessions
serve_all-one_response_example =
    serve_all-one_response reading what is_parse_error Requests.table visits 5 visits-Occur
