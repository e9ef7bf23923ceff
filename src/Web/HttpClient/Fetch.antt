-- ===== src/Web/HttpClient/Fetch.antt =====
-- HTTPClient::send_sync of src/web/http_client.cc: its connection, and a request to an HTTPServer
-- (src/web/http_server.cc), there and back.
use buenzli_coin.Base.{
  ℕ, ◌≡◌, ◌≢◌, refl, ap, ◌∙◌, Bool, List, [], ◌∷◌, ◌++◌, Option, none, some, inr, Bytes, get_elem?,
  length, if◌then◌else◌,
}
use buenzli_coin.Base.Exec.{Result, ok, err, Error}
use buenzli_coin.Json.{JsonLib}
use buenzli_coin.Web.Handling.{responds, returned}
use buenzli_coin.Web.HttpClient.{send_sync_request, handle_request-sent}
use buenzli_coin.Web.HttpServer.{Method, Status, ok_status, Table, route}
use buenzli_coin.Web.HttpServer.Requests.{
  Request, Reply, Handler, handle_request, run_route, respond, finish,
}
use buenzli_coin.Web.HttpServer.Connections.{
  Phase, shut, End, request, wrote, react, after_read, after_write, answer, serve_all,
}
use buenzli_coin.Web.Listening.{
  Server, Event, connected, ends, set_elem, on_response, on_reaction, on_end, serve_event,
  serve_events,
}

-- What send_sync does with its stream.
pub data Io : Type 0 where
  connects reads shuts_down : Io
  writes : Request → Io

-- How these operations end. A shutdown that fails because the other side has closed the connection
-- counts as one that has succeeded.
pub record Network : Type 0 where
  pub connect_error : Option Error
  pub write_error : Option Error
  pub response : Result (Status × Bytes)
  pub shutdown_error : Option Error

-- `close`, which throws, and then the destructor of the connection, which does not.
unfoldable pub return_or_throw : Status × Bytes → Option Error → Result (Status × Bytes)
return_or_throw answer none = ok answer
return_or_throw answer (some e) = err e

unfoldable pub after_response :
    List Io → Option Error → Result (Status × Bytes) → List Io × Result (Status × Bytes)
unfolding return_or_throw
after_response ios shutdown (err e) = (ios ++ shuts_down ∷ [], err e)
after_response ios shutdown (ok answer) =
    (ios ++ shuts_down ∷ shuts_down ∷ [], return_or_throw answer shutdown)

unfoldable pub converse :
    Network → Request → Option Error → Option Error → List Io × Result (Status × Bytes)
unfolding after_response
converse net q (some e) write = (connects ∷ [], err e)
converse net q none (some e) = (connects ∷ writes q ∷ shuts_down ∷ [], err e)
converse net q none none =
    after_response (connects ∷ writes q ∷ reads ∷ []) net.shutdown_error net.response

module _ (lib : JsonLib) (is_empty_json : lib.Json → Bool) (method_string : Method → Bytes) where
  open lib use {Json, null, parse, dump}

  -- HTTPClient::send_sync
  unfoldable pub send_sync : Network → Bytes → Method → Json → List Io × Result (Status × Bytes)
  unfolding converse send_sync_request
  send_sync net target method j =
      converse net (send_sync_request lib is_empty_json method_string target method j)
        net.connect_error net.write_error

-- A network that brings the reply, and on which nothing fails.
abbrev pub delivers : Reply → Network
delivers reply = record {
  connect_error = none;
  write_error = none;
  response = ok (reply.status, reply.text);
  shutdown_error = none;
}

-- A client connects to the server, which has `i` connections before, and sends a request.
abbrev pub visit : ℕ → Request → List (Event End)
visit i q = connected ∷ ends i (request q) ∷ ends i wrote ∷ []

get-last : {A : Type 0} (xs : List A) (x : A) → get_elem? (xs ++ x ∷ []) (length xs) ≡ some x
get-last [] x = refl
get-last (y ∷ xs) x = get-last xs x

set-last :
    {A : Type 0} (xs : List A) (x y : A) → set_elem (length xs) y (xs ++ x ∷ []) ≡ xs ++ y ∷ []
set-last [] x y = refl
set-last (z ∷ xs) x y = ap (λ l. z ∷ l) (set-last xs x y)

module _ (lib : JsonLib) (is_empty_json : lib.Json → Bool) (method_string : Method → Bytes)
    (what : Error → Bytes) (is_parse_error : Error → Bool) {State : Type 0}
    (table : Table (Handler lib what is_parse_error State)) where
  open lib use {Json, null, parse, dump}

  visited :
      (q : Request) (srv : Server Phase State Reply) (reply : Reply) (s : State)
      → handle_request lib what is_parse_error table q srv.state ≡ responds reply s
      → serve_all lib what is_parse_error table (visit (length srv.sessions) q) srv ≡ record {
        run = srv.run;
        state = s;
        sessions = srv.sessions ++ record { phase = shut; written = reply ∷ [] } ∷ [];
      }
  unfolding serve_all serve_events serve_event on_end on_reaction on_response react after_read
      after_write answer
  visited q srv reply s e = rw (get-last, e, set-last, get-last, set-last) refl

  -- A request of a client whose handler at the server returns an answer and `ok`: the client returns
  -- `ok` and the text of the answer, the server has the state that the handler leaves, and it has
  -- written one response on the new connection and shut it down. The premises are that the library
  -- reads the text of the data back, that this text is not empty, and that the network brings the
  -- response.
  pub fetch_lem :
      (target : Bytes) (method : Method) (j answer : Json) (s : State)
      (h : Handler lib what is_parse_error State) (srv : Server Phase State Reply)
      → parse (dump j) ≡ ok j
      → dump j ≢ []
      → route target method table ≡ inr h
      → h (if is_empty_json j then null else j) srv.state ≡ returned s (ok_status, answer)
      → (reply : Reply) × (serve_all lib what is_parse_error table
            (visit
              (length srv.sessions)
              (send_sync_request lib is_empty_json method_string target method j))
            srv
          ≡ record {
            run = srv.run;
            state = s;
            sessions = srv.sessions ++ record { phase = shut; written = reply ∷ [] } ∷ [];
          })
        × ((send_sync lib is_empty_json method_string (delivers reply) target method j).1
            ≡ ok (ok_status, dump answer))
  unfolding run_route respond finish send_sync converse after_response return_or_throw
  fetch_lem target method j answer s h srv parses filled routes returns =
      let q = send_sync_request lib is_empty_json method_string target method j in
      (
        finish lib what is_parse_error q ok_status [] answer,
        visited q srv _ s (
            handle_request-sent lib is_empty_json method_string what is_parse_error table target
              method j srv.state parses filled
            ∙ rw (routes, returns) refl),
        refl,
      )
