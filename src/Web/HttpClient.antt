-- ===== src/Web/HttpClient.antt =====
-- HTTPClient::send_sync of include/web/http_client.h and src/web/http_client.cc: the request that it
-- sends, and what the HTTPServer of src/web/http_server.cc makes of it. The connection is in
-- Fetch.
pub mod Fetch
use buenzli_coin.Base.{
  ◌≡◌, ◌≢◌, refl, Bool, [], ◌∷◌, if◌then◌else◌, Bool-cases, inl, inr, Bytes, bytes_eq, codes,
}
use buenzli_coin.Base.Exec.{ok, Error}
use buenzli_coin.Json.{JsonLib}
use buenzli_coin.Web.HttpServer.{Method, Table, route}
use buenzli_coin.Web.HttpServer.Requests.{
  Request, Handler, given, parsed, read_body, run_route, handle_body, handle_request,
}

-- `is_empty_json` is json::empty, and `method_string` the text of a method.
module _ (lib : JsonLib) (is_empty_json : lib.Json → Bool) (method_string : Method → Bytes) where
  open lib use {Json, null, parse, dump}

  abbrev with_body : Bytes → Method → Bytes → Bytes → Request
  with_body target method content_type body = record {
    target = target;
    method = method;
    method_string = method_string method;
    content_type = content_type;
    body = body;
  }

  -- The request of HTTPClient::send_sync
  unfoldable pub send_sync_request : Bytes → Method → Json → Request
  send_sync_request target method j =
      if is_empty_json j
      then with_body target method [] []
      else with_body target method (codes "application/json") (dump j)

  module _ (what : Error → Bytes) (is_parse_error : Error → Bool) where
    read_sent :
        (request : Request) (j : Json) (body : Bytes)
        → request.content_type ≡ codes "application/json"
        → parse body ≡ ok j
        → body ≢ []
        → read_body lib what is_parse_error request body ≡ given j
    unfolding read_body parsed bytes_eq
    read_sent request j [] e p n = absurd (n refl)
    read_sent request j (b ∷ body) e p n = rw (e, p) refl

    -- A request of the client runs the handler of its target and method on its data, or on null if the
    -- data are empty. The premises are that the library reads the text of the data back, and that this
    -- text is not empty.
    pub handle_request-sent :
        {State : Type 0} (table : Table (Handler lib what is_parse_error State)) (target : Bytes)
        (method : Method) (j : Json) (s : State)
        → parse (dump j) ≡ ok j
        → dump j ≢ []
        → handle_request lib what is_parse_error table (send_sync_request target method j) s
          ≡ run_route lib what is_parse_error
              (send_sync_request target method j)
              (if is_empty_json j then null else j)
              s
              (route target method table)
    unfolding handle_request handle_body send_sync_request read_body
    handle_request-sent table target method j s p n = elim (Bool-cases (is_empty_json j)) [
      | inl e ↦ rw e refl
      | inr e ↦ rw e (
          rw
            (read_sent (with_body target method (codes "application/json") (dump j)) j (dump j) refl
              p n)
            refl)
    ]
