-- ===== src/Examples/Requests.antt =====
-- Requests on which src/web/http_server.cc and src/web/http_client.cc run.
use buenzli_coin.Base.{
  ℕ, suc, ◌≡◌, refl, true, false, Bool, List, [], ◌∷◌, Bytes, bytes_eq, codes, none, ◌++◌, length,
  inr,
}
use buenzli_coin.Base.Exec.{ok, Error}
use buenzli_coin.Examples.{Value, bytes, json}
use buenzli_coin.Json.{JsonLib}
use buenzli_coin.Web.Handling.{Handling, returned}
use buenzli_coin.Web.HttpClient.{send_sync_request}
use buenzli_coin.Web.HttpClient.Fetch.{visit, delivers, send_sync, fetch_lem}
use buenzli_coin.Web.HttpServer.Connections.{Phase, shut, serve_all}
use buenzli_coin.Web.Listening.{Server, running}
use buenzli_coin.Web.HttpServer.{
  by_method, Method, get, post, ok_status, Status, Table, Registration, support_all, by_target,
  route,
}
use buenzli_coin.Web.HttpServer.Dispatch.{chosen, first, first_offered, route-support_all}
use buenzli_coin.Web.HttpServer.Replies.{IsRefused, handle_request-IsRefused}
use buenzli_coin.Web.HttpServer.Requests.{Request, Reply, handle_request, Handler}

abbrev registrations : List (Registration ℕ)
registrations =
    (codes "/blocks", get, 1) ∷ (codes "/peers", get, 2) ∷ (codes "/peers", post, 3) ∷ []

route-support_all_example :
    chosen (route (codes "/peers") post (support_all registrations []))
    ≡ first
        (chosen (route (codes "/peers") post []))
        (first_offered (codes "/peers") post registrations)
route-support_all_example = route-support_all registrations (codes "/peers") post []

abbrev what : Error → Bytes
what e = codes "what"

abbrev pub is_parse_error : Error → Bool
is_parse_error e = true

-- A JSON library that reads one text.
abbrev pub reading : JsonLib
reading = record json { parse = λ s. ok (bytes s) }

-- A handler that counts.
abbrev count : Value → ℕ → Handling ℕ (Status × Value) (Status × Error)
count j n = returned (suc n) (ok_status, j)

abbrev pub table : Table (Handler reading what is_parse_error ℕ)
table = (codes "/count", (post, count) ∷ []) ∷ []

abbrev pub lost : Request
lost = record {
  target = codes "/lost";
  method = get;
  method_string = codes "GET";
  content_type = codes "text/html";
  body = codes "x";
}

lost_lem : chosen (route lost.target lost.method table) ≡ none
unfolding route by_target bytes_eq
lost_lem = refl

handle_request-IsRefused_example :
    IsRefused 5 (handle_request reading what is_parse_error table lost 5)
handle_request-IsRefused_example =
    handle_request-IsRefused reading what is_parse_error table lost 5 lost_lem

abbrev is_empty_json : Value → Bool
is_empty_json j = false

abbrev method_string : Method → Bytes
method_string m = codes "POST"

abbrev idle : Server Phase ℕ Reply
idle = record { run = running; state = 5; sessions = [] }

counts : route (codes "/count") post table ≡ inr count
unfolding route by_target by_method bytes_eq
counts = refl

fetch_lem_example :
    (reply : Reply) × (serve_all reading what is_parse_error table
        (visit (length idle.sessions) (
          send_sync_request reading is_empty_json method_string
            (codes "/count")
            post
            (bytes (codes "x"))))
        idle
      ≡ record {
        run = running;
        state = 6;
        sessions = [] ++ record { phase = shut; written = reply ∷ [] } ∷ [];
      })
    × ((send_sync reading is_empty_json method_string
          (delivers reply)
          (codes "/count")
          post
          (bytes (codes "x"))).1
        ≡ ok (ok_status, codes "x"))
fetch_lem_example =
    fetch_lem reading is_empty_json method_string what is_parse_error table (codes "/count") post
      (bytes (codes "x")) (bytes (codes "x")) 6 count idle refl (λ h. cc) counts refl
