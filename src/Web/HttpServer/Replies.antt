-- ===== src/Web/HttpServer/Replies.antt =====
-- What a request to the HTTPServer of src/web/http_server.cc is answered, and which state it leaves.
use buenzli_coin.Base.{
  ◌≡◌, ◌≢◌, refl, Bool, ◌⊎◌, inl, inr, Bool-cases, List, [], ◌∷◌, Option, none, some, Bytes,
  bytes_eq, codes,
}
use buenzli_coin.Base.Exec.{Result, ok, err, Error}
use buenzli_coin.Json.{JsonLib}
use buenzli_coin.Web.Handling.{
  Handling, returned, web_error, json_error, other_error, stops, Response, responds, escapes,
  no_response, LeavesState, HandlesState,
}
use buenzli_coin.Web.HttpServer.{
  Method, Status, ok_status, not_found, bad_request, unsupported_media_type, Table, by_method,
  by_target, route_method, route_target, route,
}
use buenzli_coin.Web.HttpServer.Dispatch.{chosen}
use buenzli_coin.Web.HttpServer.Requests.{
  Request, Reply, Handler, Body, given, refused, thrown, parsed, read_body, finish, respond,
  run_route, handle_body, handle_request,
}

-- The state is what it was, and a response, if there is one, does not report success.
abbrev pub IsRefused : {State : Type 0} → State → Response State Reply → Type 0
IsRefused s (responds reply s') = (s' ≡ s) × (reply.status ≢ ok_status)
IsRefused s (escapes s') = s' ≡ s
IsRefused s no_response = ⊥

module _ (lib : JsonLib) (what : Error → Bytes) (is_parse_error : Error → Bool) where
  open lib use {Json}

  abbrev RefusedBody : Body lib what is_parse_error → Type 0
  RefusedBody (given j) = Unit
  RefusedBody (refused reply) = reply.status ≢ ok_status
  RefusedBody thrown = Unit

  parsed-RefusedBody : (r : Result Json) → RefusedBody (parsed lib what is_parse_error r)
  unfolding parsed
  parsed-RefusedBody (ok j) = tt
  parsed-RefusedBody (err e) = elim (Bool-cases (is_parse_error e)) [
    | inl x ↦ rw x (λ h. cc)
    | inr x ↦ rw x tt
  ]

  read_body-RefusedBody :
      (request : Request) (body : Bytes)
      → RefusedBody (read_body lib what is_parse_error request body)
  unfolding read_body
  read_body-RefusedBody request [] = tt
  read_body-RefusedBody request (b ∷ body) =
      elim (Bool-cases (bytes_eq request.content_type (codes "application/json"))) [
        | inl x ↦ rw x (parsed-RefusedBody (lib.parse (b ∷ body)))
        | inr x ↦ rw x (λ h. cc)
      ]

  module _ {State : Type 0} where
    run_route-IsRefused :
        (request : Request) (j : Json) (s : State)
        (r : Status ⊎ Handler lib what is_parse_error State)
        → chosen r ≡ none
        → r ≢ inl ok_status
        → IsRefused s (run_route lib what is_parse_error request j s r)
    unfolding run_route finish
    run_route-IsRefused request j s (inl ok_status) c n = absurd (n refl)
    run_route-IsRefused request j s (inl not_found) c n = (refl, λ h. cc)
    run_route-IsRefused request j s (inl bad_request) c n = (refl, λ h. cc)
    run_route-IsRefused request j s (inl unsupported_media_type) c n = (refl, λ h. cc)
    run_route-IsRefused request j s (inr h) c n = cc

    route-fails :
        (target : Bytes) (method : Method) (table : Table (Handler lib what is_parse_error State))
        → route target method table ≢ inl ok_status
    unfolding route
    route-fails target method table = of_target (by_target target table)
      where
        of_method :
            (o : Option (Handler lib what is_parse_error State)) → route_method o ≢ inl ok_status
        of_method none h = cc
        of_method (some x) h = cc

        of_target :
            (o : Option (List (Method × Handler lib what is_parse_error State)))
            → route_target method o ≢ inl ok_status
        of_target none h = cc
        of_target (some hs) h = of_method (by_method method hs) h

    -- A request for which no handler is registered leaves the state as it is, whatever its body is, and
    -- no response to it reports success.
    pub handle_request-IsRefused :
        (table : Table (Handler lib what is_parse_error State)) (request : Request) (s : State)
        → chosen (route request.target request.method table) ≡ none
        → IsRefused s (handle_request lib what is_parse_error table request s)
    unfolding handle_request handle_body
    handle_request-IsRefused table request s c =
        of_body (read_body lib what is_parse_error request request.body)
          (read_body-RefusedBody request request.body)
      where
        of_body :
            (b : Body lib what is_parse_error)
            → RefusedBody b
            → IsRefused s (handle_body lib what is_parse_error table request s b)
        of_body (given j) n =
            run_route-IsRefused request j s (route request.target request.method table) c
              (route-fails request.target request.method table)
        of_body (refused reply) n = (refl, n)
        of_body thrown n = refl

    -- The handlers of the table keep a property of the state.
    abbrev pub KeepsState :
        (State → Type 0) → Table (Handler lib what is_parse_error State) → Type 0
    KeepsState P table =
        (target : Bytes) (method : Method) (h : Handler lib what is_parse_error State)
        → route target method table ≡ inr h
        → (j : Json) (s : State) → P s
        → HandlesState P (h j s)

    respond-LeavesState :
        (P : State → Type 0) (request : Request)
        (h : Handling State (Status × Json) (Status × Error))
        → HandlesState P h
        → LeavesState P (respond lib what is_parse_error request h)
    unfolding respond
    respond-LeavesState P request (returned s (code, answer)) p = p
    respond-LeavesState P request (web_error (code, e) s) p = p
    respond-LeavesState P request (json_error s) p = p
    respond-LeavesState P request (other_error s) p = p
    respond-LeavesState P request stops p = tt

    -- Whatever request comes in, the state keeps a property that every handler keeps.
    pub handle_request-LeavesState :
        (P : State → Type 0) (table : Table (Handler lib what is_parse_error State))
        (request : Request) (s : State)
        → KeepsState P table
        → P s
        → LeavesState P (handle_request lib what is_parse_error table request s)
    unfolding handle_request handle_body run_route
    handle_request-LeavesState P table request s k p =
        of_body (read_body lib what is_parse_error request request.body)
      where
        of_route :
            (j : Json) (r : Status ⊎ Handler lib what is_parse_error State)
            → route request.target request.method table ≡ r
            → LeavesState P (run_route lib what is_parse_error request j s r)
        of_route j (inl code) e = p
        of_route j (inr h) e =
            respond-LeavesState P request (h j s) (k request.target request.method h e j s p)

        of_body :
            (b : Body lib what is_parse_error)
            → LeavesState P (handle_body lib what is_parse_error table request s b)
        of_body (given j) = of_route j (route request.target request.method table) refl
        of_body (refused reply) = p
        of_body thrown = p
