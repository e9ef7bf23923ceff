-- ===== src/Web/WebSocketServer/Calls.antt =====
-- A request of a WebSocketClient (src/web/websocket_client.cc) to a WebSocketServer
-- (src/web/websocket_server.cc), there and back.
use buenzli_coin.Base.{
  ◌≡◌, refl, ap, subst, Bool, true, false, List, [], ◌∷◌, Option, none, some, Bytes, bytes_eq,
  Bool-cases, inl, inr, codes,
}
use buenzli_coin.Base.Exec.{Result, ok, err, Error}
use buenzli_coin.Json.{JsonLib}
use buenzli_coin.Web.Handling.{
  Handling, returned, web_error, json_error, other_error, stops, Response, responds, escapes,
  no_response, LeavesState, HandlesState,
}
use buenzli_coin.Web.WebSocketClient.{decode, read_data}
use buenzli_coin.Web.WebSocketServer.{
  Table, Handler, support, support_all, handler_of, read_request, status_and_data, not_ok, respond,
  handle, handle_read, on_read,
}

module _ (lib : JsonLib) where
  open lib use {Json, string, object, parse, member, get_string, dump, null}

  -- The library reads the text of a value back.
  abbrev pub RoundTrips : Json → Type 0
  RoundTrips j = parse (dump j) ≡ ok j

  decode-ok :
      (answer : Json)
      → RoundTrips (status_and_data lib (codes "ok") answer)
      → decode lib (dump (status_and_data lib (codes "ok") answer)) ≡ (true, dump answer)
  unfolding decode read_data bytes_eq
  decode-ok answer p =
      rw
        (
          p,
          lib.member-object _ "status" _ refl,
          lib.get_string-string,
          lib.member-object _ "data" _ refl,
        )
        refl

  decode-not_ok :
      (text : Bytes)
      → RoundTrips (not_ok lib text)
      → decode lib (dump (not_ok lib text)) ≡ (false, text)
  unfolding decode read_data bytes_eq
  decode-not_ok text p =
      rw
        (
          p,
          lib.member-object _ "status" _ refl,
          lib.get_string-string,
          lib.member-object _ "data" _ refl,
          lib.get_string-string,
        )
        refl

  -- The message of a client: with data, or without.
  abbrev pub message : Bytes → Option Json → Json
  message target none = object (("target", string target) ∷ [])
  message target (some given) = object (("target", string target) ∷ ("data", given) ∷ [])

  abbrev pub or_null : Option Json → Json
  or_null none = null
  or_null (some given) = given

  read_request-message :
      (target : Bytes) (given : Option Json)
      → RoundTrips (message target given)
      → read_request lib (dump (message target given)) ≡ ok (target, or_null given)
  unfolding read_request
  read_request-message target none p =
      rw
        (
          p,
          lib.member-object _ "target" _ refl,
          lib.get_string-string,
          lib.member-missing _ "data" refl,
        )
        refl
  read_request-message target (some given) p =
      rw
        (
          p,
          lib.member-object _ "target" _ refl,
          lib.get_string-string,
          lib.member-object _ "data" _ refl,
        )
        refl

module _ (lib : JsonLib) (what : Error → Bytes) {State : Type 0} where
  open lib use {Json, dump}

  -- The arguments of the callback, and the state of the server, if there is a response.
  abbrev pub seen : Response State Json → Option ((Bool × Bytes) × State)
  seen (responds r s) = some (decode lib (dump r), s)
  seen (escapes s) = none
  seen no_response = none

  -- What the callback is to be told.
  abbrev pub told : Handling State Json Error → Option ((Bool × Bytes) × State)
  told (returned s answer) = some ((true, dump answer), s)
  told (web_error e s) = some ((false, what e), s)
  told (json_error s) = some ((false, codes "Bad request"), s)
  told (other_error s) = none
  told stops = none

  abbrev pub told_by : Option (Handler lib State) → Json → State → Option ((Bool × Bytes) × State)
  told_by none given s = some ((false, codes "Not found"), s)
  told_by (some h) given s = told (h given s)

  -- The response of a call is read back.
  abbrev pub IsReadable : Response State Json → Type 0
  IsReadable (responds r s) = RoundTrips lib r
  IsReadable (escapes s) = Unit
  IsReadable no_response = Unit

  respond-told :
      (h : Handling State Json Error)
      → IsReadable (respond lib what h)
      → seen (respond lib what h) ≡ told h
  unfolding respond
  respond-told (returned s answer) p = ap (λ x. some (x, s)) (decode-ok lib answer p)
  respond-told (web_error e s) p = ap (λ x. some (x, s)) (decode-not_ok lib (what e) p)
  respond-told (json_error s) p = ap (λ x. some (x, s)) (decode-not_ok lib (codes "Bad request") p)
  respond-told (other_error s) p = refl
  respond-told stops p = refl

  handle-told :
      (h : Option (Handler lib State)) (given : Json) (s : State)
      → IsReadable (handle lib what h given s)
      → seen (handle lib what h given s) ≡ told_by h given s
  unfolding handle
  handle-told none given s p = ap (λ x. some (x, s)) (decode-not_ok lib (codes "Not found") p)
  handle-told (some h) given s p = respond-told (h given s) p

  -- A message that a client sends with a target, with data or without, runs the handler of that
  -- target on the data (null if there are none), and the callback of the client is told how it ended:
  -- the text of the answer, the text of the WebSocketError, "Bad request", or "Not found" if there is
  -- no such handler. The premises are that the library reads the text of the message and that of the
  -- response back.
  pub on_read-told :
      (table : Table (Handler lib State)) (target : Bytes) (given : Option Json) (s : State)
      → RoundTrips lib (message lib target given)
      → IsReadable (on_read lib what table (dump (message lib target given)) s)
      → seen (on_read lib what table (dump (message lib target given)) s)
        ≡ told_by (handler_of target table) (or_null lib given) s
  unfolding on_read handle handle_read
  on_read-told table target given s p q =
      let e = read_request-message lib target given p in
      rw e (
        handle-told (handler_of target table) (or_null lib given) s
          (subst (λ r. IsReadable (handle_read lib what table s r)) e q))

  -- A handler keeps a property of the state.
  abbrev pub KeepsState : (State → Type 0) → List (Bytes × Handler lib State) → Type 0
  KeepsState P [] = Unit
  KeepsState P ((t, h) ∷ table) =
      ((given : Json) (s : State) → P s → HandlesState P (h given s)) × KeepsState P table

  support-KeepsState :
      (P : State → Type 0) (target : Bytes) (h : Handler lib State)
      (table : Table (Handler lib State))
      → ((given : Json) (s : State) → P s → HandlesState P (h given s))
      → KeepsState P table
      → KeepsState P (support target h table)
  unfolding support
  support-KeepsState P target h [] k ks = (k, tt)
  support-KeepsState P target h ((t, h') ∷ table) k ks = elim (Bool-cases (bytes_eq t target)) [
    | inl e ↦ rw e (k, ks.1)
    | inr e ↦ rw e (ks.0, support-KeepsState P target h table k ks.1)
  ]

  pub support_all-KeepsState :
      (P : State → Type 0) (hs : List (Bytes × Handler lib State))
      (table : Table (Handler lib State))
      → KeepsState P hs
      → KeepsState P table
      → KeepsState P (support_all hs table)
  unfolding support_all
  support_all-KeepsState P [] table k ks = ks
  support_all-KeepsState P ((t, h) ∷ hs) table k ks =
      support_all-KeepsState P hs (support t h table) k.1 (support-KeepsState P t h table k.0 ks)

  respond-LeavesState :
      (P : State → Type 0) (h : Handling State Json Error)
      → HandlesState P h
      → LeavesState P (respond lib what h)
  unfolding respond
  respond-LeavesState P (returned s answer) p = p
  respond-LeavesState P (web_error e s) p = p
  respond-LeavesState P (json_error s) p = p
  respond-LeavesState P (other_error s) p = p
  respond-LeavesState P stops p = tt

  handle-LeavesState :
      (P : State → Type 0) (table : Table (Handler lib State)) (target : Bytes) (given : Json)
      (s : State)
      → KeepsState P table
      → P s
      → LeavesState P (handle lib what (handler_of target table) given s)
  unfolding handle handler_of
  handle-LeavesState P [] target given s k p = p
  handle-LeavesState P ((t, h) ∷ table) target given s k p = elim (Bool-cases (bytes_eq t target)) [
    | inl e ↦ rw e (respond-LeavesState P (h given s) (k.0 given s p))
    | inr e ↦ rw e (handle-LeavesState P table target given s k.1 p)
  ]

  -- Whatever bytes come in, the state keeps a property that every handler keeps.
  pub on_read-LeavesState :
      (P : State → Type 0) (table : Table (Handler lib State)) (text : Bytes) (s : State)
      → KeepsState P table
      → P s
      → LeavesState P (on_read lib what table text s)
  unfolding on_read handle_read
  on_read-LeavesState P table text s k p = read_cases (read_request lib text)
    where
      read_cases : (r : Result (Bytes × Json)) → LeavesState P (handle_read lib what table s r)
      read_cases (err e) = p
      read_cases (ok (target, given)) = handle-LeavesState P table target given s k p
