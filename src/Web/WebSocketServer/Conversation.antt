-- ===== src/Web/WebSocketServer/Conversation.antt =====
-- A WebSocketClient (src/web/websocket_client.cc) that sends several requests at once, and its
-- connection to a WebSocketServer (src/web/websocket_server.cc), from end to end.
use mathlib.Core.List.{append_assoc, append-nil}
use mathlib.Core.Option
use mathlib.Core.Option.{some-injective}
use buenzli_coin.Base.{
  ℕ, zero, suc, ◌≡◌, refl, sym, ap, ◌∙◌, subst, Bool, List, [], ◌∷◌, ◌++◌, Option, none, some,
  Bytes, get_elem?, length, arith,
}
use buenzli_coin.Base.Exec.{Error, done, bind_exec}
use buenzli_coin.Json.{JsonLib}
use buenzli_coin.Web.Handling.{Response, responds, escapes, no_response}
use buenzli_coin.Web.Listening.{
  Session, Server, Event, ends, set_elem, on_response, on_reaction, on_end, serve_event,
  serve_events,
}
use buenzli_coin.Web.WebSocketClient.{decode, send_all}
use buenzli_coin.Web.WebSocketClient as Client
use buenzli_coin.Web.WebSocketClient.Exchange.{answered, exchange, resting, exchange_lem}
use buenzli_coin.Web.WebSocketClient.Phases.{IsSilent, texts}
use buenzli_coin.Web.WebSocketServer.{Table, Handler, handler_of, on_read}
use buenzli_coin.Web.WebSocketServer.Calls.{
  RoundTrips, message, or_null, seen, told_by, IsReadable, on_read-told,
}
use buenzli_coin.Web.WebSocketServer.Connections as Connections
use buenzli_coin.Web.WebSocketServer.Connections.{
  Phase, reading, writing, End, wrote, protocol, react, answer, serve_all,
}

get-set :
    {A : Type 0} (i : ℕ) (xs : List A) (x y : A)
    → get_elem? xs i ≡ some x
    → get_elem? (set_elem i y xs) i ≡ some y
get-set i [] x y h = cc
get-set zero (z ∷ xs) x y h = refl
get-set (suc i) (z ∷ xs) x y h = get-set i xs x y h

-- What a client writes is read by connection `i`, and the write of every answer ends.
abbrev pub dialogue : ℕ → List Bytes → List (Event End)
dialogue i [] = []
dialogue i (t ∷ ts) = ends i (Connections.message t) ∷ ends i wrote ∷ dialogue i ts

-- A request, with its data if it has any, and its callback.
abbrev pub Call : Type 0 → Type 0 → Type 0
Call Json Callback = Bytes × Option Json × Callback

-- The calls of callbacks, and the state that is left.
abbrev pub Told : Type 0 → Type 0 → Type 0
Told Callback State = List (Callback × Bool × Bytes) × State

abbrev pub then_told :
    {Callback State : Type 0}
    → Callback
    → Option ((Bool × Bytes) × State)
    → (State → Option (Told Callback State))
    → Option (Told Callback State)
then_told cb none rest = none
then_told cb (some (a, s)) rest = Option.map (λ r. ((cb, a.0, a.1) ∷ r.0, r.1)) (rest s)

abbrev pub Onwards : {State Json : Type 0} → Response State Json → (State → Type 0) → Type 0
Onwards (responds r s) P = P s
Onwards (escapes s) P = Unit
Onwards no_response P = Unit

abbrev pub at_rest : List Bytes → Session Phase Bytes
at_rest w = record { phase = reading; written = w }

abbrev pub calls_of :
    (lib : JsonLib) {Callback : Type 0} → List (Call lib.Json Callback) → List (lib.Json × Callback)
calls_of lib [] = []
calls_of lib ((target, given, cb) ∷ cs) = (message lib target given, cb) ∷ calls_of lib cs

module _ (lib : JsonLib) (what : Error → Bytes) {State : Type 0}
    (table : Table (Handler lib State)) where
  open lib use {Json, dump}

  -- The server after it has read a message on connection `i` and written a response.
  abbrev replied :
      ℕ → Json → State → List Bytes → Server Phase State Bytes → Server Phase State Bytes
  replied i r s w srv = record {
    run = srv.run;
    state = s;
    sessions =
        set_elem i (at_rest (w ++ dump r ∷ []))
          (set_elem i (record { phase = writing; written = w ++ dump r ∷ [] }) srv.sessions);
  }

  replied_lem :
      (i : ℕ) (text : Bytes) (r : Json) (s : State) (w : List Bytes)
      (srv : Server Phase State Bytes)
      → get_elem? srv.sessions i ≡ some (at_rest w)
      → on_read lib what table text srv.state ≡ responds r s
      → serve_event protocol
          (answer lib what table)
          (ends i wrote)
          (serve_event protocol (answer lib what table) (ends i (Connections.message text)) srv)
        ≡ replied i r s w srv
  unfolding serve_event on_end on_reaction on_response react answer
  replied_lem i text r s w srv at e =
      rw
        (
          at,
          e,
          get-set i srv.sessions (at_rest w)
              (record { phase = writing; written = w ++ dump r ∷ [] }) at,
        )
        refl

  module _ {Callback : Type 0} where
    -- What the callbacks are to be told if the handlers run one after the other, and the state that
    -- they leave.
    abbrev pub told_all : List (Call Json Callback) → State → Option (Told Callback State)
    told_all [] s = some ([], s)
    told_all ((target, given, cb) ∷ cs) s =
        then_told cb (told_by lib what (handler_of target table) (or_null lib given) s)
          (told_all cs)

    abbrev pub read_call : Call Json Callback → State → Response State Json
    read_call (target, given, cb) s = on_read lib what table (dump (message lib target given)) s

    -- The library reads the texts of all messages and of all responses back.
    abbrev pub AllCross : List (Call Json Callback) → State → Type 0
    AllCross [] s = Unit
    AllCross ((target, given, cb) ∷ cs) s =
        RoundTrips lib (message lib target given)
        × (IsReadable lib what (read_call (target, given, cb) s)
            × Onwards (read_call (target, given, cb) s) (AllCross cs))

    -- The server when it has been sent the calls on connection `i`.
    abbrev pub served :
        ℕ → List (Call Json Callback) → Server Phase State Bytes → Server Phase State Bytes
    served i cs srv = serve_all lib what table (dialogue i (texts lib (calls_of lib cs))) srv

    -- `answers` are those to the calls, and the server has written them on connection `i`.
    abbrev Answers :
        ℕ
        → List (Call Json Callback)
        → Server Phase State Bytes
        → List Bytes
        → Told Callback State
        → List Bytes
        → Type 0
    Answers i cs srv w told answers =
        (length (calls_of lib cs) ≡ length answers)
        × ((answered lib (calls_of lib cs) answers ≡ told.0)
            × (((served i cs srv).state ≡ told.1)
                × (get_elem? (served i cs srv).sessions i ≡ some (at_rest (w ++ answers)))))

    abbrev Follows : ℕ → List (Call Json Callback) → Type 0
    Follows i cs =
        (srv : Server Phase State Bytes) (w : List Bytes) (told : Told Callback State)
        → get_elem? srv.sessions i ≡ some (at_rest w)
        → AllCross cs srv.state
        → told_all cs srv.state ≡ some told
        → (answers : List Bytes) × Answers i cs srv w told answers

    reply_next :
        (i : ℕ) (call : Call Json Callback) (cs : List (Call Json Callback))
        (srv : Server Phase State Bytes) (w : List Bytes) (told : Told Callback State) (r : Json)
        (s : State) (o : Option (Told Callback State))
        → Follows i cs
        → get_elem? srv.sessions i ≡ some (at_rest w)
        → read_call call srv.state ≡ responds r s
        → AllCross cs s
        → told_all cs s ≡ o
        → then_told call.2 (some (decode lib (dump r), s)) (λ s. o) ≡ some told
        → (answers : List Bytes) × Answers i (call ∷ cs) srv w told answers
    unfolding serve_all serve_events
    reply_next i (target, given, cb) cs srv w told r s none ih at p x q e = cc
    reply_next i (target, given, cb) cs srv w told r s (some told') ih at p x q e =
        let c' : Session Phase Bytes = record { phase = writing; written = w ++ dump r ∷ [] } in
        let at' =
          get-set i (set_elem i c' srv.sessions) c' (at_rest (w ++ dump r ∷ []))
            (get-set i srv.sessions (at_rest w) c' at) in
        let (answers, (len, (heard, (left, got)))) =
          ih (replied i r s w srv) (w ++ dump r ∷ []) told' at' x q in
        let goes =
          ap (serve_all lib what table (dialogue i (texts lib (calls_of lib cs))))
            (replied_lem i (dump (message lib target given)) r s w srv at p) in
        (
          dump r ∷ answers,
          (
            omega (arith, len),
            (
              ap (λ l. (cb, (decode lib (dump r)).0, (decode lib (dump r)).1) ∷ l) heard
                  ∙ ap (λ t. t.0) (some-injective _ _ e),
              (
                ap (λ v. v.state) goes ∙ (left ∙ ap (λ t. t.1) (some-injective _ _ e)),
                ap (λ v. get_elem? v.sessions i) goes
                    ∙ (got ∙ ap (λ l. some (at_rest l)) (append_assoc w (dump r ∷ []) answers)),
              ),
            ),
          ),
        )

    reply_first :
        (i : ℕ) (call : Call Json Callback) (cs : List (Call Json Callback))
        (srv : Server Phase State Bytes) (w : List Bytes) (told : Told Callback State)
        (r : Response State Json)
        → Follows i cs
        → get_elem? srv.sessions i ≡ some (at_rest w)
        → read_call call srv.state ≡ r
        → Onwards r (AllCross cs)
        → then_told call.2 (seen lib what r) (told_all cs) ≡ some told
        → (answers : List Bytes) × Answers i (call ∷ cs) srv w told answers
    reply_first i call cs srv w told (responds r s) ih at p x e =
        reply_next i call cs srv w told r s (told_all cs s) ih at p x refl e
    reply_first i call cs srv w told (escapes s) ih at p x e = cc
    reply_first i call cs srv w told no_response ih at p x e = cc

    answers_lem :
        (i : ℕ) (cs : List (Call Json Callback)) (srv : Server Phase State Bytes) (w : List Bytes)
        (told : Told Callback State)
        → get_elem? srv.sessions i ≡ some (at_rest w)
        → AllCross cs srv.state
        → told_all cs srv.state ≡ some told
        → (answers : List Bytes) × Answers i cs srv w told answers
    unfolding serve_all serve_events
    answers_lem i [] srv w told at x e = (
      [],
      (
        refl,
        (
          ap (λ p. p.0) (some-injective _ _ e),
          (
            ap (λ p. p.1) (some-injective _ _ e),
            at ∙ ap (λ l. some (at_rest l)) (sym (append-nil w)),
          ),
        ),
      ),
    )
    answers_lem i ((target, given, cb) ∷ cs) srv w told at (x, (y, z)) e =
        reply_first i (target, given, cb) cs srv w told _ (answers_lem i cs) at refl z
          (subst (λ t. then_told cb t (told_all cs) ≡ some told)
            (sym (on_read-told lib what table target given srv.state x y)) e)

    module _ (reacts : Callback → Bool × Bytes → List (Json × Callback))
        (silent : IsSilent lib reacts) where
      -- However many requests a client sends at once on a connection that the server is ready to read:
      -- if every operation ends well, no callback sends a request, and the library reads the texts of
      -- all messages and responses back, then the client writes every request once and in order, the
      -- server handles them one after the other and is ready again, and its answers reach the client,
      -- which has then called every callback once and in order with how the handler of its own request
      -- ended, and has nothing left to do. The premise is that every handler returns, throws a
      -- WebSocketError or throws a json::exception.
      pub conversation_lem :
          (i : ℕ) (calls : List (Call Json Callback)) (srv : Server Phase State Bytes)
          (w s : List Bytes) (k : List (Callback × Bool × Bytes)) (told : Told Callback State)
          → get_elem? srv.sessions i ≡ some (at_rest w)
          → AllCross calls srv.state
          → told_all calls srv.state ≡ some told
          → (answers : List Bytes) × ((served i calls srv).state ≡ told.1)
            × (get_elem? (served i calls srv).sessions i ≡ some (at_rest (w ++ answers)))
            × (bind_exec
                  (send_all lib reacts (calls_of lib calls) (resting lib reacts silent s k))
                  (Client.on_events lib reacts (exchange lib answers))
                ≡ done
                    (resting lib reacts silent (s ++ texts lib (calls_of lib calls)) (k ++ told.0)))
      conversation_lem i calls srv w s k told at x e =
          let (answers, (len, (heard, (left, got)))) = answers_lem i calls srv w told at x e in
          (
            answers,
            left,
            got,
            exchange_lem lib reacts silent (calls_of lib calls) answers s k len
                ∙ ap
                    (λ l.
                      done
                        (resting lib reacts silent (s ++ texts lib (calls_of lib calls)) (k ++ l)))
                    heard,
          )
