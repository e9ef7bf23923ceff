-- ===== src/Web/WebSocketClient/Stuck.antt =====
-- What src/web/websocket_client.cc does after an operation that fails.
use buenzli_coin.Base.{◌≡◌, refl, Bool, List, [], ◌∷◌, ◌++◌, none, some, Bytes}
use buenzli_coin.Base.Exec.{Exec, done}
use buenzli_coin.Json.{JsonLib}
use buenzli_coin.Web.WebSocketClient.{
  Connection, Event, sends, wrote, write_failed, read_failed, received, send, on_event, on_events,
}
use buenzli_coin.Web.WebSocketClient.Phases.{several}

module _ (lib : JsonLib) {Callback : Type 0}
    (reacts : Callback → Bool × Bytes → List (lib.Json × Callback)) where
  open lib use {Json, dump}

  abbrev pub Conn : Type 0
  Conn = Connection Json Callback

  -- No operation is on its way, and the queue is not empty.
  abbrev pub halted :
      Json × Callback → List (Json × Callback) → List Bytes → List (Callback × Bool × Bytes) → Conn
  halted r q s k = record { queue = r ∷ q; writing = none; reading = none; sent = s; called = k }

  -- The result has the queue not empty, and nothing more is written or called.
  abbrev pub StaysHalted : List Bytes → List (Callback × Bool × Bytes) → Exec Conn → Type 0
  StaysHalted s k m =
      (r : Json × Callback) × (q : List (Json × Callback)) × (m ≡ done (halted r q s k))

  halted-step :
      (e : Event Json Callback) (r : Json × Callback) (q : List (Json × Callback)) (s : List Bytes)
      (k : List (Callback × Bool × Bytes))
      → StaysHalted s k (on_event lib reacts e (halted r q s k))
  unfolding on_event send
  halted-step (sends r' cb') r q s k =
      rw (several lib reacts r q (r', cb')) (r, q ++ (r', cb') ∷ [], refl)
  halted-step wrote r q s k = (r, q, refl)
  halted-step write_failed r q s k = (r, q, refl)
  halted-step read_failed r q s k = (r, q, refl)
  halted-step (received text) r q s k = (r, q, refl)

  halted-steps :
      (es : List (Event Json Callback)) (r : Json × Callback) (q : List (Json × Callback))
      (s : List Bytes) (k : List (Callback × Bool × Bytes))
      → StaysHalted s k (on_events lib reacts es (halted r q s k))
  unfolding on_events
  halted-steps [] r q s k = (r, q, refl)
  halted-steps (e ∷ es) r q s k =
      let (r', q', goes) = halted-step e r q s k in rw goes (halted-steps es r' q' s k)

  -- After a write that failed, the connection never writes a request and never calls a callback
  -- again, whatever is sent and whatever happens: the request that failed stays in the queue, and its
  -- callback is not called.
  pub write_failed-halts :
      (es : List (Event Json Callback)) (r : Json) (cb : Callback) (q : List (Json × Callback))
      (s : List Bytes) (k : List (Callback × Bool × Bytes))
      → StaysHalted s k (
          on_events lib reacts (write_failed ∷ es) (record {
            queue = (r, cb) ∷ q;
            writing = some cb;
            reading = none;
            sent = s;
            called = k;
          }))
  unfolding on_events on_event
  write_failed-halts es r cb q s k = halted-steps es (r, cb) q s k
