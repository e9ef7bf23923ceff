-- ===== src/Web/WebSocketClient/Sync.antt =====
-- WebSocketClient::send_sync of src/web/websocket_client.cc: it sends a request whose callback fulfils a
-- promise, runs the io_context until no operation is on its way, and waits for the promise.
use buenzli_coin.Base.{
  ◌≡◌, refl, ap, ◌∙◌, Bool, List, [], ◌∷◌, ◌++◌, All, Bytes, if◌then◌else◌, Bool-cases, inl, inr,
  true, arith,
}
use buenzli_coin.Base.Exec.{Exec, done, map_exec}
use buenzli_coin.Json.{JsonLib}
use buenzli_coin.Web.WebSocketClient.{
  Connection, Event, sends, wrote, write_failed, read_failed, received, decode, write, send, read,
  on_write, on_read, send_all, write_next, on_event, on_events,
}
use buenzli_coin.Web.WebSocketClient.Exchange.{resting}
use buenzli_coin.Web.WebSocketClient.Phases.{IsSilent}
use buenzli_coin.Web.WebSocketClient.Sessions.{IsEnd}
use buenzli_coin.Web.WebSocketClient.Stuck.{write_failed-halts}

-- How `done.wait()` ends: with `success` and `answer`, or never.
pub data Awaited : Type 0 where
  ready : Bool → Bytes → Awaited
  waits : Awaited

-- `is_own` tells the callback that fulfils the promise from all others.
module _ {Callback : Type 0} (is_own : Callback → Bool) where
  unfoldable pub wait : List (Callback × Bool × Bytes) → Awaited
  wait [] = waits
  wait ((cb, success, answer) ∷ calls) = if is_own cb then ready success answer else wait calls

  wait-append :
      (calls : List (Callback × Bool × Bytes)) (cb : Callback) (success : Bool) (answer : Bytes)
      → wait calls ≡ waits
      → is_own cb ≡ true
      → wait (calls ++ (cb, success, answer) ∷ []) ≡ ready success answer
  unfolding wait
  wait-append [] cb success answer w o = rw o refl
  wait-append ((cb', s, a) ∷ calls) cb success answer w o = elim (Bool-cases (is_own cb')) [
    | inl e ↦ ground arith
    | inr e ↦ rw e (wait-append calls cb success answer (ground arith) o)
  ]

module _ (lib : JsonLib) {Callback : Type 0}
    (reacts : Callback → Bool × Bytes → List (lib.Json × Callback)) (is_own : Callback → Bool) where
  open lib use {Json, dump}

  abbrev Conn : Type 0
  Conn = Connection Json Callback

  -- WebSocketClient::send_sync, with what happens while it runs.
  unfoldable pub send_sync :
      Json → Callback → List (Event Json Callback) → Conn → Exec (Awaited × Conn)
  unfolding on_events wait
  send_sync request cb es c =
      map_exec (λ c'. (wait is_own c'.called, c')) (on_events lib reacts (sends request cb ∷ es) c)

  module _ (silent : IsSilent lib reacts) where
    -- Nothing ends where no operation is on its way.
    idle :
        (es : List (Event Json Callback)) (s : List Bytes) (k : List (Callback × Bool × Bytes))
        → All IsEnd es
        → on_events lib reacts es (resting lib reacts silent s k)
          ≡ done (resting lib reacts silent s k)
    unfolding on_events on_event
    idle [] s k h = refl
    idle (sends r cb ∷ es) s k h = absurd h.0
    idle (wrote ∷ es) s k h = idle es s k h.1
    idle (write_failed ∷ es) s k h = idle es s k h.1
    idle (read_failed ∷ es) s k h = idle es s k h.1
    idle (received text ∷ es) s k h = idle es s k h.1

    -- The call never returns.
    abbrev pub WaitsFor : Exec (Awaited × Conn) → Type 0
    WaitsFor m = (c : Conn) × (m ≡ done (waits, c))

    abbrev awaited : Conn → Awaited × Conn
    awaited c = (wait is_own c.called, c)

    still_waits :
        (m : Exec Conn) (c : Conn)
        → m ≡ done c
        → wait is_own c.called ≡ waits
        → WaitsFor (map_exec awaited m)
    still_waits m c e w = (c, ap (map_exec awaited) e ∙ ap (λ a. done (a, c)) w)

    -- send_sync on a connection on which nothing is on its way returns what the answer says, if the
    -- write of its request and the read of the answer end well. If the write fails, or the read, then it
    -- waits for ever, whatever happens after that: no timeout and no error ends it.
    pub send_sync_lem :
        (request : Json) (cb : Callback) (s : List Bytes) (k : List (Callback × Bool × Bytes))
        (text : Bytes) (es : List (Event Json Callback))
        → is_own cb ≡ true
        → wait is_own k ≡ waits
        → All IsEnd es
        → (send_sync request cb (wrote ∷ received text ∷ es) (resting lib reacts silent s k)
            ≡ done (
              ready (decode lib text).0 (decode lib text).1,
              resting lib reacts silent
                  (s ++ dump request ∷ [])
                  (k ++ (cb, (decode lib text).0, (decode lib text).1) ∷ []),
            ))
          × WaitsFor (send_sync request cb (write_failed ∷ es) (resting lib reacts silent s k))
          × WaitsFor
              (send_sync request cb (wrote ∷ read_failed ∷ es) (resting lib reacts silent s k))
    unfolding send_sync on_events on_event send write on_write read on_read send_all write_next
    send_sync_lem request cb s k text es own w ends =
        let answered : List (Callback × Bool × Bytes) =
          k ++ (cb, (decode lib text).0, (decode lib text).1) ∷ [] in
        let (_, _, halts) =
          write_failed-halts lib reacts es request cb [] (s ++ dump request ∷ []) k in
        (
          rw (silent cb (decode lib text)) (
              ap (map_exec awaited) (idle es (s ++ dump request ∷ []) answered ends)
              ∙ ap (λ a. done (a, resting lib reacts silent (s ++ dump request ∷ []) answered))
                  (wait-append is_own k cb _ _ w own)),
          still_waits _ _ halts w,
          still_waits _ _ (idle es (s ++ dump request ∷ []) k ends) w,
        )
