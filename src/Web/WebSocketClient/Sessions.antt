-- ===== src/Web/WebSocketClient/Sessions.antt =====
-- WebSocketPeer::send of include/web/websocket_peer.h: a call of `send` on the connection of a peer,
-- and then io_context::run until no operation is on its way. The mutex keeps the calls apart.
use buenzli_coin.Base.{◌≡◌, Bool, List, [], ◌∷◌, All, none, Bytes}
use buenzli_coin.Base.Exec.{Exec, done, throws, undefined, bind_exec}
use buenzli_coin.Json.{JsonLib}
use buenzli_coin.Web.WebSocketClient.{
  Connection, Event, sends, wrote, write_failed, read_failed, received, on_events,
}

-- The end of an operation.
abbrev pub IsEnd : {Json Callback : Type 0} → Event Json Callback → Type 0
IsEnd (sends request cb) = ⊥
IsEnd wrote = Unit
IsEnd write_failed = Unit
IsEnd read_failed = Unit
IsEnd (received text) = Unit

-- A call of WebSocketPeer::send, with the operations that end while it runs.
abbrev pub Session : Type 0 → Type 0 → Type 0
Session Json Callback = Json × Callback × List (Event Json Callback)

-- What the sessions send.
abbrev pub sent_by :
    {Json Callback : Type 0} → List (Session Json Callback) → List (Json × Callback)
sent_by [] = []
sent_by ((request, cb, es) ∷ ss) = (request, cb) ∷ sent_by ss

module _ (lib : JsonLib) {Callback : Type 0}
    (reacts : Callback → Bool × Bytes → List (lib.Json × Callback)) where
  open lib use {Json, dump}

  abbrev pub Conn : Type 0
  Conn = Connection Json Callback

  -- WebSocketPeer::send
  unfoldable pub peer_send : Session Json Callback → Conn → Exec Conn
  unfolding on_events
  peer_send (request, cb, es) c = on_events lib reacts (sends request cb ∷ es) c

  -- Calls of WebSocketPeer::send, one after the other.
  unfoldable pub peer_sends : List (Session Json Callback) → Conn → Exec Conn
  unfolding peer_send
  peer_sends [] c = done c
  peer_sends (s ∷ ss) c = bind_exec (peer_send s c) (peer_sends ss)

  -- No operation is on its way.
  abbrev pub IsAtRest : Exec Conn → Type 0
  IsAtRest (done c) = (c.writing ≡ none) × (c.reading ≡ none)
  IsAtRest (throws e) = Unit
  IsAtRest undefined = Unit

  -- Every call runs until no operation is on its way.
  unfoldable pub RunsOut : List (Session Json Callback) → Exec Conn → Type 0
  unfolding peer_send
  RunsOut [] r = Unit
  RunsOut ((request, cb, es) ∷ ss) (done c) =
      All IsEnd es
      × (IsAtRest (peer_send (request, cb, es) c) × RunsOut ss (peer_send (request, cb, es) c))
  RunsOut (s ∷ ss) (throws e) = Unit
  RunsOut (s ∷ ss) undefined = Unit
