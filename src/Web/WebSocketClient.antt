-- ===== src/Web/WebSocketClient.antt =====
-- class WebSocketClient of include/web/websocket_client.h and src/web/websocket_client.cc: the
-- Connection, with its queue of requests, as a machine that moves at a call of `send` and at the end
-- of an asynchronous operation of the stream. Resolving, connecting and the handshake are left out.
pub mod Phases
pub mod Exchange
pub mod Stuck
pub mod Sessions
pub mod Sync
use buenzli_coin.Base.{
  Bool, true, false, List, [], ◌∷◌, ◌++◌, Option, none, some, if◌then◌else◌, Bytes, bytes_eq, codes,
  ltb, length, is_empty,
}
use buenzli_coin.Base.Exec.{
  Result, ok, err, Exec, done, undefined, bind_exec, bind_result, map_result,
}
use buenzli_coin.Json.{JsonLib}

-- A Connection: `queue` is m_send_queue; `writing` and `reading` hold the callbacks that the
-- operations of the stream which have not ended were given; `sent` is what was passed to the stream,
-- and `called` is the calls of callbacks that were made.
pub record Connection (Json Callback : Type 0) : Type 0 where
  pub queue : List (Json × Callback)
  pub writing : Option Callback
  pub reading : Option Callback
  pub sent : List Bytes
  pub called : List (Callback × Bool × Bytes)

-- What happens to a connection: a call of `send`, or a write or a read of the stream that ends.
pub data Event (Json Callback : Type 0) : Type 0 where
  sends : Json → Callback → Event Json Callback
  wrote write_failed read_failed : Event Json Callback
  received : Bytes → Event Json Callback

-- The constructor of Connection.
abbrev pub opened : {Json Callback : Type 0} → Connection Json Callback
opened = record { queue = []; writing = none; reading = none; sent = []; called = [] }

abbrev pub or_malformed : Bytes → Result (Bool × Bytes) → Bool × Bytes
or_malformed text (ok answer) = answer
or_malformed text (err e) = (false, codes "Malformed response + '" ++ text ++ codes "'")

module _ (lib : JsonLib) where
  open lib use {Json, parse, member, get_string, dump}

  -- The try block of `on_read` after the status is read.
  unfoldable pub read_data : Json → Bytes → Result (Bool × Bytes)
  read_data response status = bind_result (member response "data") λ answer.
      if bytes_eq status (codes "ok")
      then ok (true, dump answer)
      else map_result (λ text. (false, text)) (get_string answer)

  -- The arguments of the callback in `on_read`.
  unfoldable pub decode : Bytes → Bool × Bytes
  unfolding read_data
  decode text = or_malformed text (
      bind_result (parse text) λ response.
        bind_result (bind_result (member response "status") get_string) (read_data response))

  -- `reacts` is the calls of `send` that a callback makes on the same connection.
  module _ {Callback : Type 0} (reacts : Callback → Bool × Bytes → List (Json × Callback)) where
    abbrev Conn : Type 0
    Conn = Connection Json Callback

    abbrev write_front : List (Json × Callback) → Option Callback → Conn → Exec Conn
    write_front ((request, cb) ∷ rest) none c =
        done (record c { writing = some cb; sent = c.sent ++ dump request ∷ [] })
    write_front ((request, cb) ∷ rest) (some other) c = undefined
    write_front [] writing c = undefined

    -- Connection::write: `front` of an empty queue is undefined behaviour, and so is a write while
    -- another one has not ended.
    unfoldable pub write : Conn → Exec Conn
    write c = write_front c.queue c.writing c

    -- Connection::send
    unfoldable pub send : Json → Callback → Conn → Exec Conn
    unfolding write
    send request cb c =
        let c' : Conn = record c { queue = c.queue ++ (request, cb) ∷ [] } in
        if ltb 1 (length c'.queue) then done c' else write c'

    -- Connection::read: a read while another one has not ended is undefined behaviour.
    unfoldable pub read : Callback → Option Callback → Conn → Exec Conn
    read cb none c = done (record c { reading = some cb })
    read cb (some other) c = undefined

    abbrev pop_read : Callback → List (Json × Callback) → Conn → Exec Conn
    unfolding read
    pop_read cb [] c = undefined
    pop_read cb (r ∷ rest) c = read cb c.reading (record c { queue = rest })

    -- Connection::on_write: `pop` of an empty queue is undefined behaviour.
    unfoldable pub on_write : Callback → Conn → Exec Conn
    unfolding read
    on_write cb c = pop_read cb c.queue (record c { writing = none })

    -- The calls of `send` that a callback makes, in their order.
    unfoldable pub send_all : List (Json × Callback) → Conn → Exec Conn
    unfolding send
    send_all [] c = done c
    send_all ((request, cb) ∷ rs) c = bind_exec (send request cb c) (send_all rs)

    -- The end of `on_read`.
    unfoldable pub write_next : Conn → Exec Conn
    unfolding write
    write_next c = if is_empty c.queue then done c else write c

    -- Connection::on_read
    unfoldable pub on_read : Callback → Bytes → Conn → Exec Conn
    unfolding send_all write_next
    on_read cb text c =
        let answer = decode text in
        bind_exec
          (send_all (reacts cb answer)
            (record c { reading = none; called = c.called ++ (cb, answer.0, answer.1) ∷ [] }))
          write_next

    abbrev end_write : Option Callback → Conn → Exec Conn
    unfolding on_write
    end_write none c = done c
    end_write (some cb) c = on_write cb c

    abbrev end_read : Bytes → Option Callback → Conn → Exec Conn
    unfolding on_read
    end_read text none c = done c
    end_read text (some cb) c = on_read cb text c

    -- One event. An operation that is not there does not end; one that fails is only logged.
    unfoldable pub on_event : Event Json Callback → Conn → Exec Conn
    unfolding on_write on_read send
    on_event (sends request cb) c = send request cb c
    on_event wrote c = end_write c.writing c
    on_event write_failed c = done (record c { writing = none })
    on_event (received text) c = end_read text c.reading c
    on_event read_failed c = done (record c { reading = none })

    -- Events one after the other.
    unfoldable pub on_events : List (Event Json Callback) → Conn → Exec Conn
    unfolding on_event
    on_events [] c = done c
    on_events (e ∷ es) c = bind_exec (on_event e c) (on_events es)
