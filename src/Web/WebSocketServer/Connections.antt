-- ===== src/Web/WebSocketServer/Connections.antt =====
-- WebSocketServer::Connection of src/web/websocket_server.cc: what it does when an operation of its
-- stream ends, and all connections of a server together.
use buenzli_coin.Base.{◌≡◌, ◌≢◌, refl, List, Option, none, some, Bytes, arith}
use buenzli_coin.Base.Exec.{Error}
use buenzli_coin.Json.{JsonLib}
use buenzli_coin.Web.Handling.{Response, responds, escapes, no_response, LeavesState}
use buenzli_coin.Web.Listening.{
  Server, running, Event, Reaction, goes, handles, stays, Protocol, serve_events,
}
use buenzli_coin.Web.Listening.InOrder.{
  in_order, heard, handled, Occur, Agrees, serve_events-in_order,
}
use buenzli_coin.Web.WebSocketServer.{Table, Handler, on_read}

-- The operation that is on its way: the handshake, a read, a write, or none.
pub data Phase : Type 0 where
  handshaking reading writing over : Phase

-- How it ends. `message` is what is then in m_buffer, which on_read empties.
pub data End : Type 0 where
  accepted accept_failed closed read_failed wrote write_failed : End
  message : Bytes → End

-- on_run, when the handshake has ended. After an error nothing is started, here and below, so that
-- the connection is destroyed.
unfoldable pub after_handshake : End → Reaction Phase Bytes
after_handshake accepted = goes reading
after_handshake accept_failed = goes over
after_handshake _ = stays

-- on_accept, when a read has ended.
unfoldable pub after_read : End → Reaction Phase Bytes
after_read (message text) = handles text
after_read closed = goes over
after_read read_failed = goes over
after_read _ = stays

-- on_read, when a write has ended, with on_write.
unfoldable pub after_write : End → Reaction Phase Bytes
after_write wrote = goes reading
after_write write_failed = goes over
after_write _ = stays

unfoldable pub react : Phase → End → Reaction Phase Bytes
unfolding after_handshake after_read after_write
react handshaking e = after_handshake e
react reading e = after_read e
react writing e = after_write e
react over e = stays

abbrev pub protocol : Protocol Phase End Bytes
protocol = record { start = handshaking; writing = writing; react = react }

-- The messages of the clients.
abbrev pub message_of : End → Option Bytes
message_of (message text) = some text
message_of _ = none

react-message_of : (p : Phase) (e : End) → react p e ≢ stays → message_of e ≡ handled (react p e)
unfolding react
react-message_of handshaking e n = ground arith
react-message_of reading e n = ground arith
react-message_of writing e n = ground arith
react-message_of over e n = absurd (n refl)

module _ (lib : JsonLib) (what : Error → Bytes) {State : Type 0} where
  open lib use {Json, dump}

  abbrev pub dumped : Response State Json → Response State Bytes
  dumped (responds r s) = responds (dump r) s
  dumped (escapes s) = escapes s
  dumped no_response = no_response

  pub dumped-LeavesState :
      (P : State → Type 0) (r : Response State Json) → LeavesState P r → LeavesState P (dumped r)
  dumped-LeavesState P (responds r s) p = p
  dumped-LeavesState P (escapes s) p = p
  dumped-LeavesState P no_response p = tt

  -- Connection::on_read: the text that is written.
  unfoldable pub answer : Table (Handler lib State) → Bytes → State → Response State Bytes
  unfolding on_read
  answer table text s = dumped (on_read lib what table text s)

  -- The connections of a server that starts in the state `s`.
  unfoldable pub serve_all :
      Table (Handler lib State)
      → List (Event End)
      → Server Phase State Bytes
      → Server Phase State Bytes
  unfolding serve_events
  serve_all table es srv = serve_events protocol (answer table) es srv

  -- However many clients connect, however their messages are interleaved and whichever operations
  -- fail: the state of the server and what is written on every connection are those of a server that
  -- handles the messages one after the other, in the order in which they arrive, and writes every
  -- answer on the connection of its message. If a handler throws an exception that on_read does not
  -- catch, or does not end, then so do both. The premise is that the run has not ended when an event
  -- comes, and that every operation that ends is on its way.
  pub serve_all-in_order :
      (table : Table (Handler lib State)) (es : List (Event End)) (srv : Server Phase State Bytes)
      → srv.run ≡ running
      → Occur protocol (answer table) es srv
      → Agrees protocol
          (answer table)
          srv
          (serve_all table es srv)
          (in_order (answer table) (heard message_of es) srv.state)
  unfolding serve_all
  serve_all-in_order table es srv runs o =
      serve_events-in_order protocol (answer table) message_of react-message_of es srv runs o
