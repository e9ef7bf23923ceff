-- ===== src/Web/HttpServer/Connections.antt =====
-- HTTPServer::Connection of src/web/http_server.cc: what it does when an operation of its stream
-- ends, and all connections of a server together.
use buenzli_coin.Base.{
  ◌≡◌, ◌≢◌, ◌⊎◌, inl, inr, Bool, refl, List, [], ◌∷◌, ◌++◌, All, ap, Option, none, some, arith,
  Bytes,
}
use buenzli_coin.Base.Exec.{Error}
use buenzli_coin.Json.{JsonLib}
use buenzli_coin.Web.Handling.{Response}
use buenzli_coin.Web.Listening.{
  listening, Server, Event, Reaction, goes, handles, stays, Protocol, serve_events,
}
use buenzli_coin.Web.Listening.InOrder.{
  in_order, heard, handled, Occur, Agrees, serve_events-in_order,
}
use buenzli_coin.Web.Listening.Invariant.{LeavesState-any, KeepsOn, serve_events-Holds}
use buenzli_coin.Web.HttpServer.{Table}
use buenzli_coin.Web.HttpServer.Requests.{Request, Reply, Handler, handle_request}

-- The operation that is on its way, a read or a write; or none, after shutdown() or without it.
pub data Phase : Type 0 where
  reading writing shut over : Phase

pub data End : Type 0 where
  end_of_stream read_failed wrote write_failed : End
  request : Request → End

-- read_request, when the read has ended. After one that fails nothing is started, so that the
-- connection is destroyed.
unfoldable pub after_read : End → Reaction Phase Request
after_read (request q) = handles q
after_read end_of_stream = goes shut
after_read read_failed = goes over
after_read _ = stays

-- write_response, when the write has ended in any way.
unfoldable pub after_write : End → Reaction Phase Request
after_write wrote = goes shut
after_write write_failed = goes shut
after_write _ = stays

unfoldable pub react : Phase → End → Reaction Phase Request
unfolding after_read after_write
react reading e = after_read e
react writing e = after_write e
react shut e = stays
react over e = stays

abbrev pub protocol : Protocol Phase End Request
protocol = record { start = reading; writing = writing; react = react }

abbrev pub request_of : End → Option Request
request_of (request q) = some q
request_of _ = none

react-request_of : (p : Phase) (e : End) → react p e ≢ stays → request_of e ≡ handled (react p e)
unfolding react
react-request_of reading e n = ground arith
react-request_of writing e n = ground arith
react-request_of shut e n = absurd (n refl)
react-request_of over e n = absurd (n refl)

-- How much is written on a connection: nothing before the request is read and one response while it
-- is written; then the stream is shut down, with or without a response, or a read has failed.
abbrev pub AtMostOne : Phase → List Reply → Type 0
AtMostOne reading w = w ≡ []
AtMostOne writing w = (r : Reply) × (w ≡ r ∷ [])
AtMostOne shut w = (w ≡ []) ⊎ ((r : Reply) × (w ≡ r ∷ []))
AtMostOne over w = w ≡ []

pub react-AtMostOne :
    (p : Phase) (w : List Reply) (e : End)
    → AtMostOne p w
    → KeepsOn protocol AtMostOne w (react p e)
unfolding react
react-AtMostOne reading w end_of_stream h = inl h
react-AtMostOne reading w read_failed h = h
react-AtMostOne reading w wrote h = tt
react-AtMostOne reading w write_failed h = tt
react-AtMostOne reading w (request q) h = λ r. (r, ap (λ l. l ++ r ∷ []) h)
react-AtMostOne writing w end_of_stream h = tt
react-AtMostOne writing w read_failed h = tt
react-AtMostOne writing w wrote h = inr h
react-AtMostOne writing w write_failed h = inr h
react-AtMostOne writing w (request q) h = tt
react-AtMostOne shut w e h = tt
react-AtMostOne over w e h = tt

module _ (lib : JsonLib) (what : Error → Bytes) (is_parse_error : Error → Bool) {State : Type 0}
    (table : Table (Handler lib what is_parse_error State)) where
  unfoldable pub answer : Request → State → Response State Reply
  unfolding handle_request
  answer q s = handle_request lib what is_parse_error table q s

  -- The connections of a server.
  unfoldable pub serve_all : List (Event End) → Server Phase State Reply → Server Phase State Reply
  unfolding serve_events
  serve_all es srv = serve_events protocol answer es srv

  -- A connection to the HTTP server is used for one request: however many clients connect, however
  -- their requests are interleaved and whichever operations fail, nothing is written before a request
  -- is read, at most one response is written, and when it has been, or no request came, the stream is
  -- shut down. The state of the server and what is written on every connection are those of a server
  -- that handles the requests one after the other, in the order in which they arrive. If a handler
  -- throws an exception that handle_request does not catch, or does not end, then so do both. The
  -- premise is that the run has not ended when an event comes, and that every operation that ends is
  -- on its way.
  pub serve_all-one_response :
      (es : List (Event End)) (s : State)
      → Occur protocol answer es (listening s)
      → Agrees protocol answer
          (listening s)
          (serve_all es (listening s))
          (in_order answer (heard request_of es) s)
        × All (λ c. AtMostOne c.phase c.written) (serve_all es (listening s)).sessions
  unfolding serve_all
  serve_all-one_response es s o = (
    serve_events-in_order protocol answer request_of react-request_of es (listening s) refl o,
    (serve_events-Holds protocol answer (λ s. Unit) AtMostOne refl
        (λ q s' p. LeavesState-any (answer q s')) react-AtMostOne es (listening s) (tt, tt)).1,
  )
