-- ===== src/Web/Listening.antt =====
-- What HTTPServer (src/web/http_server.cc) and WebSocketServer (src/web/websocket_server.cc) have in
-- common: an acceptor that makes a Connection of every socket, and one io_context, on which the
-- operations of all connections end, one after the other.
pub mod InOrder
pub mod Invariant
use buenzli_coin.Base.{ℕ, zero, suc, ◌+◌, List, [], ◌∷◌, ◌++◌, Option, none, some, get_elem?}
use buenzli_coin.Web.Handling.{Response, responds, escapes, no_response}

-- A Connection: what it waits for, and what its stream was given to write.
pub record Session (Phase Reply : Type 0) : Type 0 where
  pub phase : Phase
  pub written : List Reply

-- Whether io_context::run goes on, was stopped, was left by an exception, or is in a handler that does
-- not end.
pub data Run : Type 0 where
  running stopped thrown held : Run

-- The connections are in the order in which they were accepted. `state` is what the handlers change.
pub record Server (Phase State Reply : Type 0) : Type 0 where
  pub run : Run
  pub state : State
  pub sessions : List (Session Phase Reply)

-- A socket is accepted, or accepting fails, or an operation of a connection ends.
pub data Event (End : Type 0) : Type 0 where
  connected connect_failed : Event End
  ends : ℕ → End → Event End

-- What a connection does when an operation ends: it goes to another phase, it handles what it has
-- read, or nothing since no such operation is on its way.
pub data Reaction (Phase Input : Type 0) : Type 0 where
  goes : Phase → Reaction Phase Input
  handles : Input → Reaction Phase Input
  stays : Reaction Phase Input

abbrev pub set_elem : {A : Type 0} → ℕ → A → List A → List A
set_elem i a [] = []
set_elem zero a (x ∷ xs) = a ∷ xs
set_elem (suc i) a (x ∷ xs) = x ∷ set_elem i a xs

-- `start` is the phase of a new connection, `writing` the one in which a response is written.
pub record Protocol (Phase End Input : Type 0) : Type 0 where
  pub start : Phase
  pub writing : Phase
  pub react : Phase → End → Reaction Phase Input

module _ {Phase End Input State Reply : Type 0} (protocol : Protocol Phase End Input)
    (answer : Input → State → Response State Reply) where
  open protocol use {start, writing, react}

  abbrev pub Listener : Type 0
  Listener = Server Phase State Reply

  -- The write of a response is started; an exception leaves io_context::run.
  unfoldable pub on_response : ℕ → Session Phase Reply → Response State Reply → Listener → Listener
  on_response i c (responds r s) srv =
      let c' : Session Phase Reply = record { phase = writing; written = c.written ++ r ∷ [] } in
      record { run = srv.run; state = s; sessions = set_elem i c' srv.sessions }
  on_response i c (escapes s) srv = record srv { run = thrown; state = s }
  on_response i c no_response srv = record srv { run = held }

  unfoldable pub on_reaction : ℕ → Session Phase Reply → Reaction Phase Input → Listener → Listener
  unfolding on_response
  on_reaction i c (goes p) srv = record srv {
    sessions = set_elem i (record c { phase = p }) srv.sessions;
  }
  on_reaction i c (handles x) srv = on_response i c (answer x srv.state) srv
  on_reaction i c stays srv = srv

  unfoldable pub on_end : ℕ → End → Option (Session Phase Reply) → Listener → Listener
  unfolding on_reaction
  on_end i e none srv = srv
  on_end i e (some c) srv = on_reaction i c (react c.phase e) srv

  -- Connection::accept goes on in any case.
  unfoldable pub serve_event : Event End → Listener → Listener
  unfolding on_end
  serve_event connected srv = record srv {
    sessions = srv.sessions ++ record { phase = start; written = [] } ∷ [];
  }
  serve_event connect_failed srv = srv
  serve_event (ends i e) srv = on_end i e (get_elem? srv.sessions i) srv

  unfoldable pub serve_events : List (Event End) → Listener → Listener
  unfolding serve_event
  serve_events [] srv = srv
  serve_events (e ∷ es) srv = serve_events es (serve_event e srv)

-- Nothing has been accepted yet.
abbrev pub listening : {Phase State Reply : Type 0} → State → Server Phase State Reply
listening s = record { run = running; state = s; sessions = [] }

-- `stop`, once the handler that runs has ended
abbrev pub stop : {Phase State Reply : Type 0} → Server Phase State Reply → Server Phase State Reply
stop srv = record srv { run = stopped }
