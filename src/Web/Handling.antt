-- ===== src/Web/Handling.antt =====
-- How a handler that a server of src/web calls ends.

-- It returns an answer; it throws the error class of the server (WebSocketError or HTTPError), a
-- json::exception or another exception; or it does not end, or in undefined behaviour. The state is
-- what it leaves of the object that it belongs to.
pub data Handling (State Json Failure : Type 0) : Type 0 where
  returned : State → Json → Handling State Json Failure
  web_error : Failure → State → Handling State Json Failure
  json_error other_error : State → Handling State Json Failure
  stops : Handling State Json Failure

-- What a server makes of a request: a response, or an exception that leaves it.
pub data Response (State Reply : Type 0) : Type 0 where
  responds : Reply → State → Response State Reply
  escapes : State → Response State Reply
  no_response : Response State Reply

-- The state after a request, however it ends, has a property.
abbrev pub LeavesState : {State Reply : Type 0} → (State → Type 0) → Response State Reply → Type 0
LeavesState P (responds r s) = P s
LeavesState P (escapes s) = P s
LeavesState P no_response = Unit

-- The same for a handler.
abbrev pub HandlesState :
    {State Json Failure : Type 0} → (State → Type 0) → Handling State Json Failure → Type 0
HandlesState P (returned s j) = P s
HandlesState P (web_error e s) = P s
HandlesState P (json_error s) = P s
HandlesState P (other_error s) = P s
HandlesState P stops = Unit
