-- ===== src/Web/HttpServer/Requests.antt =====
-- HTTPServer::Connection::handle_request of src/web/http_server.cc, with HTTPServer::handle. The fields of
-- the response that are always the same are left out.
use buenzli_coin.Base.{Bool, ◌⊎◌, inl, inr, [], ◌∷◌, ◌++◌, if◌then◌else◌, Bytes, bytes_eq, codes}
use buenzli_coin.Base.Exec.{Result, ok, err, Error}
use buenzli_coin.Json.{JsonLib}
use buenzli_coin.Web.Handling.{
  Handling, returned, web_error, json_error, other_error, stops, Response, responds, escapes,
  no_response,
}
use buenzli_coin.Web.HttpServer.{
  Method, Status, ok_status, not_found, bad_request, unsupported_media_type, Table, route,
}

-- What handle_request reads of m_request.
pub record Request : Type 0 where
  pub target : Bytes
  pub method : Method
  pub method_string : Bytes
  pub content_type : Bytes
  pub body : Bytes

-- result_status, result_content_type and result_data
pub record Reply : Type 0 where
  pub status : Status
  pub content_type : Bytes
  pub text : Bytes

-- `what` is the text of an exception, and `is_parse_error` tells json::parse_error from the other
-- exceptions of json::parse.
module _ (lib : JsonLib) (what : Error → Bytes) (is_parse_error : Error → Bool) where
  open lib use {Json, null, parse, dump}

  abbrev pub Handler : Type 0 → Type 0
  Handler State = Json → State → Handling State (Status × Json) (Status × Error)

  abbrev plain : Status → Bytes → Reply
  plain status text = record { status = status; content_type = codes "text/plain"; text = text }

  -- How the first part of handle_request ends: with the data, with the response, or by an exception
  -- that it does not catch.
  pub data Body : Type 0 where
    given : Json → Body
    refused : Reply → Body
    thrown : Body

  unfoldable pub parsed : Result Json → Body
  parsed (ok j) = given j
  parsed (err e) =
      if is_parse_error e
      then refused (plain bad_request (codes "Failed to parse JSON: " ++ what e))
      else thrown

  -- The first part of handle_request.
  unfoldable pub read_body : Request → Bytes → Body
  unfolding parsed
  read_body request [] = given null
  read_body request (b ∷ body) =
      if bytes_eq request.content_type (codes "application/json")
      then parsed (parse (b ∷ body))
      else refused (
          plain unsupported_media_type
            (codes "Unsupported media type '" ++ request.content_type ++ codes "'"))

  -- The switch over result_status; `text` is what result_data holds before it.
  unfoldable pub finish : Request → Status → Bytes → Json → Reply
  finish request ok_status text answer = record {
    status = ok_status;
    content_type = codes "application/json";
    text = text ++ dump answer;
  }
  finish request not_found text answer = plain not_found (text ++ codes "File not found")
  finish request bad_request text answer =
      plain bad_request
        (text ++ codes "Invalid request method '" ++ request.method_string ++ codes "'")
  finish request unsupported_media_type text answer = plain unsupported_media_type text

  module _ {State : Type 0} where
    -- The second part of handle_request, once the handler has ended.
    unfoldable pub respond :
        Request → Handling State (Status × Json) (Status × Error) → Response State Reply
    unfolding finish
    respond request (returned s (code, answer)) = responds (finish request code [] answer) s
    respond request (web_error (code, e) s) = responds (finish request code (what e) null) s
    respond request (json_error s) = escapes s
    respond request (other_error s) = escapes s
    respond request stops = no_response

    -- HTTPServer::handle, and what becomes of its result.
    unfoldable pub run_route :
        Request → Json → State → Status ⊎ Handler State → Response State Reply
    unfolding respond finish
    run_route request j s (inl code) = responds (finish request code [] null) s
    run_route request j s (inr h) = respond request (h j s)

    unfoldable pub handle_body :
        Table (Handler State) → Request → State → Body → Response State Reply
    unfolding route run_route
    handle_body table request s (given j) =
        run_route request j s (route request.target request.method table)
    handle_body table request s (refused reply) = responds reply s
    handle_body table request s thrown = escapes s

    -- Connection::handle_request
    unfoldable pub handle_request : Table (Handler State) → Request → State → Response State Reply
    unfolding read_body handle_body
    handle_request table request s = handle_body table request s (read_body request request.body)
