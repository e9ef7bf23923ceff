-- ===== src/Examples/Wire.antt =====
-- Messages that cross between src/web/websocket_client.cc and src/web/websocket_server.cc, with a JSON
-- library that reads its texts back.
use buenzli_coin.Base.{ℕ, suc, List, [], ◌∷◌, ◌++◌, Bytes, bytes_eq, codes, some, if◌then◌else◌}
use buenzli_coin.Base.Exec.{Result, ok, err, Error}
use buenzli_coin.Examples.{
  Value, nothing, bytes, whole, items, members, Items, no_items, item, Members, no_members, entry,
  json,
}
use buenzli_coin.Json.{JsonLib}
use buenzli_coin.Web.Handling.{Handling, returned}
use buenzli_coin.Web.WebSocketServer.{Table, Handler}
use buenzli_coin.Web.WebSocketServer.Calls.{message}

abbrev mutual
  pub encode : Value → Bytes
  encode nothing = 0 ∷ []
  encode (bytes s) = 1 ∷ s ++ 0 ∷ []
  encode (whole n) = 2 ∷ n ∷ []
  encode (items l) = 3 ∷ encode_items l
  encode (members m) = 4 ∷ encode_members m

  encode_items : Items → Bytes
  encode_items no_items = 0 ∷ []
  encode_items (item v l) = encode v ++ encode_items l

  encode_members : Members → Bytes
  encode_members no_members = 0 ∷ []
  encode_members (entry k v m) = codes k ++ encode v ++ encode_members m

-- The first value with the text.
abbrev pub look : List Value → Bytes → Result Value
look [] text = err json.type_error
look (v ∷ vs) text = if bytes_eq (encode v) text then ok v else look vs text

-- A library that reads the texts of the values.
abbrev pub wire : List Value → JsonLib
wire known = record json { dump = encode; parse = look known }

abbrev pub what : Error → Bytes
what e = codes "what"

abbrev pub request : Value
request = message json (codes "/count") (some (bytes (codes "x")))

abbrev pub response : Value
response = json.object (("status", bytes (codes "ok")) ∷ ("data", bytes (codes "y")) ∷ [])

abbrev pub lib : JsonLib
lib = wire (request ∷ response ∷ [])

-- A handler that counts.
abbrev pub count : Value → ℕ → Handling ℕ Value Error
count j n = returned (suc n) (bytes (codes "y"))

abbrev pub table : Table (Handler lib ℕ)
table = (codes "/count", count) ∷ []
