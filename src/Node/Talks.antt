-- ===== src/Node/Talks.antt =====
-- What the requests that a Node of src/node.cc sends to a peer do at the peer.
use buenzli_coin.Base.{ℕ, ◌≡◌, refl, List, Bool, Option, none, some, Bytes, bytes_eq, codes}
use buenzli_coin.Base.Exec.{done, Error}
use buenzli_coin.Block.{Block}
use buenzli_coin.Config.{Config}
use buenzli_coin.Crypto.Keypair.{OpenSsl}
use buenzli_coin.Difficulty.{Floats}
use buenzli_coin.Json.{JsonLib}
use buenzli_coin.Node.{Node, Handled}
use buenzli_coin.Node.Messages.{
  block_message, handle_request_latest_block, handle_request_all_blocks,
  broadcast_latest_block_request, request_latest_block_request, request_all_blocks_request,
  broadcast_transaction_request,
}
use buenzli_coin.Node.Receive.{handle_receive_latest_block, handle_receive_transaction}
use buenzli_coin.Node.Servers.{
  Surroundings, to_socket, register_socket, socket_handlers, websocket_setup, serve_socket,
}
use buenzli_coin.Transaction.{Transaction}
use buenzli_coin.Transaction.Codec.{transaction_to_json}
use buenzli_coin.Web.WebSocketServer.{handler_of, support, support_all}
use buenzli_coin.Web.WebSocketServer.Calls.{
  RoundTrips, message, IsReadable, seen, told, on_read-told,
}

module _ (ssl : OpenSsl) (lib : JsonLib) {Double : Type 0} (floats : Floats Double)
    (config : Config Double) (around : Surroundings) (what : Error → Bytes)
    (is_parse_error : Error → Bool) where
  open lib use {Json, dump}

  -- The text of a request is read back, and so is the response to it.
  abbrev pub IsCarried : Json → Node Double → Type 0
  IsCarried request node =
      RoundTrips lib request
      × IsReadable lib what
          (serve_socket ssl lib floats config around what is_parse_error (dump request) node)

  -- What a peer makes of a request: the arguments of the callback, and the peer after it.
  abbrev pub asked : Json → Node Double → Option ((Bool × Bytes) × Node Double)
  asked request node =
      seen lib what
        (serve_socket ssl lib floats config around what is_parse_error (dump request) node)

  -- What the callback is to be told when a handler ends.
  abbrev pub reported : Handled Json Double → Option ((Bool × Bytes) × Node Double)
  unfolding to_socket
  reported h = told lib what (to_socket h)

  request_latest_block-asked :
      (node : Node Double)
      → IsCarried (request_latest_block_request ssl lib floats config) node
      → asked (request_latest_block_request ssl lib floats config) node
        ≡ reported (handle_request_latest_block ssl lib floats config around.host around.port node)
  unfolding request_latest_block_request serve_socket websocket_setup register_socket
      socket_handlers support_all support handler_of bytes_eq
  request_latest_block-asked node (p, q) =
      on_read-told lib what (websocket_setup ssl lib floats config around what is_parse_error)
        (codes "/request-latest-block") none node p q

  request_all_blocks-asked :
      (node : Node Double)
      → IsCarried (request_all_blocks_request ssl lib floats config) node
      → asked (request_all_blocks_request ssl lib floats config) node
        ≡ reported (handle_request_all_blocks ssl lib floats config around.host around.port node)
  unfolding request_all_blocks_request serve_socket websocket_setup register_socket socket_handlers
      support_all support handler_of bytes_eq
  request_all_blocks-asked node (p, q) =
      on_read-told lib what (websocket_setup ssl lib floats config around what is_parse_error)
        (codes "/request-all-blocks") none node p q

  broadcast_transaction-asked :
      (t : Transaction) (node : Node Double)
      → IsCarried (broadcast_transaction_request ssl lib floats config t) node
      → asked (broadcast_transaction_request ssl lib floats config t) node
        ≡ reported
            (handle_receive_transaction ssl lib floats config (transaction_to_json lib t) node)
  unfolding broadcast_transaction_request serve_socket websocket_setup register_socket
      socket_handlers support_all support handler_of bytes_eq
  broadcast_transaction-asked t node (p, q) =
      on_read-told lib what (websocket_setup ssl lib floats config around what is_parse_error)
        (codes "/receive-transaction") (some (transaction_to_json lib t)) node p q

  -- The request of a broadcast of a block, by the node with the address.
  abbrev pub block_request : Bytes → ℕ → Block (List Transaction) → Json
  block_request host port b =
      message lib (codes "/receive-latest-block")
        (some (block_message ssl lib floats config host port b))

  broadcast_latest_block-asked :
      (host : Bytes) (port : ℕ) (b : Block (List Transaction)) (node : Node Double)
      → IsCarried (block_request host port b) node
      → asked (block_request host port b) node
        ≡ reported (
            handle_receive_latest_block ssl lib floats config around.connect around.clock
              (block_message ssl lib floats config host port b)
              node)
  unfolding serve_socket websocket_setup register_socket socket_handlers support_all support
      handler_of bytes_eq
  broadcast_latest_block-asked host port b node (p, q) =
      on_read-told lib what (websocket_setup ssl lib floats config around what is_parse_error)
        (codes "/receive-latest-block") (some (block_message ssl lib floats config host port b))
        node p q

  -- Every request that a node sends runs the handler that is meant by it at the peer, on the data that
  -- were sent, and the callback is told how that handler ended: the request for the latest block, that
  -- for all blocks, the broadcast of a transaction and that of a block. The premises are that the
  -- library reads the texts of the requests and of the responses back.
  pub requests-asked :
      (host : Bytes) (port : ℕ) (b : Block (List Transaction)) (t : Transaction)
      (node : Node Double)
      → IsCarried (request_latest_block_request ssl lib floats config) node
      → IsCarried (request_all_blocks_request ssl lib floats config) node
      → IsCarried (broadcast_transaction_request ssl lib floats config t) node
      → IsCarried (block_request host port b) node
      → (asked (request_latest_block_request ssl lib floats config) node
          ≡ reported
              (handle_request_latest_block ssl lib floats config around.host around.port node))
        × (asked (request_all_blocks_request ssl lib floats config) node
            ≡ reported
                (handle_request_all_blocks ssl lib floats config around.host around.port node))
        × (asked (broadcast_transaction_request ssl lib floats config t) node
            ≡ reported
                (handle_receive_transaction ssl lib floats config (transaction_to_json lib t) node))
        × (broadcast_latest_block_request ssl lib floats config host port (some b)
            ≡ done (block_request host port b))
        × (asked (block_request host port b) node
            ≡ reported (
                handle_receive_latest_block ssl lib floats config around.connect around.clock
                  (block_message ssl lib floats config host port b)
                  node))
  unfolding broadcast_latest_block_request
  requests-asked host port b t node p q r s = (
    request_latest_block-asked node p,
    request_all_blocks-asked node q,
    broadcast_transaction-asked t node r,
    refl,
    broadcast_latest_block-asked host port b node s,
  )
