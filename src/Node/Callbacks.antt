-- ===== src/Node/Callbacks.antt =====
-- The requests of src/node.cc that run on threads of their own: which peers a request goes to, and what
-- its callback does when the answer comes.
use buenzli_coin.Base.{List, [], ◌∷◌, map, Bool, true, false, Option, none, some, Bytes, get_last?}
use buenzli_coin.Base.Exec.{Exec, done, undefined, map_exec, Result, ok, err}
use buenzli_coin.Config.{Config}
use buenzli_coin.Crypto.Keypair.{OpenSsl}
use buenzli_coin.Difficulty.{Floats}
use buenzli_coin.Json.{JsonLib}
use buenzli_coin.Node.{
  Node, Task, Handled, answers, refuses, escapes, ill_defined, still_mining, broadcast_latest_block,
  request_latest_block, request_all_blocks, broadcast_transaction,
}
use buenzli_coin.Node.Messages.{
  broadcast_latest_block_request, request_latest_block_request, request_all_blocks_request,
  broadcast_transaction_request,
}
use buenzli_coin.Node.Receive.{handle_receive_latest_block, handle_receive_all_blocks}
use buenzli_coin.Node.Served.{IsSound, soundness}
use buenzli_coin.Node.Servers.{Surroundings}
use buenzli_coin.Node.Settles.{Settles}
use buenzli_coin.Node.System.{handle, latest_block_message, all_blocks_message, left}
use buenzli_coin.Web.Peers.{Peer, Peers, peer_of}

-- The callbacks: those of the broadcasts, which log a failure, and those of the two requests.
pub data Callback : Type 0 where
  logs takes_latest_block takes_all_blocks : Callback

-- A call of WebSocketPeers::send for one peer.
pub record Sending (Json : Type 0) : Type 0 where
  pub peer : Peer
  pub request : Json
  pub callback : Callback

-- The loop over all peers of a broadcast.
unfoldable pub broadcast : {Json : Type 0} → Json → Peers → List (Sending Json)
broadcast request = map λ peer. record { peer = peer; request = request; callback = logs }

-- `send` to one peer; an identifier that no peer has is undefined behaviour.
unfoldable pub send_one :
    {Json : Type 0} → Json → Callback → Option Peer → Exec (List (Sending Json))
send_one request cb none = undefined
send_one request cb (some peer) =
    done (record { peer = peer; request = request; callback = cb } ∷ [])

-- Where a call ends, the node has the property.
abbrev pub Leaves : {Double : Type 0} → (Node Double → Type 0) → Option (Node Double) → Type 0
Leaves P none = Unit
Leaves P (some node) = P node

module _ (ssl : OpenSsl) (lib : JsonLib) {Double : Type 0} (floats : Floats Double)
    (config : Config Double) (around : Surroundings) where
  open lib use {Json, parse}

  -- What a task of a handler sends, and to whom.
  unfoldable pub run_task : Task → Node Double → Exec (List (Sending Json))
  unfolding broadcast send_one
  run_task broadcast_latest_block node =
      map_exec (λ request. broadcast request node.peers)
        (broadcast_latest_block_request ssl lib floats config around.host around.port
          (get_last? node.chain.blocks))
  run_task (request_latest_block id) node =
      send_one (request_latest_block_request ssl lib floats config) takes_latest_block
        (peer_of id node.peers)
  run_task (request_all_blocks id) node =
      send_one (request_all_blocks_request ssl lib floats config) takes_all_blocks
        (peer_of id node.peers)
  run_task (broadcast_transaction t) node =
      done (broadcast (broadcast_transaction_request ssl lib floats config t) node.peers)

  -- `try { handle(json::parse(answer)); } catch (...) {}`: the node, if the call ends.
  unfoldable pub try_answer :
      (Json → Node Double → Handled Json Double) → Node Double → Result Json → Option (Node Double)
  unfolding left
  try_answer h node (err e) = some node
  try_answer h node (ok j) = left (h j node)

  -- What a callback that is told of an answer or of a failure makes of the node.
  unfoldable pub call_back : Callback → Bool × Bytes → Node Double → Option (Node Double)
  unfolding try_answer
  call_back logs told node = some node
  call_back takes_latest_block (false, text) node = some node
  call_back takes_latest_block (true, text) node =
      try_answer (handle_receive_latest_block ssl lib floats config around.connect around.clock)
        node (parse text)
  call_back takes_all_blocks (false, text) node = some node
  call_back takes_all_blocks (true, text) node =
      try_answer (handle_receive_all_blocks ssl lib floats config around.clock around.later_clock)
        node (parse text)

  left-Leaves :
      (P : Node Double → Type 0) (h : Handled Json Double) → Settles P h → Leaves P (left h)
  unfolding left
  left-Leaves P (answers node j tasks) p = p
  left-Leaves P (refuses e node) p = p
  left-Leaves P (escapes e node) p = p
  left-Leaves P ill_defined p = tt
  left-Leaves P still_mining p = tt

  try_answer-Leaves :
      (P : Node Double → Type 0) (h : Json → Node Double → Handled Json Double) (node : Node Double)
      (r : Result Json)
      → ((j : Json) → Settles P (h j node))
      → P node
      → Leaves P (try_answer h node r)
  unfolding try_answer
  try_answer-Leaves P h node (err e) k p = p
  try_answer-Leaves P h node (ok j) k p = left-Leaves P (h j node) (k j)

  -- Whatever a callback is told, it leaves a sound node.
  pub call_back-IsSound :
      (cb : Callback) (told : Bool × Bytes) (node : Node Double)
      → IsSound ssl lib floats config node
      → Leaves (IsSound ssl lib floats config) (call_back cb told node)
  unfolding call_back handle
  call_back-IsSound logs told node p = p
  call_back-IsSound takes_latest_block (false, text) node p = p
  call_back-IsSound takes_latest_block (true, text) node p =
      try_answer-Leaves (IsSound ssl lib floats config)
        (handle_receive_latest_block ssl lib floats config around.connect around.clock) node
        (parse text)
        (λ j.
          soundness ssl lib floats config around.connect around.send
            (latest_block_message around.clock j) node p)
        p
  call_back-IsSound takes_all_blocks (false, text) node p = p
  call_back-IsSound takes_all_blocks (true, text) node p =
      try_answer-Leaves (IsSound ssl lib floats config)
        (handle_receive_all_blocks ssl lib floats config around.clock around.later_clock) node
        (parse text)
        (λ j.
          soundness ssl lib floats config around.connect around.send
            (all_blocks_message around.clock around.later_clock j) node p)
        p
