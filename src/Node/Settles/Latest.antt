-- ===== src/Node/Settles/Latest.antt =====
-- The rule for handle_receive_latest_block and the one for handle_peers_post, of src/node.cc.
use buenzli_coin.Base.{
  ℕ, ◌<◌, ◌≡◌, refl, ltb, ltb→lt, Bool-cases, inl, inr, ◌==◌, List, [], ◌∷◌, Bytes, Option, none,
  some, length, get_last?,
}
use buenzli_coin.Base.Exec.{
  Exec, done, throws, undefined, bind_exec, Error, Outcome, returns, raises, faults, runs_on,
  Verdict, valid, invalid,
}
use buenzli_coin.Block.{Block, block_from_json}
use buenzli_coin.Blockchain.{Chain, append_next_block}
use buenzli_coin.Clock.{TimePoint}
use buenzli_coin.Config.{Config}
use buenzli_coin.Crypto.Keypair.{OpenSsl}
use buenzli_coin.Difficulty.{Floats}
use buenzli_coin.Json.{JsonLib, subscript}
use buenzli_coin.Ledger.{list_data}
use buenzli_coin.Node.{Node, Task, request_all_blocks, apply_received}
use buenzli_coin.Node.Http.{after_connect, add_address, handle_peers_post}
use buenzli_coin.Node.Receive.{
  extends, absorb, after_append, after_peer, ahead, place, place_valid, linked, receive_block,
  origin_of, handle_receive_latest_block,
}
use buenzli_coin.Node.Settles.{Settles, after_step-Settles}
use buenzli_coin.Node.Steady.{apply_received-NeverThrows}
use buenzli_coin.Transaction.{Transaction}
use buenzli_coin.Web.Peers

module _ (ssl : OpenSsl) (lib : JsonLib) {Double : Type 0} (floats : Floats Double)
    (config : Config Double) (connect : Bytes → ℕ → Option Error) (P : Node Double → Type 0) where
  absorb-Settles :
      (b : Block (List Transaction)) (node : Node Double) (tasks : List Task)
      → ((node' : Node Double) → apply_received b.payload node ≡ done node' → P node')
      → Settles P (absorb ssl lib floats config connect b node tasks)
  unfolding absorb
  absorb-Settles b node tasks h =
      after_step-Settles P node (apply_received b.payload node) lib.null tasks
        (apply_received-NeverThrows b.payload node) h

  after_append-Settles :
      (b : Block (List Transaction)) (node : Node Double)
      (o : Outcome (Chain (List Transaction) Double))
      → ((chain : Chain (List Transaction) Double)
          → o ≡ returns chain
          → (node' : Node Double)
          → apply_received b.payload (record node { chain = chain }) ≡ done node'
          → P node')
      → ((e : Error) (chain : Chain (List Transaction) Double)
          → o ≡ raises e chain
          → P (record node { chain = chain }))
      → Settles P (after_append ssl lib floats config connect b node o)
  unfolding after_append
  after_append-Settles b node (returns chain) h k = absorb-Settles b _ [] (h chain refl)
  after_append-Settles b node (raises e chain) h k = k e chain refl
  after_append-Settles b node faults h k = tt
  after_append-Settles b node runs_on h k = tt

  -- The block is applied to the node with other peers.
  abbrev Applies : Block (List Transaction) → Node Double → Type 0
  Applies b node =
      (peers' : Peers.Peers) (node' : Node Double)
      → apply_received b.payload (record node { peers = peers' }) ≡ done node'
      → P node'

  after_peer-Settles :
      (b : Block (List Transaction)) (node : Node Double) (added : Peers.Peers × ℕ)
      (e : Option Error)
      → P node
      → Applies b node
      → Settles P (after_peer ssl lib floats config connect b node added e)
  unfolding after_peer
  after_peer-Settles b node (peers', id) none p h = absorb-Settles b _ _ (h peers')
  after_peer-Settles b node (peers', id) (some e) p h = p

  ahead-Settles :
      (b : Block (List Transaction)) (node : Node Double) (r : Exec (Bytes × ℕ))
      → P node
      → Applies b node
      → Settles P (ahead ssl lib floats config connect b node r)
  unfolding ahead
  ahead-Settles b node (throws e) p h = p
  ahead-Settles b node undefined p h = tt
  ahead-Settles b node (done (host, port)) p h =
      elim (Bool-cases (Peers.find host port node.peers == 0)) [
        | inl e ↦
            rw e
              (after_peer-Settles b node (Peers.add host port node.peers) (connect host port) p h)
        | inr e ↦ rw e (
            absorb-Settles b node (request_all_blocks (Peers.find host port node.peers) ∷ [])
              (h node.peers))
      ]

  place_valid-Settles :
      (now : TimePoint) (j : lib.Json) (b : Block (List Transaction)) (node : Node Double)
      (v : Verdict)
      → P node
      → (length node.chain.blocks < b.index → Applies b node)
      → ((chain : Chain (List Transaction) Double)
          → append_next_block ssl lib (list_data ssl lib config) floats config now b node.chain
            ≡ returns chain
          → (node' : Node Double)
          → apply_received b.payload (record node { chain = chain }) ≡ done node'
          → P node')
      → ((e : Error) (chain : Chain (List Transaction) Double)
          → append_next_block ssl lib (list_data ssl lib config) floats config now b node.chain
            ≡ raises e chain
          → P (record node { chain = chain }))
      → Settles P (place_valid ssl lib floats config connect now j b node v)
  unfolding place_valid place
  place_valid-Settles now j b node (invalid e) p far h k = p
  place_valid-Settles now j b node valid p far h k =
      elim (Bool-cases (ltb (length node.chain.blocks) b.index)) [
        | inl e ↦ rw e (
            ahead-Settles b node (origin_of ssl lib floats config connect j) p (far (ltb→lt _ _ e)))
        | inr e ↦ elim (Bool-cases (b.index == length node.chain.blocks)) [
          | inl e' ↦ elim (Bool-cases (extends config b (get_last? node.chain.blocks))) [
            | inl x ↦ rw (e, e', x) (after_append-Settles b node _ h k)
            | inr x ↦ rw (e, e', x) p
          ]
          | inr e' ↦ rw (e, e') p
        ]
      ]

  receive_block-Settles :
      (clock : ℕ → TimePoint) (j : lib.Json) (node : Node Double)
      (r : Exec (Block (List Transaction)))
      → P node
      → ((b : Block (List Transaction))
          → r ≡ done b
          → length node.chain.blocks < b.index
          → Applies (linked ssl lib floats config connect node b) node)
      → ((b : Block (List Transaction)) (chain : Chain (List Transaction) Double)
          → append_next_block ssl lib
              (list_data ssl lib config)
              floats
              config
              (clock 1)
              b
              node.chain
            ≡ returns chain
          → (node' : Node Double)
          → apply_received b.payload (record node { chain = chain }) ≡ done node'
          → P node')
      → ((b : Block (List Transaction)) (e : Error) (chain : Chain (List Transaction) Double)
          → append_next_block ssl lib
              (list_data ssl lib config)
              floats
              config
              (clock 1)
              b
              node.chain
            ≡ raises e chain
          → P (record node { chain = chain }))
      → Settles P (receive_block ssl lib floats config connect clock j node r)
  unfolding receive_block
  receive_block-Settles clock j node (throws e) p far h k = p
  receive_block-Settles clock j node undefined p far h k = tt
  receive_block-Settles clock j node (done b) p far h k =
      place_valid-Settles (clock 1) j (linked ssl lib floats config connect node b) node _ p
        (unfold linked in (far b refl)) (h _) (k _)

  pub handle_receive_latest_block-Settles :
      (clock : ℕ → TimePoint) (j : lib.Json) (node : Node Double)
      → P node
      → ((b : Block (List Transaction))
          → bind_exec (subscript lib j "block") (block_from_json ssl lib (list_data ssl lib config))
            ≡ done b
          → length node.chain.blocks < b.index
          → Applies (linked ssl lib floats config connect node b) node)
      → ((b : Block (List Transaction)) (chain : Chain (List Transaction) Double)
          → append_next_block ssl lib
              (list_data ssl lib config)
              floats
              config
              (clock 1)
              b
              node.chain
            ≡ returns chain
          → (node' : Node Double)
          → apply_received b.payload (record node { chain = chain }) ≡ done node'
          → P node')
      → ((b : Block (List Transaction)) (e : Error) (chain : Chain (List Transaction) Double)
          → append_next_block ssl lib
              (list_data ssl lib config)
              floats
              config
              (clock 1)
              b
              node.chain
            ≡ raises e chain
          → P (record node { chain = chain }))
      → Settles P (handle_receive_latest_block ssl lib floats config connect clock j node)
  unfolding handle_receive_latest_block
  handle_receive_latest_block-Settles clock j node p far h k =
      receive_block-Settles clock j node _ p far h k

module _ (lib : JsonLib) {Double : Type 0} (connect : Bytes → ℕ → Option Error)
    (P : Node Double → Type 0) where
  after_connect-Settles :
      (node : Node Double) (added : Peers.Peers × ℕ) (e : Option Error)
      → P node
      → ((peers' : Peers.Peers) → P (record node { peers = peers' }))
      → Settles P (after_connect lib connect node added e)
  unfolding after_connect
  after_connect-Settles node (peers', id) none p h = h peers'
  after_connect-Settles node (peers', id) (some e) p h = p

  add_address-Settles :
      (node : Node Double) (r : Exec (Bytes × ℕ))
      → P node
      → ((peers' : Peers.Peers) → P (record node { peers = peers' }))
      → Settles P (add_address lib connect node r)
  unfolding add_address
  add_address-Settles node (throws e) p h = p
  add_address-Settles node undefined p h = tt
  add_address-Settles node (done (host, port)) p h =
      after_connect-Settles node (Peers.add host port node.peers) (connect host port) p h

  pub handle_peers_post-Settles :
      (j : lib.Json) (node : Node Double)
      → P node
      → ((peers' : Peers.Peers) → P (record node { peers = peers' }))
      → Settles P (handle_peers_post lib connect j node)
  unfolding handle_peers_post
  handle_peers_post-Settles j node p h = add_address-Settles node _ p h
