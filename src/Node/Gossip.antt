-- ===== src/Node/Gossip.antt =====
-- A block that one node mines (include/blockchain.h) and another one is told of
-- (handle_receive_latest_block of src/node.cc).
use buenzli_coin.Base.{
  ℕ, ◌<◌, ◌^◌, ◌≡◌, refl, sym, ap, ◌∙◌, subst, true, false, ltb, ==_iff, List, [], ◌∷◌, ◌++◌, All,
  Bytes, map, Option, none, some, length, get_elem?, get_last?, arith, bytes_eq_refl,
}
use buenzli_coin.Base.Int.{◌-ℤ◌, ltb_ℤ}
use buenzli_coin.Base.Exec.{done, bind_exec, returns, Error}
use buenzli_coin.Block.{
  Block, block_to_json, block_from_json, is_genesis, is_successor_of, is_none, is_hash,
  max_difficulty,
}
use buenzli_coin.Block.RoundTrip.{IsBlock, subscript-object}
use buenzli_coin.Blockchain.{Chain, construct_next_block, append_next_block}
use buenzli_coin.Blockchain.Append.{append_next_block_iff}
use buenzli_coin.Blockchain.Linked.{IsLinked, Follows, append-IsLinked, linked_index}
use buenzli_coin.Blockchain.Offered.{
  IsDue, construct_next_block-IsMade, valid_block-due, check_next-due, IsMade,
}
use buenzli_coin.Clock.{TimePoint}
use buenzli_coin.Config.{Config}
use buenzli_coin.Crypto.Keypair.{OpenSsl}
use buenzli_coin.Difficulty.{Floats, Adjuster, adjust}
use buenzli_coin.Json.{JsonLib, subscript}
use buenzli_coin.Ledger.{list_data}
use buenzli_coin.Ledger.Relinked.{
  relinked, IsLinkedWith, link_all-link_all, relinked-IsSound, block_to_json-relinked,
}
use buenzli_coin.Ledger.RoundTrip.{list_block_round_trip}
use buenzli_coin.Node.{Node, answers, apply_received, after_step}
use buenzli_coin.Node.Messages.{block_message}
use buenzli_coin.Node.Receive.{
  extends, absorb, after_append, place, place_valid, linked, receive_block,
  handle_receive_latest_block,
}
use buenzli_coin.Node.Updates.{apply_received-Updated}
use buenzli_coin.Transaction.{UTxO, Transaction}
use buenzli_coin.Transaction.RoundTrip.{IsTransaction}
use buenzli_coin.TransactionList.{link_all}

get-last : {A : Type 0} (xs : List A) (x : A) → get_elem? (xs ++ x ∷ []) (length xs) ≡ some x
get-last [] x = refl
get-last (y ∷ xs) x = get-last xs x

map_snoc :
    {A B : Type 0} (f : A → B) (xs : List A) (x y : A)
    → f x ≡ f y
    → map f (xs ++ x ∷ []) ≡ map f (xs ++ y ∷ [])
map_snoc f [] x y e = ap (λ z. z ∷ []) e
map_snoc f (z ∷ xs) x y e = ap (λ zs. f z ∷ zs) (map_snoc f xs x y e)

not_less : (m n : ℕ) → n ≡ m → ltb m n ≡ false
not_less m n e = ground arith

module _ (ssl : OpenSsl) (lib : JsonLib) {Double : Type 0} (floats : Floats Double)
    (config : Config Double) (connect : Bytes → ℕ → Option Error) where
  -- The time stamp is not too far behind that of the last block.
  abbrev pub IsRecent : Option (Block (List Transaction)) → Block (List Transaction) → Type 0
  IsRecent none b = Unit
  IsRecent (some prev) b = ltb_ℤ (prev.timestamp -ℤ config.time_max_delta) b.timestamp ≡ true

  extends-next :
      (prev : Option (Block (List Transaction))) (b : Block (List Transaction))
      → Follows ssl lib (list_data ssl lib config) prev b
      → IsRecent prev b
      → extends config b prev ≡ true
  unfolding extends is_genesis is_successor_of
  extends-next none b f r = rw ((==_iff b.index 0).1 f.0, ap is_none f.1) refl
  extends-next (some prev) b f r =
      let hashes = ap (λ o. is_hash o prev.hash) f.1 ∙ bytes_eq_refl prev.hash in
      rw (r, (==_iff b.index _).1 f.0, hashes) refl

  extends-relinked :
      (prev : Option (Block (List Transaction))) (us : List UTxO) (b : Block (List Transaction))
      → Follows ssl lib (list_data ssl lib config) prev b
      → IsRecent prev b
      → extends config (relinked us b) prev ≡ true
  extends-relinked none us b f r = extends-next none (relinked us b) f r
  extends-relinked (some prev) us b f r = extends-next (some prev) (relinked us b) f r

  parsed :
      (host : Bytes) (port : ℕ) (b : Block (List Transaction))
      → IsBlock b
      → All IsTransaction b.payload
      → bind_exec
          (subscript lib (block_message ssl lib floats config host port b) "block")
          (block_from_json ssl lib (list_data ssl lib config))
        ≡ done (record b { payload = link_all [] b.payload })
  parsed host port b v w =
      rw (subscript-object lib _ "block" _ refl) (list_block_round_trip ssl lib config b v w)

  index-length :
      (bs bs' : List (Block (List Transaction))) (b : Block (List Transaction))
      → bs' ≡ bs ++ b ∷ []
      → IsLinked ssl lib (list_data ssl lib config) none bs'
      → length bs' < 2 ^ 64
      → b.index ≡ length bs
  index-length bs bs' b e l small =
      linked_index ssl lib (list_data ssl lib config) bs' (length bs) b l small
        (ap (λ l. get_elem? l (length bs)) e ∙ get-last bs b)

  -- The block that has been mined, linked again, is appended by a peer with the same chain.
  appended :
      (us : List UTxO) (now : TimePoint) (c c' : Chain (List Transaction) Double)
      (b : Block (List Transaction)) (a : Adjuster Double)
      → IsMade ssl lib (list_data ssl lib config) floats config c c' b
      → All (IsLinkedWith us) b.payload
      → IsDue ssl lib (list_data ssl lib config) floats config now b
      → adjust floats config b.timestamp c.adjuster ≡ done a
      → floats.lt (max_difficulty floats b) a.difficulty ≡ false
      → append_next_block ssl lib (list_data ssl lib config) floats config now (relinked us b) c
        ≡ returns (record { blocks = c.blocks ++ relinked us b ∷ []; adjuster = a })
  unfolding max_difficulty
  appended us now c c' b a made l due moves strong =
      let b' = relinked us b in
      (append_next_block_iff ssl lib (list_data ssl lib config) floats config now b' c
          (record { blocks = c.blocks ++ b' ∷ []; adjuster = a })).1
        (record {
          checked =
              check_next-due ssl lib (list_data ssl lib config) floats config now
                (get_last? c.blocks) b' (same-Follows (get_last? c.blocks) made.follows)
                (relinked-IsSound ssl lib config us b l made.sound) due;
          adjusted = moves;
          strong = strong;
          extended = refl;
        })
    where
      same-Follows :
          (o : Option (Block (List Transaction)))
          → Follows ssl lib (list_data ssl lib config) o b
          → Follows ssl lib (list_data ssl lib config) o (relinked us b)
      same-Follows none f = f
      same-Follows (some prev) f = f

  -- A peer with the same chain is told of a block which a node has mined. If every transaction of the
  -- block but the reward was linked with the outputs that the peer lists, the time stamp is due and
  -- recent, the numbers and bytes fit their C++ types and the adjusted difficulty is met, then the
  -- handler answers, the peer has appended the block, with its transactions linked with the outputs that
  -- the peer listed, and the blocks of the peer have the same JSON form as those of the node that has
  -- mined. The chain is linked with fewer than 2 ^ 64 blocks, and the updates of the outputs and the pool
  -- have a defined result.
  pub gossip_lem :
      (fuel : ℕ) (clock clock' : ℕ → TimePoint) (payload : List Transaction) (host : Bytes)
      (port : ℕ) (node node' : Node Double) (c' : Chain (List Transaction) Double)
      (b : Block (List Transaction)) (a : Adjuster Double)
      → construct_next_block ssl lib
          (list_data ssl lib config)
          floats
          config
          fuel
          clock
          payload
          node.chain
        ≡ returns c'
      → get_last? c'.blocks ≡ some b
      → IsLinked ssl lib (list_data ssl lib config) none node.chain.blocks
      → length c'.blocks < 2 ^ 64
      → IsBlock b
      → All IsTransaction b.payload
      → All (IsLinkedWith node.unspent) b.payload
      → IsDue ssl lib (list_data ssl lib config) floats config (clock' 0) b
      → IsDue ssl lib (list_data ssl lib config) floats config (clock' 1) b
      → IsRecent (get_last? node.chain.blocks) b
      → adjust floats config b.timestamp node.chain.adjuster ≡ done a
      → floats.lt (max_difficulty floats b) a.difficulty ≡ false
      → apply_received (link_all node.unspent b.payload) (record node {
        chain = record { blocks = node.chain.blocks ++ relinked node.unspent b ∷ []; adjuster = a };
      })
        ≡ done node'
      → (handle_receive_latest_block ssl lib floats config connect clock'
            (block_message ssl lib floats config host port b)
            node
          ≡ answers node' lib.null [])
        × (node'.chain.blocks ≡ node.chain.blocks ++ relinked node.unspent b ∷ [])
        × (map (block_to_json ssl lib (list_data ssl lib config)) node'.chain.blocks
            ≡ map (block_to_json ssl lib (list_data ssl lib config)) c'.blocks)
  unfolding handle_receive_latest_block receive_block place_valid place after_append absorb
      after_step linked
  gossip_lem fuel clock clock' payload host port node node' c' b a made_it last l small v w
        with_outputs due due' recent moves strong applied =
      let kind = list_data ssl lib config in
      let b' = relinked node.unspent b in
      let made =
        construct_next_block-IsMade ssl lib kind floats config fuel clock payload node.chain c' b
          made_it last in
      let l' =
        subst (IsLinked ssl lib kind none) (sym made.extended)
          (append-IsLinked ssl lib kind node.chain.blocks b l made.follows made.sound) in
      let here = index-length node.chain.blocks c'.blocks b made.extended l' small in
      let sound = relinked-IsSound ssl lib config node.unspent b with_outputs made.sound in
      let fine = valid_block-due ssl lib kind floats config (clock' 0) b' sound due in
      let same =
        ap (λ (c : Chain (List Transaction) Double). c.blocks)
          (apply_received-Updated _ _ node' applied).same_chain in
      (
        rw
            (
              parsed host port b v w,
              link_all-link_all node.unspent [] b.payload,
              fine,
              not_less (length node.chain.blocks) b.index here,
              (==_iff b.index _).1 here,
              extends-relinked (get_last? node.chain.blocks) node.unspent b made.follows recent,
              appended node.unspent (clock' 1) node.chain c' b a made with_outputs due' moves
                  strong,
              applied,
            )
            refl,
        same,
        rw (same, made.extended)
            (map_snoc (block_to_json ssl lib kind) node.chain.blocks b' b
              (block_to_json-relinked ssl lib config node.unspent b)),
      )
