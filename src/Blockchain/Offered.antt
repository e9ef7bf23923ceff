-- ===== src/Blockchain/Offered.antt =====
-- A block that a node has mined (Blockchain::construct_next_block of include/blockchain.h), where a peer
-- with the same chain appends it (Blockchain::append_next_block).
use mathlib.Core.Option.{some-injective}
use buenzli_coin.Base.{
  ℕ, ◌≡◌, ◌≤◌, ◌↔◌, refl, sym, ap, ◌∙◌, subst, true, false, Option, none, some, [], ◌∷◌, ◌++◌,
  get_last?, get_last?-snoc, bytes_eq, bytes_eq_refl, ==_iff,
}
use buenzli_coin.Base.Exec.{
  Exec, done, throws, undefined, returns, returns-injective, Verdict, valid, invalid,
}
use buenzli_coin.Block.{BlockData, Block, valid_block, max_difficulty, is_none, is_hash}
use buenzli_coin.Block.Mining.{IsMined, mine-IsMined}
use buenzli_coin.Blockchain.{
  Chain, construct_next_block, check_next, append_next_block, append_mined, mine_block,
  construct_checked, valid_genesis_block, valid_next_block,
}
use buenzli_coin.Blockchain.Append.{append_next_block_iff}
use buenzli_coin.Blockchain.Growth.{next_block-Follows, mined-Follows, mined-IsSound}
use buenzli_coin.Blockchain.Linked.{IsSound, Follows, valid_block-IsSound}
use buenzli_coin.Clock.{TimePoint}
use buenzli_coin.Config.{Config}
use buenzli_coin.Base.Int.{◌-ℤ◌, leb_ℤ}
use buenzli_coin.Crypto.Digest.{zero_prefix_length}
use buenzli_coin.Crypto.Keypair.{OpenSsl}
use buenzli_coin.Difficulty.{Floats, Adjuster, adjust}
use buenzli_coin.Json.{JsonLib}

module _ (ssl : OpenSsl) (lib : JsonLib) (kind : BlockData lib.Json) {Double : Type 0}
    (floats : Floats Double) (config : Config Double) where
  open kind use {Data}

  -- The time stamp is not too far ahead of the clock.
  abbrev pub IsDue : TimePoint → Block Data → Type 0
  IsDue now b = leb_ℤ now (b.timestamp -ℤ config.time_max_delta) ≡ false

  -- The block that has been added: its difficulty is at least the adjusted one, rounded down to a
  -- power of two.
  pub record IsMade (c c' : Chain Data Double) (b : Block Data) : Type 0 where
    pub extended : c'.blocks ≡ c.blocks ++ b ∷ []
    pub follows : Follows ssl lib kind (get_last? c.blocks) b
    pub sound : IsSound ssl lib kind b
    pub enough : floats.log2_size c'.adjuster.difficulty ≤ zero_prefix_length b.hash

  mined-IsMade :
      (c : Chain Data Double) (a : Adjuster Double) (b : Block Data) (o : Option (Block Data))
      {c' : Chain Data Double}
      → ((b' : Block Data)
          → o ≡ some b'
          → IsMined ssl lib kind (floats.log2_size a.difficulty) b b')
      → Follows ssl lib kind (get_last? c.blocks) b
      → IsSound ssl lib kind b
      → append_mined ssl lib kind floats config c a o ≡ returns c'
      → (b' : Block Data) × IsMade c c' b'
  unfolding append_mined
  mined-IsMade c a b none m f s h = cc
  mined-IsMade c a b (some b') m f s h =
      let e = returns-injective h in
      (
        b',
        record {
          extended = ap (λ (c : Chain Data Double). c.blocks) (sym e);
          follows =
              mined-Follows ssl lib kind floats config (get_last? c.blocks) _ b b' (m b' refl) f;
          sound = mined-IsSound ssl lib kind floats config _ b b' (m b' refl) s;
          enough =
              subst
                (λ (c : Chain Data Double).
                  floats.log2_size c.adjuster.difficulty ≤ zero_prefix_length b'.hash)
                e (m b' refl).enough;
        },
      )

  mine_block-IsMade :
      (fuel : ℕ) (clock : ℕ → TimePoint) (b : Block Data) (c : Chain Data Double)
      (a : Exec (Adjuster Double)) {c' : Chain Data Double}
      → Follows ssl lib kind (get_last? c.blocks) b
      → IsSound ssl lib kind b
      → mine_block ssl lib kind floats config fuel clock b c a ≡ returns c'
      → (b' : Block Data) × IsMade c c' b'
  unfolding mine_block
  mine_block-IsMade fuel clock b c (done a) f s h =
      mined-IsMade c a b _ (mine-IsMined ssl lib kind fuel clock 2 _ b) f s h
  mine_block-IsMade fuel clock b c (throws e) f s h = cc
  mine_block-IsMade fuel clock b c undefined f s h = cc

  construct_checked-IsMade :
      (fuel : ℕ) (clock : ℕ → TimePoint) (b : Block Data) (c : Chain Data Double) (v : Verdict)
      {c' : Chain Data Double}
      → valid_block ssl lib kind config (clock 1) b ≡ v
      → Follows ssl lib kind (get_last? c.blocks) b
      → construct_checked ssl lib kind floats config fuel clock b c v ≡ returns c'
      → (b' : Block Data) × IsMade c c' b'
  unfolding construct_checked
  construct_checked-IsMade fuel clock b c (invalid e) v f h = cc
  construct_checked-IsMade fuel clock b c valid v f h =
      mine_block-IsMade fuel clock b c _ f (valid_block-IsSound ssl lib kind config (clock 1) b v) h

  pub construct_next_block-IsMade :
      (fuel : ℕ) (clock : ℕ → TimePoint) (payload : Data) (c c' : Chain Data Double)
      (b : Block Data)
      → construct_next_block ssl lib kind floats config fuel clock payload c ≡ returns c'
      → get_last? c'.blocks ≡ some b
      → IsMade c c' b
  unfolding construct_next_block
  construct_next_block-IsMade fuel clock payload c c' b h last =
      let (b', made) =
        construct_checked-IsMade fuel clock _ c _ refl
          (next_block-Follows ssl lib kind floats config (clock 0) payload (get_last? c.blocks))
          h in
      let same =
        some-injective _ _
          (sym (get_last?-snoc c.blocks b') ∙ (ap get_last? (sym made.extended) ∙ last)) in
      subst (IsMade c c') same made

  pub valid_block-due :
      (now : TimePoint) (b : Block Data)
      → IsSound ssl lib kind b
      → IsDue now b
      → valid_block ssl lib kind config now b ≡ valid
  unfolding valid_block
  valid_block-due now b s due =
      let own = subst (λ d. bytes_eq b.hash d ≡ true) s.own_hash (bytes_eq_refl b.hash) in
      rw (s.data_ok, due, own) refl

  pub check_next-due :
      (now : TimePoint) (prev : Option (Block Data)) (b : Block Data)
      → Follows ssl lib kind prev b
      → IsSound ssl lib kind b
      → IsDue now b
      → check_next ssl lib kind floats config now b prev ≡ valid
  unfolding check_next valid_genesis_block valid_next_block
  check_next-due now none b f s due =
      rw ((==_iff b.index 0).1 f.0, ap is_none f.1, valid_block-due now b s due) refl
  check_next-due now (some prev) b f s due =
      let hashes = ap (λ o. is_hash o prev.hash) f.1 ∙ bytes_eq_refl prev.hash in
      rw ((==_iff b.index _).1 f.0, hashes, valid_block-due now b s due) refl

  -- A peer with the same chain appends a block that has been mined on it, once it is due, exactly when
  -- the adjuster, moved on by the time stamp that mining has set, asks for no more than the hash of the
  -- block can meet: all other checks pass.
  pub offered_iff :
      (fuel : ℕ) (clock : ℕ → TimePoint) (payload : Data) (c c' c'' : Chain Data Double)
      (b : Block Data) (now : TimePoint)
      → construct_next_block ssl lib kind floats config fuel clock payload c ≡ returns c'
      → get_last? c'.blocks ≡ some b
      → IsDue now b
      → (append_next_block ssl lib kind floats config now b c ≡ returns c'') ↔ (
          (adjust floats config b.timestamp c.adjuster ≡ done c''.adjuster)
          × (floats.lt (max_difficulty floats b) c''.adjuster.difficulty ≡ false)
          × (c''.blocks ≡ c'.blocks))
  offered_iff fuel clock payload c c' c'' b now h last due =
      let made = construct_next_block-IsMade fuel clock payload c c' b h last in
      let (to, from) = append_next_block_iff ssl lib kind floats config now b c c'' in
      (
        (λ e. let r = to e in (r.adjusted, r.strong, r.extended ∙ sym made.extended)),
        (λ (a, t, e). from (record {
          checked = check_next-due now (get_last? c.blocks) b made.follows made.sound due;
          adjusted = a;
          strong = t;
          extended = e ∙ made.extended;
        })),
      )
