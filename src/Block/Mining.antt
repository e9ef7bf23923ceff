-- ===== src/Block/Mining.antt =====
-- The loop of Block::adjust_difficulty (include/blockchain.h).
use native.Mathlib.Nat.{add-zero}
use buenzli_coin.Base.{
  ℕ, zero, suc, ◌+◌, ◌≤◌, ◌<◌, ◌≡◌, refl, sym, ◌∙◌, Bool, true, some, leb, leb→le, le→leb, ◌↔◌,
  subst, if◌then◌else◌, arith, Bool-cases, inl, inr,
}
use buenzli_coin.Clock.{TimePoint}
use buenzli_coin.Crypto.Digest.{zero_prefix_length}
use buenzli_coin.Crypto.Keypair.{OpenSsl}
use buenzli_coin.Json.{JsonLib}
use buenzli_coin.Block.{BlockData, Block, block_hash, attempt, next_nonce, mine}

some_inj {ℓ} : {A : Type ℓ} {a b : A} → some a ≡ some b → a ≡ b
some_inj e = cc

module _ (ssl : OpenSsl) (lib : JsonLib) (kind : BlockData lib.Json) where
  open kind use {Data}

  -- A block that mining may return for another: the same data at the same place of the chain, with
  -- its own hash, and enough zero bits in front.
  pub record IsMined (bits : ℕ) (b b' : Block Data) : Type 0 where
    pub same_data : b'.payload ≡ b.payload
    pub same_index : b'.index ≡ b.index
    pub same_hash_prev : b'.hash_prev ≡ b.hash_prev
    pub own_hash : b'.hash ≡ block_hash ssl lib kind b'
    pub enough : bits ≤ zero_prefix_length b'.hash

  attempt-IsMined :
      (now : TimePoint) (bits : ℕ) (b : Block Data)
      → bits ≤ zero_prefix_length (attempt ssl lib kind now b).hash
      → IsMined bits b (attempt ssl lib kind now b)
  unfolding attempt block_hash
  attempt-IsMined now bits b h = record {
    same_data = refl;
    same_index = refl;
    same_hash_prev = refl;
    own_hash = refl;
    enough = h;
  }

  IsMined-next_nonce :
      (now : TimePoint) (bits : ℕ) (b b' : Block Data)
      → IsMined bits (next_nonce ssl lib kind now b) b'
      → IsMined bits b b'
  IsMined-next_nonce now bits b b' m = record {
    same_data = m.same_data;
    same_index = m.same_index;
    same_hash_prev = m.same_hash_prev;
    own_hash = m.own_hash;
    enough = m.enough;
  }

  enough_bits : (now : TimePoint) (bits : ℕ) (b : Block Data) → Bool
  enough_bits now bits b = leb bits (zero_prefix_length (attempt ssl lib kind now b).hash)

  mine_round :
      (fuel : ℕ) (clock : ℕ → TimePoint) (i bits : ℕ) (b : Block Data)
      → mine ssl lib kind (suc fuel) clock i bits b ≡ (
          if enough_bits (clock i) bits b
          then some (attempt ssl lib kind (clock i) b)
          else mine ssl lib kind fuel clock (suc i) bits (next_nonce ssl lib kind (clock i) b))
  unfolding mine enough_bits
  mine_round fuel clock i bits b = refl

  enough_bits_iff :
      (now : TimePoint) (bits : ℕ) (b : Block Data)
      → (enough_bits now bits b ≡ true)
        ↔ (bits ≤ zero_prefix_length (attempt ssl lib kind now b).hash)
  unfolding enough_bits
  enough_bits_iff now bits b = (leb→le _ _, le→leb _ _)

  -- What the loop returns differs from the block it began with in nonce, time stamp and hash only,
  -- has its own hash, and has at least as many zero bits as asked for.
  pub mine-IsMined :
      (fuel : ℕ) (clock : ℕ → TimePoint) (i bits : ℕ) (b b' : Block Data)
      → mine ssl lib kind fuel clock i bits b ≡ some b'
      → IsMined bits b b'
  unfolding mine
  mine-IsMined zero clock i bits b b' h = cc
  mine-IsMined (suc fuel) clock i bits b b' h =
      let round = sym (mine_round fuel clock i bits b) ∙ h in
      elim (Bool-cases (enough_bits (clock i) bits b)) [
        | inl e ↦
            subst (IsMined bits b) (some_inj (rw e at round))
              (attempt-IsMined (clock i) bits b ((enough_bits_iff (clock i) bits b).0 e))
        | inr e ↦
            IsMined-next_nonce (clock i) bits b b'
              (mine-IsMined fuel clock (suc i) bits _ b' (rw e at round))
      ]

  -- The block after n rounds that failed.
  abbrev pub after_rounds : (ℕ → TimePoint) → ℕ → ℕ → Block Data → Block Data
  after_rounds clock i zero b = b
  after_rounds clock i (suc n) b =
      after_rounds clock (suc i) n (next_nonce ssl lib kind (clock i) b)

  -- The loop ends in every run in which some round finds a hash with enough zero bits: it needs no
  -- more fuel than that round's number and one.
  pub mine-total :
      (n fuel : ℕ) (clock : ℕ → TimePoint) (i bits : ℕ) (b : Block Data)
      → n < fuel
      → bits
        ≤ zero_prefix_length (attempt ssl lib kind (clock (i + n)) (after_rounds clock i n b)).hash
      → (b' : Block Data) × (mine ssl lib kind fuel clock i bits b ≡ some b') × IsMined bits b b'
  mine-total n zero clock i bits b lt h = elim lt [ ]
  mine-total zero (suc fuel) clock i bits b lt h =
      let here = rw add-zero at h in
      (
        attempt ssl lib kind (clock i) b,
        mine_round fuel clock i bits b ∙ rw ((enough_bits_iff (clock i) bits b).1 here),
        attempt-IsMined (clock i) bits b here,
      )
  mine-total (suc n) (suc fuel) clock i bits b lt h =
      let moved : i + suc n ≡ suc i + n = omega arith in
      let (b', r, m) =
        mine-total n fuel clock (suc i) bits (next_nonce ssl lib kind (clock i) b) (omega arith)
          (rw moved at h) in
      elim (Bool-cases (enough_bits (clock i) bits b)) [
        | inl e ↦ (
          attempt ssl lib kind (clock i) b,
          mine_round fuel clock i bits b ∙ rw e,
          attempt-IsMined (clock i) bits b ((enough_bits_iff (clock i) bits b).0 e),
        )
        | inr e ↦
            (b', mine_round fuel clock i bits b ∙ rw e r, IsMined-next_nonce (clock i) bits b b' m)
      ]
