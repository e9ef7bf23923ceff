-- ===== src/Blockchain/Extension.antt =====
-- What the two operations that add a block (include/blockchain.h) do to the blocks of a chain.
use buenzli_coin.Base.{
  ℕ, ◌≡◌, refl, subst, Option, none, some, List, [], ◌∷◌, ◌++◌, Bool-cases, inl, inr, get_last?,
}
use buenzli_coin.Base.Exec.{
  Exec, done, throws, undefined, Outcome, returns, raises, faults, runs_on, Verdict, valid, invalid,
}
use buenzli_coin.Block.{BlockData, Block, max_difficulty, first_block, following_block}
use buenzli_coin.Block.Mining.{IsMined, mine-IsMined}
use buenzli_coin.Blockchain.{
  Chain, next_block, append_mined, mine_block, construct_checked, construct_next_block,
  append_adjusted, append_checked, append_next_block,
}
use buenzli_coin.Clock.{TimePoint}
use buenzli_coin.Config.{Config}
use buenzli_coin.Crypto.Keypair.{OpenSsl}
use buenzli_coin.Difficulty.{Floats, Adjuster}
use buenzli_coin.Json.{JsonLib}

-- Either one block with the payload is added at the end, or the blocks are what they were.
abbrev pub Extends :
    {Data Double : Type 0} → Data → List (Block Data) → Outcome (Chain Data Double) → Type 0
Extends payload blocks (returns c) =
    (b : Block _) × (c.blocks ≡ blocks ++ b ∷ []) × (b.payload ≡ payload)
Extends payload blocks (raises e c) = c.blocks ≡ blocks
Extends payload blocks faults = Unit
Extends payload blocks runs_on = Unit

module _ (ssl : OpenSsl) (lib : JsonLib) (kind : BlockData lib.Json) {Double : Type 0}
    (floats : Floats Double) (config : Config Double) where
  open kind use {Data}

  append_adjusted-Extends :
      (b : Block Data) (chain : Chain Data Double) (a : Exec (Adjuster Double))
      → Extends b.payload chain.blocks (append_adjusted ssl lib kind floats config b chain a)
  unfolding append_adjusted
  append_adjusted-Extends b chain (done a) =
      elim (Bool-cases (floats.lt (max_difficulty floats b) a.difficulty)) [
        | inl e ↦ rw e refl
        | inr e ↦ rw e (b, refl, refl)
      ]
  append_adjusted-Extends b chain (throws e) = refl
  append_adjusted-Extends b chain undefined = tt

  append_checked-Extends :
      (b : Block Data) (chain : Chain Data Double) (v : Verdict)
      → Extends b.payload chain.blocks (append_checked ssl lib kind floats config b chain v)
  unfolding append_checked
  append_checked-Extends b chain (invalid e) = refl
  append_checked-Extends b chain valid = append_adjusted-Extends b chain _

  -- Blockchain::append_next_block adds the block, or changes no block where it throws.
  pub append_next_block-Extends :
      (now : TimePoint) (b : Block Data) (chain : Chain Data Double)
      → Extends b.payload chain.blocks (append_next_block ssl lib kind floats config now b chain)
  unfolding append_next_block
  append_next_block-Extends now b chain = append_checked-Extends b chain _

  append_mined-Extends :
      (chain : Chain Data Double) (a : Adjuster Double) (bits : ℕ) (b : Block Data)
      (o : Option (Block Data))
      → ((b' : Block Data) → o ≡ some b' → IsMined ssl lib kind bits b b')
      → Extends b.payload chain.blocks (append_mined ssl lib kind floats config chain a o)
  unfolding append_mined
  append_mined-Extends chain a bits b none m = tt
  append_mined-Extends chain a bits b (some b') m = (b', refl, (m b' refl).same_data)

  mine_block-Extends :
      (fuel : ℕ) (clock : ℕ → TimePoint) (b : Block Data) (chain : Chain Data Double)
      (a : Exec (Adjuster Double))
      → Extends b.payload chain.blocks (mine_block ssl lib kind floats config fuel clock b chain a)
  unfolding mine_block
  mine_block-Extends fuel clock b chain (done a) =
      append_mined-Extends chain a (floats.log2_size a.difficulty) b _
        (mine-IsMined ssl lib kind fuel clock 2 _ b)
  mine_block-Extends fuel clock b chain (throws e) = refl
  mine_block-Extends fuel clock b chain undefined = tt

  construct_checked-Extends :
      (fuel : ℕ) (clock : ℕ → TimePoint) (b : Block Data) (chain : Chain Data Double) (v : Verdict)
      → Extends b.payload chain.blocks
          (construct_checked ssl lib kind floats config fuel clock b chain v)
  unfolding construct_checked
  construct_checked-Extends fuel clock b chain (invalid e) = refl
  construct_checked-Extends fuel clock b chain valid = mine_block-Extends fuel clock b chain _

  next_block-payload :
      (now : TimePoint) (payload : Data) (prev : Option (Block Data))
      → (next_block ssl lib kind floats config now payload prev).payload ≡ payload
  unfolding next_block first_block following_block
  next_block-payload now payload none = refl
  next_block-payload now payload (some prev) = refl

  -- Blockchain::construct_next_block adds a block with the payload, or changes no block where it
  -- throws.
  pub construct_next_block-Extends :
      (fuel : ℕ) (clock : ℕ → TimePoint) (payload : Data) (chain : Chain Data Double)
      → Extends payload chain.blocks
          (construct_next_block ssl lib kind floats config fuel clock payload chain)
  unfolding construct_next_block
  construct_next_block-Extends fuel clock payload chain =
      subst
        (λ p.
          Extends p chain.blocks
            (construct_next_block ssl lib kind floats config fuel clock payload chain))
        (next_block-payload (clock 0) payload (get_last? chain.blocks))
        (construct_checked-Extends fuel clock
          (next_block ssl lib kind floats config (clock 0) payload (get_last? chain.blocks)) chain
          _)
