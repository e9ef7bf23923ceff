-- ===== src/Blockchain.antt =====
-- class Blockchain of include/blockchain.h, as built with PROOF_OF_WORK. The mutex is left out: the
-- members run one after the other.
pub mod Linked
pub mod Growth
pub mod Append
pub mod Offered
pub mod Built
pub mod Extension
use buenzli_coin.Base.{
  ℕ, suc, ◌+◌, ◌%◌, ◌^◌, Bool, not, Option, none, some, List, [], ◌∷◌, ◌++◌, map, ltb, ◌==◌,
  if◌then◌else◌, get_last?,
}
use buenzli_coin.Base.Exec.{
  Exec, done, throws, undefined, bind_exec, Outcome, returns, raises, faults, runs_on, Verdict,
  valid, invalid, Error, and_then, refuse, empty_blockchain, in_block, invalid_genesis,
  not_successor, invalid_index, last_hash_not_empty, mismatched_hashes, appending_data,
  appending_genesis, appending_next, invalid_difficulty,
}
use buenzli_coin.Block.{
  BlockData, Block, is_none, is_hash, is_genesis, is_successor_of, max_difficulty, first_block,
  following_block, valid_block, mine, block_to_json, block_from_json,
}
use buenzli_coin.Clock.{TimePoint}
use buenzli_coin.Config.{Config}
use buenzli_coin.Crypto.Keypair.{OpenSsl}
use buenzli_coin.Difficulty.{Floats, Adjuster, new_adjuster, adjust}
use buenzli_coin.Json.{JsonLib}

pub record Chain (Data Double : Type 0) : Type 0 where
  pub blocks : List (Block Data)
  pub adjuster : Adjuster Double

abbrev pub block_verdict : ℕ → Verdict → Verdict
block_verdict i valid = valid
block_verdict i (invalid e) = invalid (in_block i e)

abbrev pub wrap : (Error → Error) → Verdict → Verdict
wrap f valid = valid
wrap f (invalid e) = invalid (f e)

-- A thrown exception destroys the object under construction.
abbrev pub outcome_exec {ℓ} : {S : Type ℓ} → Outcome S → Exec S
outcome_exec (returns s) = done s
outcome_exec (raises e s) = throws e
outcome_exec faults = undefined
outcome_exec runs_on = undefined

module _ {Data Double : Type 0} (floats : Floats Double) (config : Config Double) where
  -- Blockchain::Blockchain
  unfoldable pub new_chain : Chain Data Double
  unfolding new_adjuster
  new_chain = record { blocks = []; adjuster = new_adjuster floats config }

  -- Blockchain::cumulative_difficulty
  unfoldable pub cumulative_difficulty : Chain Data Double → ℕ
  cumulative_difficulty chain = floats.to_size chain.adjuster.cumulative_difficulty

  -- `a > b`, by Blockchain::operator<=>
  unfoldable pub is_greater : Chain Data Double → Chain Data Double → Bool
  unfolding cumulative_difficulty
  is_greater a b = ltb (cumulative_difficulty b) (cumulative_difficulty a)

  -- The last loop of Blockchain::valid, from the i-th block on.
  unfoldable pub check_successors : ℕ → Block Data → List (Block Data) → Verdict
  check_successors i prev [] = valid
  check_successors i prev (b ∷ bs) =
      and_then (refuse (not_successor i) (not (is_successor_of config b prev)))
        (check_successors (suc i) b bs)

module _ (ssl : OpenSsl) (lib : JsonLib) (kind : BlockData lib.Json) {Double : Type 0}
    (floats : Floats Double) (config : Config Double) where
  open kind use {Data}

  -- The first loop of Blockchain::valid; `clock i` is the time at which the i-th block is checked.
  unfoldable pub check_blocks : (ℕ → TimePoint) → ℕ → List (Block Data) → Verdict
  check_blocks clock i [] = valid
  check_blocks clock i (b ∷ bs) =
      and_then (block_verdict i (valid_block ssl lib kind config (clock i) b))
        (check_blocks clock (suc i) bs)

  -- Blockchain::valid
  unfoldable pub valid_blocks : (ℕ → TimePoint) → List (Block Data) → Verdict
  unfolding check_blocks check_successors
  valid_blocks clock [] = invalid empty_blockchain
  valid_blocks clock (b ∷ bs) = and_then (check_blocks clock 0 (b ∷ bs)) (
      and_then (refuse invalid_genesis (not (is_genesis b)))
        (check_successors floats config 1 b bs))

  -- The block that construct_next_block begins with.
  unfoldable pub next_block : TimePoint → Data → Option (Block Data) → Block Data
  next_block now payload none = first_block ssl lib kind now payload
  next_block now payload (some last) = following_block ssl lib kind now payload last

  unfoldable pub append_mined :
      Chain Data Double → Adjuster Double → Option (Block Data) → Outcome (Chain Data Double)
  append_mined chain adjuster none = runs_on
  append_mined chain adjuster (some b) =
      returns (record { blocks = chain.blocks ++ b ∷ []; adjuster = adjuster })

  unfoldable pub mine_block :
      ℕ
      → (ℕ → TimePoint)
      → Block Data
      → Chain Data Double
      → Exec (Adjuster Double)
      → Outcome (Chain Data Double)
  unfolding append_mined
  mine_block fuel clock block chain (done adjuster) =
      append_mined chain adjuster
        (mine ssl lib kind fuel clock 2 (floats.log2_size adjuster.difficulty) block)
  mine_block fuel clock block chain (throws e) = raises e chain
  mine_block fuel clock block chain undefined = faults

  unfoldable pub construct_checked :
      ℕ → (ℕ → TimePoint) → Block Data → Chain Data Double → Verdict → Outcome (Chain Data Double)
  unfolding mine_block
  construct_checked fuel clock block chain (invalid e) = raises (appending_data e) chain
  construct_checked fuel clock block chain valid =
      mine_block fuel clock block chain (adjust floats config block.timestamp chain.adjuster)

  -- Blockchain::construct_next_block. The readings of the clock are those of the constructor, of
  -- Block::valid, and of the rounds of mining.
  unfoldable pub construct_next_block :
      ℕ → (ℕ → TimePoint) → Data → Chain Data Double → Outcome (Chain Data Double)
  unfolding construct_checked next_block
  construct_next_block fuel clock payload chain =
      let block = next_block (clock 0) payload (get_last? chain.blocks) in
      construct_checked fuel clock block chain (valid_block ssl lib kind config (clock 1) block)

  -- Blockchain::valid_genesis_block
  unfoldable pub valid_genesis_block : TimePoint → Block Data → Verdict
  valid_genesis_block now b = and_then (refuse invalid_index (not (b.index == 0))) (
      and_then (refuse last_hash_not_empty (not (is_none b.hash_prev)))
        (valid_block ssl lib kind config now b))

  -- Blockchain::valid_next_block
  unfoldable pub valid_next_block : TimePoint → Block Data → Block Data → Verdict
  valid_next_block now b prev =
      and_then (refuse invalid_index (not (b.index == (prev.index + 1) % 2 ^ 64))) (
        and_then (refuse mismatched_hashes (not (is_hash b.hash_prev prev.hash)))
          (valid_block ssl lib kind config now b))

  -- The two branches of append_next_block that check the block.
  unfoldable pub check_next : TimePoint → Block Data → Option (Block Data) → Verdict
  unfolding valid_genesis_block valid_next_block
  check_next now b none = wrap appending_genesis (valid_genesis_block now b)
  check_next now b (some prev) = wrap appending_next (valid_next_block now b prev)

  unfoldable pub append_adjusted :
      Block Data → Chain Data Double → Exec (Adjuster Double) → Outcome (Chain Data Double)
  append_adjusted block chain (done adjuster) =
      if floats.lt (max_difficulty floats block) adjuster.difficulty
      then raises invalid_difficulty (record chain { adjuster = adjuster })
      else returns (record { blocks = chain.blocks ++ block ∷ []; adjuster = adjuster })
  append_adjusted block chain (throws e) = raises e chain
  append_adjusted block chain undefined = faults

  unfoldable pub append_checked :
      Block Data → Chain Data Double → Verdict → Outcome (Chain Data Double)
  unfolding append_adjusted
  append_checked block chain (invalid e) = raises e chain
  append_checked block chain valid =
      append_adjusted block chain (adjust floats config block.timestamp chain.adjuster)

  -- Blockchain::append_next_block, at the time `now`. The adjuster has moved on when the difficulty
  -- is found too small.
  unfoldable pub append_next_block :
      TimePoint → Block Data → Chain Data Double → Outcome (Chain Data Double)
  unfolding append_checked
  append_next_block now block chain =
      append_checked block chain (check_next now block (get_last? chain.blocks))

  -- Blockchain::to_json
  unfoldable pub chain_to_json : Chain Data Double → lib.Json
  chain_to_json chain = lib.array (map (block_to_json ssl lib kind) chain.blocks)

  -- The loop of Blockchain::from_json; `clock i` is the time at which the i-th block is checked.
  unfoldable pub append_all :
      (ℕ → TimePoint) → ℕ → List lib.Json → Chain Data Double → Exec (Chain Data Double)
  append_all clock i [] chain = done chain
  append_all clock i (j ∷ js) chain = bind_exec (block_from_json ssl lib kind j) λ block.
      bind_exec (outcome_exec (append_next_block (clock i) block chain))
        (append_all clock (suc i) js)

  -- Blockchain::from_json
  unfoldable pub chain_from_json : (ℕ → TimePoint) → lib.Json → Exec (Chain Data Double)
  unfolding append_all
  chain_from_json clock j = append_all clock 0 (lib.elements j) (new_chain floats config)
