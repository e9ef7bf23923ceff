-- ===== src/Blockchain/Growth.antt =====
-- The members of Blockchain (include/blockchain.h) that add a block keep the blocks linked.
use buenzli_coin.Base.{
  ℕ, ◌≡◌, refl, ◌∙◌, Bool, true, false, Option, none, some, if◌then◌else◌, get_last?,
}
use buenzli_coin.Base.Exec.{
  Exec, done, throws, undefined, Outcome, returns, raises, faults, runs_on, Verdict, valid, invalid,
  Error,
}
use buenzli_coin.Block.{BlockData, Block, first_block, following_block, valid_block}
use buenzli_coin.Block.Mining.{IsMined, mine-IsMined}
use buenzli_coin.Blockchain.{
  Chain, next_block, construct_next_block, check_next, append_next_block, append_mined, mine_block,
  construct_checked, append_adjusted, append_checked,
}
use buenzli_coin.Clock.{TimePoint}
use buenzli_coin.Config.{Config}
use buenzli_coin.Crypto.Keypair.{OpenSsl}
use buenzli_coin.Difficulty.{Floats, Adjuster}
use buenzli_coin.Json.{JsonLib}
use buenzli_coin.Blockchain.Linked.{
  IsSound, Follows, IsLinked, append-IsLinked, valid_block-IsSound, check_next-Follows,
}

-- What an outcome leaves behind, returned or with an exception.
abbrev pub Leaves {ℓ κ} : {S : Type ℓ} → (S → Type κ) → Outcome S → Type κ
Leaves P (returns s) = P s
Leaves P (raises e s) = P s
Leaves P faults = Unit
Leaves P runs_on = Unit

Leaves-if {ℓ κ} :
    {S : Type ℓ} (P : S → Type κ) (t : Bool) (e : Error) (s s' : S)
    → P s
    → P s'
    → Leaves P (if t then raises e s else returns s')
Leaves-if P true e s s' p p' = p
Leaves-if P false e s s' p p' = p'

module _ (ssl : OpenSsl) (lib : JsonLib) (kind : BlockData lib.Json) {Double : Type 0}
    (floats : Floats Double) (config : Config Double) where
  open kind use {Data}

  append_adjusted-IsLinked :
      (b : Block Data) (chain : Chain Data Double) (a : Exec (Adjuster Double))
      → IsLinked ssl lib kind none chain.blocks
      → Follows ssl lib kind (get_last? chain.blocks) b
      → IsSound ssl lib kind b
      → Leaves
          (λ c. IsLinked ssl lib kind none c.blocks)
          (append_adjusted ssl lib kind floats config b chain a)
  unfolding append_adjusted
  append_adjusted-IsLinked b chain (done a) l f s =
      Leaves-if {S = Chain Data Double} (λ c. IsLinked ssl lib kind none c.blocks) _ _ _ _ l
        (append-IsLinked ssl lib kind chain.blocks b l f s)
  append_adjusted-IsLinked b chain (throws e) l f s = l
  append_adjusted-IsLinked b chain undefined l f s = tt

  append_checked-IsLinked :
      (now : TimePoint) (b : Block Data) (chain : Chain Data Double) (v : Verdict)
      → check_next ssl lib kind floats config now b (get_last? chain.blocks) ≡ v
      → IsLinked ssl lib kind none chain.blocks
      → Leaves
          (λ c. IsLinked ssl lib kind none c.blocks)
          (append_checked ssl lib kind floats config b chain v)
  unfolding append_checked
  append_checked-IsLinked now b chain (invalid e) h l = l
  append_checked-IsLinked now b chain valid h l =
      let (f, s) = check_next-Follows ssl lib kind config floats now b _ h in
      append_adjusted-IsLinked b chain _ l f s

  -- Blockchain::append_next_block keeps the blocks linked, where it returns and where it throws.
  pub append_next_block-IsLinked :
      (now : TimePoint) (b : Block Data) (chain : Chain Data Double)
      → IsLinked ssl lib kind none chain.blocks
      → Leaves
          (λ c. IsLinked ssl lib kind none c.blocks)
          (append_next_block ssl lib kind floats config now b chain)
  unfolding append_next_block
  append_next_block-IsLinked now b chain l = append_checked-IsLinked now b chain _ refl l

  pub next_block-Follows :
      (now : TimePoint) (payload : Data) (prev : Option (Block Data))
      → let b = next_block ssl lib kind floats config now payload prev in
        Follows ssl lib kind prev b
  unfolding next_block first_block following_block
  next_block-Follows now payload none = (refl, refl)
  next_block-Follows now payload (some prev) = (refl, refl)

  pub mined-Follows :
      (prev : Option (Block Data)) (bits : ℕ) (b b' : Block Data)
      → IsMined ssl lib kind bits b b'
      → Follows ssl lib kind prev b
      → Follows ssl lib kind prev b'
  mined-Follows none bits b b' m f = (m.same_index ∙ f.0, m.same_hash_prev ∙ f.1)
  mined-Follows (some prev) bits b b' m f = (m.same_index ∙ f.0, m.same_hash_prev ∙ f.1)

  pub mined-IsSound :
      (bits : ℕ) (b b' : Block Data)
      → IsMined ssl lib kind bits b b'
      → IsSound ssl lib kind b
      → IsSound ssl lib kind b'
  mined-IsSound bits b b' m s = record {
    own_hash = m.own_hash;
    data_ok = rw (m.same_data, m.same_index) s.data_ok;
  }

  append_mined-IsLinked :
      (chain : Chain Data Double) (a : Adjuster Double) (bits : ℕ) (b : Block Data)
      (o : Option (Block Data))
      → ((b' : Block Data) → o ≡ some b' → IsMined ssl lib kind bits b b')
      → IsLinked ssl lib kind none chain.blocks
      → Follows ssl lib kind (get_last? chain.blocks) b
      → IsSound ssl lib kind b
      → Leaves
          (λ c. IsLinked ssl lib kind none c.blocks)
          (append_mined ssl lib kind floats config chain a o)
  unfolding append_mined
  append_mined-IsLinked chain a bits b none m l f s = tt
  append_mined-IsLinked chain a bits b (some b') m l f s =
      append-IsLinked ssl lib kind chain.blocks b' l (mined-Follows _ bits b b' (m b' refl) f)
        (mined-IsSound bits b b' (m b' refl) s)

  mine_block-IsLinked :
      (fuel : ℕ) (clock : ℕ → TimePoint) (b : Block Data) (chain : Chain Data Double)
      (a : Exec (Adjuster Double))
      → IsLinked ssl lib kind none chain.blocks
      → Follows ssl lib kind (get_last? chain.blocks) b
      → IsSound ssl lib kind b
      → Leaves
          (λ c. IsLinked ssl lib kind none c.blocks)
          (mine_block ssl lib kind floats config fuel clock b chain a)
  unfolding mine_block
  mine_block-IsLinked fuel clock b chain (done a) l f s =
      append_mined-IsLinked chain a (floats.log2_size a.difficulty) b _
        (mine-IsMined ssl lib kind fuel clock 2 _ b) l f s
  mine_block-IsLinked fuel clock b chain (throws e) l f s = l
  mine_block-IsLinked fuel clock b chain undefined l f s = tt

  construct_checked-IsLinked :
      (fuel : ℕ) (clock : ℕ → TimePoint) (b : Block Data) (chain : Chain Data Double) (v : Verdict)
      → valid_block ssl lib kind config (clock 1) b ≡ v
      → IsLinked ssl lib kind none chain.blocks
      → Follows ssl lib kind (get_last? chain.blocks) b
      → Leaves
          (λ c. IsLinked ssl lib kind none c.blocks)
          (construct_checked ssl lib kind floats config fuel clock b chain v)
  unfolding construct_checked
  construct_checked-IsLinked fuel clock b chain (invalid e) h l f = l
  construct_checked-IsLinked fuel clock b chain valid h l f =
      mine_block-IsLinked fuel clock b chain _ l f
        (valid_block-IsSound ssl lib kind config (clock 1) b h)

  -- Blockchain::construct_next_block keeps the blocks linked, where it returns and where it throws.
  pub construct_next_block-IsLinked :
      (fuel : ℕ) (clock : ℕ → TimePoint) (payload : Data) (chain : Chain Data Double)
      → IsLinked ssl lib kind none chain.blocks
      → Leaves
          (λ c. IsLinked ssl lib kind none c.blocks)
          (construct_next_block ssl lib kind floats config fuel clock payload chain)
  unfolding construct_next_block
  construct_next_block-IsLinked fuel clock payload chain l =
      construct_checked-IsLinked fuel clock _ chain _ refl l
        (next_block-Follows (clock 0) payload _)
