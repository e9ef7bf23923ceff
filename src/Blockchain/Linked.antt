-- ===== src/Blockchain/Linked.antt =====
-- The invariant of the blocks in include/blockchain.h, and that the two members which add a block
-- keep it.
use buenzli_coin.Base.{
  ℕ, zero, suc, ◌+◌, ◌%◌, ◌^◌, ◌<◌, ◌≡◌, refl, sym, ap, subst, Bool, true, false, not, Option, none,
  some, List, [], ◌∷◌, ◌++◌, ==_iff, get_last?, get_elem?, length, arith, bytes_eq_sound,
}
use buenzli_coin.Base.Exec.{Verdict, valid, invalid, Error, and_then, refuse}
use buenzli_coin.Block.{BlockData, Block, is_none, is_hash, data_verdict, block_hash, valid_block}
use buenzli_coin.Blockchain.{valid_genesis_block, valid_next_block, check_next, wrap}
use buenzli_coin.Clock.{TimePoint}
use buenzli_coin.Config.{Config}
use buenzli_coin.Crypto.Digest.{Digest}
use buenzli_coin.Crypto.Keypair.{OpenSsl}
use buenzli_coin.Difficulty.{Floats}
use buenzli_coin.Json.{JsonLib}

and_then_sound : (v w : Verdict) → and_then v w ≡ valid → (v ≡ valid) × (w ≡ valid)
and_then_sound valid w h = (refl, h)
and_then_sound (invalid e) w h = cc

refuse_sound : (e : Error) (b : Bool) → refuse e (not b) ≡ valid → b ≡ true
refuse_sound e true h = refl
refuse_sound e false h = cc

data_verdict_sound : (v : Verdict) → data_verdict v ≡ valid → v ≡ valid
data_verdict_sound valid h = refl
data_verdict_sound (invalid e) h = cc

wrap_sound : (f : Error → Error) (v : Verdict) → wrap f v ≡ valid → v ≡ valid
wrap_sound f valid h = refl
wrap_sound f (invalid e) h = cc

is_hash_sound : (o : Option Digest) (d : Digest) → is_hash o d ≡ true → o ≡ some d
is_hash_sound none d h = cc
is_hash_sound (some e) d h = ap some (bytes_eq_sound e d h)

is_none_sound {ℓ} : {A : Type ℓ} (o : Option A) → is_none o ≡ true → o ≡ none
is_none_sound none h = refl
is_none_sound (some e) h = cc

some_inj {ℓ} : {A : Type ℓ} {a b : A} → some a ≡ some b → a ≡ b
some_inj e = cc

module _ (ssl : OpenSsl) (lib : JsonLib) (kind : BlockData lib.Json) where
  open kind use {Data, valid_data}

  -- A block that carries its own hash and data that are valid at its index.
  pub record IsSound (b : Block Data) : Type 0 where
    pub own_hash : b.hash ≡ block_hash ssl lib kind b
    pub data_ok : valid_data b.payload b.index ≡ valid

  -- What ties a block to the one before it, if there is one.
  abbrev pub Follows : Option (Block Data) → Block Data → Type 0
  Follows none b = (b.index ≡ 0) × (b.hash_prev ≡ none)
  Follows (some prev) b = (b.index ≡ (prev.index + 1) % 2 ^ 64) × (b.hash_prev ≡ some prev.hash)

  -- Sound blocks, each tied to the one before it, after `prev`.
  abbrev pub IsLinked : Option (Block Data) → List (Block Data) → Type 0
  IsLinked prev [] = Unit
  IsLinked prev (b ∷ bs) = Follows prev b × IsSound b × IsLinked (some b) bs

  abbrev last_or : Option (Block Data) → List (Block Data) → Option (Block Data)
  last_or prev [] = prev
  last_or prev (b ∷ bs) = last_or (some b) bs

  IsLinked-append :
      (prev : Option (Block Data)) (bs : List (Block Data)) (b : Block Data)
      → IsLinked prev bs
      → Follows (last_or prev bs) b
      → IsSound b
      → IsLinked prev (bs ++ b ∷ [])
  IsLinked-append prev [] b l f s = (f, s, tt)
  IsLinked-append prev (c ∷ bs) b l f s = (l.0, l.1, IsLinked-append (some c) bs b l.2 f s)

  last_or-some :
      (b : Block Data) (bs : List (Block Data)) → last_or (some b) bs ≡ get_last? (b ∷ bs)
  last_or-some b [] = refl
  last_or-some b (c ∷ bs) = last_or-some c bs

  last_or-none : (bs : List (Block Data)) → last_or none bs ≡ get_last? bs
  last_or-none [] = refl
  last_or-none (b ∷ bs) = last_or-some b bs

  pub append-IsLinked :
      (bs : List (Block Data)) (b : Block Data)
      → IsLinked none bs
      → Follows (get_last? bs) b
      → IsSound b
      → IsLinked none (bs ++ b ∷ [])
  append-IsLinked bs b l f s =
      IsLinked-append none bs b l (subst (λ o. Follows o b) (sym (last_or-none bs)) f) s

  module _ {Double : Type 0} (config : Config Double) where
    pub valid_block-IsSound :
        (now : TimePoint) (b : Block Data)
        → valid_block ssl lib kind config now b ≡ valid
        → IsSound b
    unfolding valid_block
    valid_block-IsSound now b h =
        let (d, rest) = and_then_sound _ _ h in
        let (t, own) = and_then_sound _ _ rest in
        record {
          own_hash = bytes_eq_sound _ _ (refuse_sound _ _ own);
          data_ok = data_verdict_sound _ d;
        }

    pub check_next-Follows :
        (floats : Floats Double) (now : TimePoint) (b : Block Data) (prev : Option (Block Data))
        → check_next ssl lib kind floats config now b prev ≡ valid
        → Follows prev b × IsSound b
    unfolding check_next valid_genesis_block valid_next_block
    check_next-Follows floats now b none h =
        let (i, rest) = and_then_sound _ _ (wrap_sound _ _ h) in
        let (p, v) = and_then_sound _ _ rest in
        (
          ((==_iff _ _).0 (refuse_sound _ _ i), is_none_sound _ (refuse_sound _ _ p)),
          valid_block-IsSound now b v,
        )
    check_next-Follows floats now b (some prev) h =
        let (i, rest) = and_then_sound _ _ (wrap_sound _ _ h) in
        let (p, v) = and_then_sound _ _ rest in
        (
          ((==_iff _ _).0 (refuse_sound _ _ i), is_hash_sound _ _ (refuse_sound _ _ p)),
          valid_block-IsSound now b v,
        )

  IsLinked-index :
      (prev : Block Data) (bs : List (Block Data)) (n i : ℕ) (b : Block Data)
      → IsLinked (some prev) bs
      → prev.index ≡ n
      → n + length bs < 2 ^ 64
      → get_elem? bs i ≡ some b
      → b.index ≡ n + 1 + i
  IsLinked-index prev [] n i b l e w g = cc
  IsLinked-index prev (c ∷ bs) n zero b l e w g =
      omega (arith, l.0.0, e, w, ap (λ (c : Block Data). c.index) (some_inj g))
  IsLinked-index prev (c ∷ bs) n (suc i) b l e w g =
      omega (
        arith,
        IsLinked-index c bs (n + 1) i b l.2 (omega (arith, l.0.0, e, w)) (omega (arith, w)) g,
      )

  -- In linked blocks the one at position i has the index i, as long as there are fewer than 2 ^ 64.
  pub linked_index :
      (bs : List (Block Data)) (i : ℕ) (b : Block Data)
      → IsLinked none bs
      → length bs < 2 ^ 64
      → get_elem? bs i ≡ some b
      → b.index ≡ i
  linked_index [] i b l w g = cc
  linked_index (c ∷ bs) zero b l w g =
      omega (arith, l.0.0, ap (λ (c : Block Data). c.index) (some_inj g))
  linked_index (c ∷ bs) (suc i) b l w g =
      omega (arith, IsLinked-index c bs 0 i b l.2 l.0.0 (omega (arith, w)) g)
