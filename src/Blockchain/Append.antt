-- ===== src/Blockchain/Append.antt =====
-- What Blockchain::append_next_block (include/blockchain.h) asks for and does.
use buenzli_coin.Base.{
  ◌≡◌, refl, sym, ap, ◌∙◌, ◌↔◌, Bool, true, false, [], ◌∷◌, ◌++◌, if◌then◌else◌, get_last?,
}
use buenzli_coin.Base.Exec.{
  Exec, done, throws, undefined, returns, returns-injective, raises, Verdict, valid, invalid, Error,
}
use buenzli_coin.Block.{BlockData, Block, max_difficulty}
use buenzli_coin.Blockchain.{Chain, check_next, append_next_block, append_adjusted, append_checked}
use buenzli_coin.Clock.{TimePoint}
use buenzli_coin.Config.{Config}
use buenzli_coin.Crypto.Keypair.{OpenSsl}
use buenzli_coin.Difficulty.{Floats, Adjuster, adjust}
use buenzli_coin.Json.{JsonLib}

module _ (ssl : OpenSsl) (lib : JsonLib) (kind : BlockData lib.Json) {Double : Type 0}
    (floats : Floats Double) (config : Config Double) where
  open kind use {Data}

  -- The block passes its check against the last one, the adjuster moves on by its time stamp, and
  -- the difficulty that its hash can meet is not below the new one.
  pub record IsAppended (now : TimePoint) (b : Block Data) (c c' : Chain Data Double) : Type 0 where
    pub checked : check_next ssl lib kind floats config now b (get_last? c.blocks) ≡ valid
    pub adjusted : adjust floats config b.timestamp c.adjuster ≡ done c'.adjuster
    pub strong : floats.lt (max_difficulty floats b) c'.adjuster.difficulty ≡ false
    pub extended : c'.blocks ≡ c.blocks ++ b ∷ []

  strong_sound :
      (t : Bool) (e : Error) (s s' : Chain Data Double) {c' : Chain Data Double}
      → (if t then raises e s else returns s') ≡ returns c'
      → (t ≡ false) × (s' ≡ c')
  strong_sound true e s s' h = cc
  strong_sound false e s s' h = (refl, returns-injective h)

  adjusted_sound :
      (b : Block Data) (c : Chain Data Double) (a : Exec (Adjuster Double)) {c' : Chain Data Double}
      → append_adjusted ssl lib kind floats config b c a ≡ returns c'
      → (a ≡ done c'.adjuster)
        × (floats.lt (max_difficulty floats b) c'.adjuster.difficulty ≡ false)
        × (c'.blocks ≡ c.blocks ++ b ∷ [])
  unfolding append_adjusted
  adjusted_sound b c (done a) h =
      let (t, e) = strong_sound _ _ _ _ h in
      (
        ap (λ (c : Chain Data Double). done c.adjuster) e,
        ap (λ (c : Chain Data Double). floats.lt (max_difficulty floats b) c.adjuster.difficulty)
              (sym e)
            ∙ t,
        ap (λ (c : Chain Data Double). c.blocks) (sym e),
      )
  adjusted_sound b c (throws e) h = cc
  adjusted_sound b c undefined h = cc

  checked_sound :
      (b : Block Data) (c : Chain Data Double) (v : Verdict) {c' : Chain Data Double}
      → append_checked ssl lib kind floats config b c v ≡ returns c'
      → (v ≡ valid)
        × (append_adjusted ssl lib kind floats config b c
              (adjust floats config b.timestamp c.adjuster)
            ≡ returns c')
  unfolding append_checked
  checked_sound b c valid h = (refl, h)
  checked_sound b c (invalid e) h = cc

  append_next_block-IsAppended :
      (now : TimePoint) (b : Block Data) (c c' : Chain Data Double)
      → append_next_block ssl lib kind floats config now b c ≡ returns c'
      → IsAppended now b c c'
  unfolding append_next_block
  append_next_block-IsAppended now b c c' h =
      let (v, h') = checked_sound b c _ h in
      let (a, t, e) = adjusted_sound b c _ h' in
      record { checked = v; adjusted = a; strong = t; extended = e }

  IsAppended-append_next_block :
      (now : TimePoint) (b : Block Data) (c c' : Chain Data Double)
      → IsAppended now b c c'
      → append_next_block ssl lib kind floats config now b c ≡ returns c'
  unfolding append_next_block append_checked append_adjusted
  IsAppended-append_next_block now b c c' r =
      rw (r.checked, append_checked)
        (rw (r.adjusted, append_adjusted) (rw r.strong (rw (← r.extended))))

  -- Blockchain::append_next_block returns exactly when the block passes its checks and is strong
  -- enough for the adjusted difficulty; the block then stands at the end.
  pub append_next_block_iff :
      (now : TimePoint) (b : Block Data) (c c' : Chain Data Double)
      → (append_next_block ssl lib kind floats config now b c ≡ returns c') ↔ IsAppended now b c c'
  append_next_block_iff now b c c' =
      (append_next_block-IsAppended now b c c', IsAppended-append_next_block now b c c')
