-- ===== src/Blockchain/Built.antt =====
-- The chains that the members of Blockchain (include/blockchain.h) build from the empty one.
use buenzli_coin.Base.{
  ℕ, suc, ◌+◌, ◌^◌, ◌<◌, ◌≡◌, sym, ap, ◌∙◌, subst, false, Option, none, some, List, [], ◌∷◌, length,
  length-append, ◌≤◌, arith,
}
use buenzli_coin.Base.Exec.{
  Exec, done, throws, undefined, bind_exec, Outcome, returns, returns-injective, done-injective,
  bind_exec-eq-done, raises, faults, runs_on, Verdict, valid, invalid,
}
use buenzli_coin.Block.{BlockData, Block}
use buenzli_coin.Blockchain.{
  Chain, new_chain, construct_next_block, append_next_block, append_all, chain_from_json,
  append_mined, mine_block, construct_checked, outcome_exec,
}
use buenzli_coin.Clock.{TimePoint}
use buenzli_coin.Config.{Config}
use buenzli_coin.Crypto.Keypair.{OpenSsl}
use buenzli_coin.Difficulty.{Floats, Adjuster, adjust}
use buenzli_coin.Json.{JsonLib}
use buenzli_coin.Blockchain.Linked.{IsLinked}
use buenzli_coin.Blockchain.{is_greater}
use buenzli_coin.Blockchain.Append.{append_next_block_iff}
use buenzli_coin.Blockchain.Growth.{
  Leaves, append_next_block-IsLinked, construct_next_block-IsLinked,
}
use buenzli_coin.Block.{block_from_json}
use buenzli_coin.Difficulty.Schedule.{IsEarly, new_adjuster-IsEarly, adjust-IsEarly}

outcome_exec-eq-done {ℓ} :
    {S : Type ℓ} (o : Outcome S) {s : S} → outcome_exec o ≡ done s → o ≡ returns s
outcome_exec-eq-done (returns s) h = ap returns (done-injective h)
outcome_exec-eq-done (raises e s) h = cc
outcome_exec-eq-done faults h = cc
outcome_exec-eq-done runs_on h = cc

module _ (ssl : OpenSsl) (lib : JsonLib) (kind : BlockData lib.Json) {Double : Type 0}
    (floats : Floats Double) (config : Config Double) where
  open kind use {Data}

  -- The chains that arise from the empty one by blocks that are appended or constructed.
  pub data Built : Chain Data Double → Type 0 where
    start : Built (new_chain floats config)
    appended :
        (now : TimePoint) (b : Block Data) {c c' : Chain Data Double}
        → Built c
        → append_next_block ssl lib kind floats config now b c ≡ returns c'
        → Built c'
    constructed :
        (fuel : ℕ) (clock : ℕ → TimePoint) (payload : Data) {c c' : Chain Data Double}
        → Built c
        → construct_next_block ssl lib kind floats config fuel clock payload c ≡ returns c'
        → Built c'

  -- Every chain that appended and constructed blocks build from the empty one is linked: each block
  -- has its own hash and data that are valid at its index, and its index and its previous hash are
  -- those that follow the block before it.
  pub Built-IsLinked : {c : Chain Data Double} → Built c → IsLinked ssl lib kind none c.blocks
  unfolding new_chain
  Built-IsLinked start = tt
  Built-IsLinked (appended now b {c} r e) =
      subst (Leaves (λ c. IsLinked ssl lib kind none c.blocks)) e
        (append_next_block-IsLinked ssl lib kind floats config now b c (Built-IsLinked r))
  Built-IsLinked (constructed fuel clock payload {c} r e) =
      subst (Leaves (λ c. IsLinked ssl lib kind none c.blocks)) e (
        construct_next_block-IsLinked ssl lib kind floats config fuel clock payload c
          (Built-IsLinked r))

  -- One round of the loop of Blockchain::from_json.
  pub append_all-eq-done :
      (clock : ℕ → TimePoint) (i : ℕ) (j : lib.Json) (js : List lib.Json) (c c' : Chain Data Double)
      → append_all ssl lib kind floats config clock i (j ∷ js) c ≡ done c'
      → (b : Block Data) × (c₁ : Chain Data Double) × (block_from_json ssl lib kind j ≡ done b)
        × (append_next_block ssl lib kind floats config (clock i) b c ≡ returns c₁)
        × (append_all ssl lib kind floats config clock (suc i) js c₁ ≡ done c')
  unfolding append_all
  append_all-eq-done clock i j js c c' e =
      let (b, parsed, e₁) =
        bind_exec-eq-done (block_from_json ssl lib kind j)
          (λ b.
            bind_exec (outcome_exec (append_next_block ssl lib kind floats config (clock i) b c))
              (append_all ssl lib kind floats config clock (suc i) js))
          e in
      let (c₁, step, e₂) =
        bind_exec-eq-done
          (outcome_exec (append_next_block ssl lib kind floats config (clock i) b c))
          (append_all ssl lib kind floats config clock (suc i) js) e₁ in
      (b, c₁, parsed, outcome_exec-eq-done _ step, e₂)

  append_all-Built :
      (clock : ℕ → TimePoint) (i : ℕ) (js : List lib.Json) {c c' : Chain Data Double}
      → Built c
      → append_all ssl lib kind floats config clock i js c ≡ done c'
      → Built c'
  unfolding append_all
  append_all-Built clock i [] r e = subst Built (done-injective e) r
  append_all-Built clock i (j ∷ js) {c} {c'} r e =
      let (b, c₁, parsed, step, rest) = append_all-eq-done clock i j js c c' e in
      append_all-Built clock (suc i) js (appended (clock i) b r step) rest

  -- What Blockchain::from_json returns is a built chain.
  pub chain_from_json-Built :
      (clock : ℕ → TimePoint) (j : lib.Json) {c : Chain Data Double}
      → chain_from_json ssl lib kind floats config clock j ≡ done c
      → Built c
  unfolding chain_from_json
  chain_from_json-Built clock j e = append_all-Built clock 0 (lib.elements j) start e

  -- What construct_next_block returns has one block more, and the adjuster moved on once.
  append_mined_sound :
      (c : Chain Data Double) (a : Adjuster Double) (o : Option (Block Data))
      {c' : Chain Data Double}
      → append_mined ssl lib kind floats config c a o ≡ returns c'
      → (c'.adjuster ≡ a) × (length c'.blocks ≡ length c.blocks + 1)
  unfolding append_mined
  append_mined_sound c a none h = cc
  append_mined_sound c a (some b) h =
      let e = sym (returns-injective h) in
      (
        ap (λ (c : Chain Data Double). c.adjuster) e,
        ap (λ (c : Chain Data Double). length c.blocks) e ∙ length-append c.blocks (b ∷ []),
      )

  mine_block_sound :
      (fuel : ℕ) (clock : ℕ → TimePoint) (b : Block Data) (c : Chain Data Double)
      (x : Exec (Adjuster Double)) {c' : Chain Data Double}
      → mine_block ssl lib kind floats config fuel clock b c x ≡ returns c'
      → (x ≡ done c'.adjuster) × (length c'.blocks ≡ length c.blocks + 1)
  unfolding mine_block
  mine_block_sound fuel clock b c (done a) h =
      let (e, l) = append_mined_sound c a _ h in (ap done (sym e), l)
  mine_block_sound fuel clock b c (throws e) h = cc
  mine_block_sound fuel clock b c undefined h = cc

  construct_checked_sound :
      (fuel : ℕ) (clock : ℕ → TimePoint) (b : Block Data) (c : Chain Data Double) (v : Verdict)
      {c' : Chain Data Double}
      → construct_checked ssl lib kind floats config fuel clock b c v ≡ returns c'
      → (adjust floats config b.timestamp c.adjuster ≡ done c'.adjuster)
        × (length c'.blocks ≡ length c.blocks + 1)
  unfolding construct_checked
  construct_checked_sound fuel clock b c (invalid e) h = cc
  construct_checked_sound fuel clock b c valid h = mine_block_sound fuel clock b c _ h

  construct_next_block_sound :
      (fuel : ℕ) (clock : ℕ → TimePoint) (payload : Data) (c c' : Chain Data Double)
      → construct_next_block ssl lib kind floats config fuel clock payload c ≡ returns c'
      → (t : TimePoint) × (adjust floats config t c.adjuster ≡ done c'.adjuster)
        × (length c'.blocks ≡ length c.blocks + 1)
  unfolding construct_next_block
  construct_next_block_sound fuel clock payload c c' h =
      let (a, l) = construct_checked_sound fuel clock _ c _ h in (_, a, l)

  abbrev IsEarlyChain : Chain Data Double → Type 0
  IsEarlyChain c =
      length c.blocks ≤ config.difficulty_adjust_after
      → IsEarly floats config (length c.blocks) c.adjuster

  step-IsEarlyChain :
      (t : TimePoint) (c c' : Chain Data Double)
      → config.difficulty_adjust_after < 2 ^ 64
      → IsEarlyChain c
      → adjust floats config t c.adjuster ≡ done c'.adjuster
      → length c'.blocks ≡ length c.blocks + 1
      → IsEarlyChain c'
  step-IsEarlyChain t c c' w early a l le =
      let (a', e, early') =
        adjust-IsEarly floats config (length c.blocks) t c.adjuster (early (omega (arith, le, l)))
          (omega (arith, le, l)) (omega (arith, le, l, w)) in
      rw l (subst (IsEarly floats config (length c.blocks + 1)) (done-injective (sym e ∙ a)) early')

  Built-IsEarlyChain :
      {c : Chain Data Double} → config.difficulty_adjust_after < 2 ^ 64 → Built c → IsEarlyChain c
  unfolding new_chain
  Built-IsEarlyChain w start le = new_adjuster-IsEarly floats config
  Built-IsEarlyChain {c = c'} w (appended now b {c} r e) le =
      let x = (append_next_block_iff ssl lib kind floats config now b c c').0 e in
      step-IsEarlyChain b.timestamp c c' w (Built-IsEarlyChain w r) x.adjusted
        (ap length x.extended ∙ length-append c.blocks (b ∷ [])) le
  Built-IsEarlyChain {c = c'} w (constructed fuel clock payload {c} r e) le =
      let (t, a, l) = construct_next_block_sound fuel clock payload c c' e in
      step-IsEarlyChain t c c' w (Built-IsEarlyChain w r) a l le

  -- Of two built chains with at most as many blocks as the adjustment interval, neither is greater,
  -- whatever their lengths are.
  pub early_not_greater :
      (a b : Chain Data Double)
      → Built a
      → Built b
      → config.difficulty_adjust_after < 2 ^ 64
      → length a.blocks ≤ config.difficulty_adjust_after
      → length b.blocks ≤ config.difficulty_adjust_after
      → is_greater floats config a b ≡ false
  unfolding is_greater
  early_not_greater a b ra rb w la lb =
      rw ((Built-IsEarlyChain w ra la).nothing_yet, (Built-IsEarlyChain w rb lb).nothing_yet)
        (ground arith)
