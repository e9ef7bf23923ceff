-- ===== src/Pool/Invariant.antt =====
-- What the pool of src/transaction.cc keeps true.
use buenzli_coin.Base.{
  or_false, ◌≤◌, ◌≡◌, ◌≢◌, ◌↔◌, refl, ◌∙◌, Bool, true, false, [], ◌∷◌, ◌++◌, ◌==◌, ==_iff,
  if◌then◌else◌, length, length-append, any, All, arith,
}
use buenzli_coin.Base.Exec.{Result, ok, err, Verdict, valid, invalid, pool_full}
use buenzli_coin.Config.{Config}
use buenzli_coin.Crypto.Keypair.{OpenSsl}
use buenzli_coin.Transaction.{Transaction, valid_transaction}
use buenzli_coin.Pool.{Pool, add, shares_input, push_valid}

-- No transaction shares an input with an earlier one.
abbrev pub IsDisjoint : Pool → Type 0
IsDisjoint [] = Unit
IsDisjoint (t ∷ ts) = All (λ s. shares_input s t ≡ false) ts × IsDisjoint ts

full_guard :
    (b : Bool) (r : Result Pool) {pool' : Pool}
    → (if b then err pool_full else r) ≡ ok pool'
    → (b ≡ false) × (r ≡ ok pool')
full_guard true r h = cc
full_guard false r h = (refl, h)

full_guard_complete : (b : Bool) (r : Result Pool) → b ≢ true → (if b then err pool_full else r) ≡ r
full_guard_complete true r h = absurd (h refl)
full_guard_complete false r h = refl

module _ (ssl : OpenSsl) {Double : Type 0} (config : Config Double) where
  pub record IsPool (pool : Pool) : Type 0 where
    pub bounded : length pool ≤ config.num_per_block
    pub accepted : All (λ t. valid_transaction ssl config t ≡ valid) pool
    pub disjoint : IsDisjoint pool

  -- What `add` asks for.
  pub record IsAdmissible (t : Transaction) (pool : Pool) : Type 0 where
    pub not_full : length pool ≢ config.num_per_block
    pub accepted : valid_transaction ssl config t ≡ valid
    pub unshared : any (shares_input t) pool ≡ false

  push_sound :
      (v : Verdict) (t : Transaction) (pool pool' : Pool)
      → push_valid v t pool ≡ ok pool'
      → (v ≡ valid) × (any (shares_input t) pool ≡ false) × (pool' ≡ pool ++ t ∷ [])
  push_sound valid t pool pool' h = ground arith
  push_sound (invalid e) t pool pool' h = cc

  -- `add` succeeds exactly when the pool is not at its size limit, the transaction is accepted and
  -- shares no input with one of the pool; it then stands at the end, and nothing else changes.
  pub add_iff :
      (t : Transaction) (pool pool' : Pool)
      → (add ssl config t pool ≡ ok pool') ↔ (IsAdmissible t pool × (pool' ≡ pool ++ t ∷ []))
  unfolding add
  add_iff t pool pool' = (
    λ h.
        let (room, rest) = full_guard (length pool == config.num_per_block) _ h in
        let (v, u, e) = push_sound _ t pool pool' rest in
        (record { not_full = λ q. cc (room, (==_iff _ _).1 q); accepted = v; unshared = u }, e),
    λ h.
        full_guard_complete _ _ (λ q. h.0.not_full ((==_iff _ _).0 q))
        ∙ rw (h.0.accepted) (rw (h.0.unshared, h.1)),
  )

  append-All :
      (P : Transaction → Type 0) (pool : Pool) (t : Transaction)
      → All P pool
      → P t
      → All P (pool ++ t ∷ [])
  append-All P [] t h p = (p, tt)
  append-All P (s ∷ pool) t h p = (h.0, append-All P pool t h.1 p)

  append-IsDisjoint :
      (pool : Pool) (t : Transaction)
      → IsDisjoint pool
      → any (shares_input t) pool ≡ false
      → IsDisjoint (pool ++ t ∷ [])
  append-IsDisjoint [] t d h = (tt, tt)
  append-IsDisjoint (s ∷ pool) t d h =
      (append-All _ pool t d.0 (or_false _ _ h).0, append-IsDisjoint pool t d.1 (or_false _ _ h).1)

  -- A pool stays within its limit, with accepted transactions that share no input.
  pub add-IsPool :
      (t : Transaction) (pool pool' : Pool)
      → IsPool pool
      → add ssl config t pool ≡ ok pool'
      → IsPool pool'
  add-IsPool t pool pool' p h =
      let (v, e) = (add_iff t pool pool').0 h in
      rw e (record {
        bounded = omega (arith, length-append pool (t ∷ []), v.not_full, p.bounded);
        accepted = append-All _ pool t p.accepted v.accepted;
        disjoint = append-IsDisjoint pool t p.disjoint v.unshared;
      })
