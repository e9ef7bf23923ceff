-- ===== src/Difficulty/Schedule.antt =====
-- When and by how much the difficulty of include/difficulty.h changes.
use native.Mathlib.Nat.{mod-eq_of_lt, add-zero}
use buenzli_coin.Base.{
  ℕ, ◌+◌, ◌%◌, ◌^◌, ◌≤◌, ◌<◌, ◌≡◌, refl, false, List, [], ◌∷◌, ◌==◌, arith, length, inl, inr,
  Bool-cases,
}
use buenzli_coin.Base.Exec.{done}
use buenzli_coin.Clock.{TimePoint}
use buenzli_coin.Config.{Config}
use buenzli_coin.Difficulty.{Floats, Adjuster, new_adjuster, limit_factor, adjust, adjust_all}

module _ {Double : Type 0} (floats : Floats Double) (config : Config Double) where
  open floats use {one, div, lt}

  -- The factor that is applied lies between 1 / limit and the limit, provided that the limit is not
  -- below 1 / limit and that no value is below itself.
  pub limit_factor_bounds :
      (factor : Double)
      → ((x : Double) → lt x x ≡ false)
      → let limit = config.difficulty_adjust_factor_limit in
        lt limit (div one limit) ≡ false
        → (lt (limit_factor floats config factor) (div one limit) ≡ false)
          × (lt limit (limit_factor floats config factor) ≡ false)
  unfolding limit_factor
  limit_factor_bounds factor irr h = ground (
    arith,
    irr config.difficulty_adjust_factor_limit,
    irr (div one config.difficulty_adjust_factor_limit),
  )

  -- Early adjustments: a counter of n, and the difficulties as they were at first.
  pub record IsEarly (n : ℕ) (a : Adjuster Double) : Type 0 where
    pub counted : a.counter ≡ n
    pub initial : a.difficulty ≡ config.difficulty_init
    pub nothing_yet : a.cumulative_difficulty ≡ floats.zero_value

  pub new_adjuster-IsEarly : IsEarly 0 (new_adjuster floats config)
  unfolding new_adjuster
  new_adjuster-IsEarly = record { counted = refl; initial = refl; nothing_yet = refl }

  -- An adjustment before the counter reaches the configured number only counts.
  pub adjust-IsEarly :
      (n : ℕ) (t : TimePoint) (a : Adjuster Double)
      → IsEarly n a
      → n < config.difficulty_adjust_after
      → n + 1 < 2 ^ 64
      → (a' : Adjuster Double) × (adjust floats config t a ≡ done a') × IsEarly (n + 1) a'
  unfolding adjust
  adjust-IsEarly n t a e lt' w = elim (Bool-cases (a.counter == 0)) [
    | inl z ↦ (record a { timestamp = t; counter = (a.counter + 1) % 2 ^ 64 }, rw z, early)
    | inr nz ↦ (
      record a { counter = (a.counter + 1) % 2 ^ 64 },
      ground (arith, mod-eq_of_lt {n = a.counter} {m = config.difficulty_adjust_after}),
      early,
    )
  ]
    where
      counts : (a.counter + 1) % 2 ^ 64 ≡ n + 1
      counts = omega (arith, e.counted, w)

      early :
          {t' : TimePoint}
          → IsEarly (n + 1) (record a { timestamp = t'; counter = (a.counter + 1) % 2 ^ 64 })
      early = record { counted = counts; initial = e.initial; nothing_yet = e.nothing_yet }

  -- Until as many blocks as the configured number are counted, the difficulty is the initial one
  -- and the cumulative difficulty is zero.
  pub adjust_all-IsEarly :
      (ts : List TimePoint) (n : ℕ) (a : Adjuster Double)
      → IsEarly n a
      → n + length ts ≤ config.difficulty_adjust_after
      → config.difficulty_adjust_after < 2 ^ 64
      → (a' : Adjuster Double) × (adjust_all floats config ts a ≡ done a')
        × IsEarly (n + length ts) a'
  unfolding adjust_all
  adjust_all-IsEarly [] n a e le w = (a, refl, rw add-zero e)
  adjust_all-IsEarly (t ∷ ts) n a e le w =
      let (a₁, s, e₁) = adjust-IsEarly n t a e (omega (arith, le)) (omega (arith, le, w)) in
      let (a₂, r, e₂) = adjust_all-IsEarly ts (n + 1) a₁ e₁ (omega (arith, le)) w in
      let moved : n + 1 + length ts ≡ n + length (t ∷ ts) = omega arith in
      (a₂, rw s r, rw moved at e₂)
