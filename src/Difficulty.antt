-- ===== src/Difficulty.antt =====
-- class DifficultyAdjuster of include/difficulty.h, over an interface for the double values.
pub mod Schedule
use buenzli_coin.Base.{ℕ, ◌+◌, ◌*◌, ◌%◌, ◌^◌, Bool, List, [], ◌∷◌, ◌==◌, if◌then◌else◌}
use buenzli_coin.Base.Int.{ℤ, pos, ◌-ℤ◌}
use buenzli_coin.Base.Exec.{Exec, done, undefined, bind_exec}
use buenzli_coin.Clock.{TimePoint, to_word}
use buenzli_coin.Config.{Config}

-- The operations on `double` and the functions of <cmath> that the sources use, conversions
-- included: `log2_size` is `static_cast<std::size_t>(std::log2(x))`, `pow2` is `std::pow(2.0, n)`.
pub record Floats (Double : Type 0) : Type 0 where
  pub zero_value : Double
  pub one : Double
  pub of_word : ℕ → Double
  pub of_int : ℤ → Double
  pub add : Double → Double → Double
  pub mul : Double → Double → Double
  pub div : Double → Double → Double
  pub lt : Double → Double → Bool
  pub log2_size : Double → ℕ
  pub pow2 : ℕ → Double
  pub to_size : Double → ℕ

pub record Adjuster (Double : Type 0) : Type 0 where
  pub difficulty : Double
  pub cumulative_difficulty : Double
  pub counter : ℕ
  pub timestamp : TimePoint

module _ {Double : Type 0} (floats : Floats Double) (config : Config Double) where
  open floats use {one, of_word, of_int, add, mul, div, lt}

  -- DifficultyAdjuster::DifficultyAdjuster
  unfoldable pub new_adjuster : Adjuster Double
  new_adjuster = record {
    difficulty = config.difficulty_init;
    cumulative_difficulty = floats.zero_value;
    counter = 0;
    timestamp = pos 0;
  }

  -- The two bounds on adjust_factor.
  unfoldable pub limit_factor : Double → Double
  limit_factor factor =
      let limit = config.difficulty_adjust_factor_limit in
      if lt factor (div one limit) then div one limit else if lt limit factor then limit else factor

  -- adjust_factor before the bounds; `time_expected * adjust_after` is unsigned.
  unfoldable pub adjust_factor : TimePoint → TimePoint → Double
  unfolding ◌-ℤ◌
  adjust_factor last timestamp =
      let expected = (to_word config.time_expected * config.difficulty_adjust_after) % 2 ^ 64 in
      div (of_word expected) (of_int (timestamp -ℤ last))

  -- The body of the second `if`.
  unfoldable pub readjust : TimePoint → Adjuster Double → Adjuster Double
  unfolding limit_factor adjust_factor
  readjust timestamp a =
      let difficulty = mul a.difficulty (limit_factor (adjust_factor a.timestamp timestamp)) in
      record a {
        difficulty = difficulty;
        cumulative_difficulty = add a.cumulative_difficulty difficulty;
        timestamp = timestamp;
      }

  -- DifficultyAdjuster::adjust. A remainder by zero is undefined behaviour.
  unfoldable pub adjust : TimePoint → Adjuster Double → Exec (Adjuster Double)
  adjust timestamp a =
      let next = (a.counter + 1) % 2 ^ 64 in
      if a.counter == 0
      then done (record a { timestamp = timestamp; counter = next })
      else if config.difficulty_adjust_after == 0
      then undefined
      else if a.counter % config.difficulty_adjust_after == 0
      then done (record (readjust timestamp a) { counter = next })
      else done (record a { counter = next })

  -- Adjusting by the timestamps of a list of blocks.
  pub adjust_all : List TimePoint → Adjuster Double → Exec (Adjuster Double)
  unfolding adjust
  adjust_all [] a = done a
  adjust_all (t ∷ ts) a = bind_exec (adjust t a) (adjust_all ts)
