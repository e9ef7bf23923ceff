-- ===== src/Config.antt =====
-- include/config.h: the configuration, over the type of its floating-point values.
pub mod Toml
use buenzli_coin.Base.{ℕ}
use buenzli_coin.Base.Int.{ℤ}

pub record Config (Double : Type 0) : Type 0 where
  pub time_expected : ℤ
  pub time_max_delta : ℤ
  pub difficulty_init : Double
  pub difficulty_adjust_after : ℕ
  pub difficulty_adjust_factor_limit : Double
  pub num_per_block : ℕ
  pub reward_amount : ℕ
