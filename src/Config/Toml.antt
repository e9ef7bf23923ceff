-- ===== src/Config/Toml.antt =====
-- include/config.h and src/config.cc: the default configuration, and the one that a TOML file gives.
use mathlib.Core.Path.{fun_ext}
use buenzli_coin.Base.{ℕ, ◌≡◌, refl, ap, Option, none, some, String, Bytes}
use buenzli_coin.Base.Int.{ℤ, pos}
use buenzli_coin.Base.Exec.{Result, map_result}
use buenzli_coin.Config.{Config}
use buenzli_coin.Difficulty.{Floats}

-- What the code uses of the library toml++, as documented: `find` is `contains` and then `[]`, and the
-- `value` functions give nothing where the value is not of the type or does not fit into it.
pub record TomlLib (Double : Type 0) : Type 1 where
  pub Table : Type 0
  pub Value : Type 0
  pub parse_file : Bytes → Result Table
  pub find : Table → String → Option Value
  pub as_table : Value → Option Table
  pub int_value : Value → Option ℤ
  pub size_value : Value → Option ℕ
  pub double_value : Value → Option Double

-- The default member initialisers of Config
unfoldable pub from_defaults : {Double : Type 0} → Floats Double → Config Double
from_defaults floats = record {
  time_expected = pos 10000;
  time_max_delta = pos 60000;
  difficulty_init = floats.of_int (pos 2);
  difficulty_adjust_after = 10;
  difficulty_adjust_factor_limit = floats.of_int (pos 16);
  num_per_block = 10;
  reward_amount = 50;
}

abbrev pub or_default : {A : Type 0} → A → Option A → A
or_default var none = var
or_default var (some x) = x

abbrev pub bind_option : {A B : Type 0} → Option A → (A → Option B) → Option B
bind_option none f = none
bind_option (some x) f = f x

module _ {Double : Type 0} (toml : TomlLib Double) where
  open toml use {Table, Value, parse_file, find, as_table, int_value, size_value, double_value}

  -- toml_assign: the variable after it.
  unfoldable pub toml_assign : {A : Type 0} → (Value → Option A) → A → Table → String → A
  toml_assign value var parent name = or_default var (bind_option (find parent name) value)

  abbrev pub act_on :
      (Table → Config Double → Config Double) → Config Double → Option Table → Config Double
  act_on action cfg none = cfg
  act_on action cfg (some t) = action t cfg

  -- toml_for_table, for an action on the configuration.
  unfoldable pub toml_for_table :
      Table → String → (Table → Config Double → Config Double) → Config Double → Config Double
  toml_for_table parent name action cfg =
      act_on action cfg (bind_option (find parent name) as_table)

  -- The first action of Config::from_toml
  unfoldable pub assign_blockgen : Table → Config Double → Config Double
  unfolding toml_assign
  assign_blockgen t cfg = record cfg {
    time_expected = toml_assign int_value cfg.time_expected t "time_expected";
    time_max_delta = toml_assign int_value cfg.time_max_delta t "time_max_delta";
    difficulty_init = toml_assign double_value cfg.difficulty_init t "difficulty_init";
    difficulty_adjust_after =
        toml_assign size_value cfg.difficulty_adjust_after t "difficulty_adjust_after";
    difficulty_adjust_factor_limit =
        toml_assign double_value cfg.difficulty_adjust_factor_limit t
          "difficulty_adjust_factor_limit";
  }

  -- The second action of Config::from_toml
  unfoldable pub assign_transaction : Table → Config Double → Config Double
  unfolding toml_assign
  assign_transaction t cfg = record cfg {
    num_per_block = toml_assign size_value cfg.num_per_block t "num_per_block";
    reward_amount = toml_assign size_value cfg.reward_amount t "reward_amount";
  }

  -- Config::from_toml, once the file is parsed.
  unfoldable pub read_config : Floats Double → Table → Config Double
  unfolding toml_for_table assign_blockgen assign_transaction from_defaults
  read_config floats t =
      toml_for_table t "transaction" assign_transaction
        (toml_for_table t "blockgen" assign_blockgen (from_defaults floats))

  -- Config::from_toml
  unfoldable pub from_toml : Floats Double → Bytes → Result (Config Double)
  unfolding read_config
  from_toml floats filename = map_result (read_config floats) (parse_file filename)

  -- The value under a name in a section, or the default.
  abbrev pub setting : {A : Type 0} → Option Table → String → (Value → Option A) → A → A
  setting section name value default =
      or_default default (bind_option section λ t. bind_option (find t name) value)

  acted_settings :
      (floats : Floats Double) (blockgen transaction : Option Table)
      → act_on assign_transaction
          (act_on assign_blockgen (from_defaults floats) blockgen)
          transaction
        ≡ record {
          time_expected = setting blockgen "time_expected" int_value (pos 10000);
          time_max_delta = setting blockgen "time_max_delta" int_value (pos 60000);
          difficulty_init = setting blockgen "difficulty_init" double_value (floats.of_int (pos 2));
          difficulty_adjust_after = setting blockgen "difficulty_adjust_after" size_value 10;
          difficulty_adjust_factor_limit =
              setting blockgen "difficulty_adjust_factor_limit" double_value
                (floats.of_int (pos 16));
          num_per_block = setting transaction "num_per_block" size_value 10;
          reward_amount = setting transaction "reward_amount" size_value 50;
        }
  unfolding assign_transaction assign_blockgen from_defaults
  acted_settings floats none none = refl
  acted_settings floats none (some t) = refl
  acted_settings floats (some t) none = refl
  acted_settings floats (some t) (some t') = refl

  -- Every member of the configuration that from_toml returns is the value that the file has for it in
  -- its section, if it has one of the right type, and otherwise the default.
  pub from_toml_lem :
      (floats : Floats Double) (filename : Bytes)
      → from_toml floats filename
        ≡ map_result
            (λ t.
              let blockgen = bind_option (find t "blockgen") as_table in
              let transaction = bind_option (find t "transaction") as_table in
              record {
                time_expected = setting blockgen "time_expected" int_value (pos 10000);
                time_max_delta = setting blockgen "time_max_delta" int_value (pos 60000);
                difficulty_init =
                    setting blockgen "difficulty_init" double_value (floats.of_int (pos 2));
                difficulty_adjust_after = setting blockgen "difficulty_adjust_after" size_value 10;
                difficulty_adjust_factor_limit =
                    setting blockgen "difficulty_adjust_factor_limit" double_value
                      (floats.of_int (pos 16));
                num_per_block = setting transaction "num_per_block" size_value 10;
                reward_amount = setting transaction "reward_amount" size_value 50;
              })
            (parse_file filename)
  unfolding from_toml read_config toml_for_table
  from_toml_lem floats filename =
      ap (λ f. map_result f (parse_file filename)) (fun_ext λ t. acted_settings floats _ _)
