-- ===== src/Text.antt =====
-- class Text of include/text.h: the data of a block where TRANSACTIONS is not defined.
use buenzli_coin.Base.{ℕ, Bytes}
use buenzli_coin.Base.Exec.{Verdict, valid}
use buenzli_coin.Block.{BlockData}
use buenzli_coin.Json.{JsonLib}

-- Text::valid accepts every text.
unfoldable pub valid_text : Bytes → ℕ → Verdict
valid_text text index = valid

abbrev pub text_data : (lib : JsonLib) → BlockData lib.Json
text_data lib = record {
  Data = Bytes;
  valid_data = valid_text;
  data_to_json = lib.string;
  data_from_json = lib.get_string;
}
