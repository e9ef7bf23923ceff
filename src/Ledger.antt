-- ===== src/Ledger.antt =====
-- The chain whose blocks hold transactions: Blockchain<TransactionList<>> of src/node.cc.
pub mod Relinked
pub mod Received
pub mod RoundTrip
use buenzli_coin.Base.{List}
use buenzli_coin.Block.{BlockData}
use buenzli_coin.Config.{Config}
use buenzli_coin.Crypto.Keypair.{OpenSsl}
use buenzli_coin.Json.{JsonLib}
use buenzli_coin.Transaction.{Transaction}
use buenzli_coin.TransactionList.{valid_list, list_to_json, list_from_json}

abbrev pub list_data :
    OpenSsl → (lib : JsonLib) → {Double : Type 0} → Config Double → BlockData lib.Json
list_data ssl lib config = record {
  Data = List Transaction;
  valid_data = valid_list ssl config;
  data_to_json = list_to_json lib;
  data_from_json = list_from_json lib;
}
