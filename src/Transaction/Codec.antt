-- ===== src/Transaction/Codec.antt =====
-- to_json and from_json of src/transaction.cc.
use buenzli_coin.Base.{[], ◌∷◌, map, if◌then◌else◌, Bytes, codes}
use buenzli_coin.Base.Exec.{Result, ok, err, bind_result, all_results, invalid_transaction_type}
use buenzli_coin.Crypto.Digest.{to_string, from_string}
use buenzli_coin.Json.{JsonLib, json_get, get_string_at, get_number_at}
use buenzli_coin.Transaction.{TxI, TxO, UTxO, Kind, standard, reward, Transaction}

unfoldable pub kind_name : Kind → Bytes
kind_name standard = codes "standard"
kind_name reward = codes "reward"

module _ (lib : JsonLib) where
  open lib use {Json, string, number, array, object, elements, equals}

  unfoldable pub input_to_json : TxI → Json
  input_to_json i = object (
      ("output_hash", string (to_string i.output_hash))
      ∷ ("output_index", number i.output_index)
      ∷ ("signature", string (to_string i.signature))
      ∷ [])

  unfoldable pub input_from_json : Json → Result TxI
  input_from_json j =
      bind_result (bind_result (get_string_at lib j "output_hash") from_string) λ output_hash.
        bind_result (get_number_at lib j "output_index") λ output_index.
          bind_result (bind_result (get_string_at lib j "signature") from_string) λ signature.
            ok (record {
              output_hash = output_hash;
              output_index = output_index;
              signature = signature;
            })

  unfoldable pub output_to_json : TxO → Json
  output_to_json o = object (("amount", number o.amount) ∷ ("address", string o.address) ∷ [])

  unfoldable pub output_from_json : Json → Result TxO
  output_from_json j = bind_result (get_number_at lib j "amount") λ amount.
      bind_result (get_string_at lib j "address")
        λ address. ok (record { amount = amount; address = address })

  -- UTxO::to_json
  unfoldable pub unspent_to_json : UTxO → Json
  unfolding output_to_json
  unspent_to_json u = object (
      ("output_hash", string (to_string u.output_hash))
      ∷ ("output_index", number u.output_index)
      ∷ ("output", output_to_json u.output)
      ∷ [])

  -- Transaction::to_json; the unspent outputs that the transaction is linked with are left out.
  unfoldable pub transaction_to_json : Transaction → Json
  unfolding kind_name
  transaction_to_json t = object (
      ("type", string (kind_name t.kind))
      ∷ ("index", number t.index)
      ∷ ("hash", string (to_string t.hash))
      ∷ ("inputs", array (map input_to_json t.inputs))
      ∷ ("outputs", array (map output_to_json t.outputs))
      ∷ [])

  unfoldable pub kind_of : Json → Result Kind
  kind_of j =
      if equals j (string (codes "standard"))
      then ok standard
      else if equals j (string (codes "reward"))
      then ok reward
      else err invalid_transaction_type

  -- Transaction::from_json; the new transaction is linked with no unspent output.
  unfoldable pub transaction_from_json : Json → Result Transaction
  unfolding kind_of
  transaction_from_json j = bind_result (bind_result (json_get lib j "type") kind_of) λ kind.
      bind_result (get_number_at lib j "index") λ index.
        bind_result (bind_result (get_string_at lib j "hash") from_string) λ hash.
          bind_result
            (bind_result (json_get lib j "inputs") λ js. all_results input_from_json (elements js))
            λ inputs.
              bind_result
                (bind_result (json_get lib j "outputs")
                  λ js. all_results output_from_json (elements js))
                λ outputs. ok (record {
                  kind = kind;
                  index = index;
                  hash = hash;
                  inputs = inputs;
                  outputs = outputs;
                  unspent_outputs = [];
                })
