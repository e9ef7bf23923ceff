-- ===== src/Transaction/RoundTrip.antt =====
-- Writing a transaction as JSON and reading it again (src/transaction.cc).
use buenzli_coin.Base.{ℕ, ◌<◌, ◌≡◌, refl, List, [], ◌∷◌, map, some, String, Bytes, All, bytes_eq}
use buenzli_coin.Base.Exec.{Result, ok, all_results}
use buenzli_coin.Crypto.Digest.{to_string}
use buenzli_coin.Crypto.Digest.Hex.{IsBytes, from_string-to_string}
use buenzli_coin.Json.{JsonLib, json_get, get_string_at, get_number_at, lookup}
use buenzli_coin.Transaction.{
  TxI, TxO, Kind, standard, reward, Transaction, update_unspent_outputs, size_mod,
}
use buenzli_coin.Transaction.Codec.{
  input_to_json, input_from_json, output_to_json, output_from_json, kind_name, kind_of,
  transaction_to_json, transaction_from_json,
}

-- The values fit their C++ types.
pub record IsInput (i : TxI) : Type 0 where
  pub hash_bytes : IsBytes i.output_hash
  pub index_word : i.output_index < size_mod
  pub signature_bytes : IsBytes i.signature

abbrev pub IsOutput : TxO → Type 0
IsOutput o = o.amount < size_mod

pub record IsTransaction (t : Transaction) : Type 0 where
  pub index_word : t.index < size_mod
  pub hash_bytes : IsBytes t.hash
  pub inputs_ok : All IsInput t.inputs
  pub outputs_ok : All IsOutput t.outputs

module _ (lib : JsonLib) where
  open lib use {
    Json, string, number, array, object, elements, equals, find, find-object, get_string-string,
    get_number-number, equals-string, elements-array,
  }

  -- Members of an object that was just built.
  pub get_string_at-object :
      (m : List (String × Json)) (k : String) (s : Bytes)
      → lookup k m ≡ some (string s)
      → get_string_at lib (object m) k ≡ ok s
  unfolding get_string_at json_get
  get_string_at-object m k s e = rw (find-object m k, e) (get_string-string s)

  pub get_number_at-object :
      (m : List (String × Json)) (k : String) (n : ℕ)
      → n < size_mod
      → lookup k m ≡ some (number n)
      → get_number_at lib (object m) k ≡ ok n
  unfolding get_number_at json_get
  get_number_at-object m k n w e = rw (find-object m k, e) (get_number-number n w)

  pub json_get-object :
      (m : List (String × Json)) (k : String) (v : Json)
      → lookup k m ≡ some v
      → json_get lib (object m) k ≡ ok v
  unfolding json_get
  json_get-object m k v e = rw (find-object m k, e)

  input_round_trip : (i : TxI) → IsInput i → input_from_json lib (input_to_json lib i) ≡ ok i
  unfolding input_from_json input_to_json
  input_round_trip i v = rw (get_string_at-object _ "output_hash" (to_string i.output_hash) refl) (
      rw (from_string-to_string i.output_hash v.hash_bytes) (
        rw (get_number_at-object _ "output_index" i.output_index v.index_word refl) (
          rw (get_string_at-object _ "signature" (to_string i.signature) refl)
            (rw (from_string-to_string i.signature v.signature_bytes)))))

  output_round_trip : (o : TxO) → IsOutput o → output_from_json lib (output_to_json lib o) ≡ ok o
  unfolding output_from_json output_to_json
  output_round_trip o v =
      rw (get_number_at-object _ "amount" o.amount v refl)
        (rw (get_string_at-object _ "address" o.address refl))

  all_round_trip :
      {A : Type 0} (to : A → Json) (from : Json → Result A) (P : A → Type 0)
      → ((a : A) → P a → from (to a) ≡ ok a)
      → (xs : List A) → All P xs
      → all_results from (map to xs) ≡ ok xs
  all_round_trip to from P h [] v = refl
  all_round_trip to from P h (x ∷ xs) v = rw (h x v.0) (rw (all_round_trip to from P h xs v.1))

  kind_round_trip : (k : Kind) → kind_of lib (string (kind_name k)) ≡ ok k
  unfolding kind_of kind_name bytes_eq
  kind_round_trip standard = rw equals-string
  kind_round_trip reward = rw equals-string (rw equals-string)

  -- Reading back what Transaction::to_json wrote gives the transaction, without the unspent outputs
  -- that it was linked with, if its numbers and bytes fit their C++ types.
  pub transaction_round_trip :
      (t : Transaction)
      → IsTransaction t
      → transaction_from_json lib (transaction_to_json lib t) ≡ ok (update_unspent_outputs [] t)
  unfolding transaction_from_json transaction_to_json update_unspent_outputs
  transaction_round_trip t v = rw (json_get-object _ "type" (string (kind_name t.kind)) refl) (
      rw (kind_round_trip t.kind) (
        rw (get_number_at-object _ "index" t.index v.index_word refl) (
          rw (get_string_at-object _ "hash" (to_string t.hash) refl) (
            rw (from_string-to_string t.hash v.hash_bytes) (
              rw (json_get-object _ "inputs" (array (map (input_to_json lib) t.inputs)) refl) (
                rw elements-array (
                  rw
                    (all_round_trip (input_to_json lib) (input_from_json lib) IsInput
                      input_round_trip t.inputs v.inputs_ok)
                    (rw
                      (json_get-object _ "outputs" (array (map (output_to_json lib) t.outputs))
                        refl)
                      (rw elements-array (
                        rw (
                          all_round_trip (output_to_json lib) (output_from_json lib) IsOutput
                            output_round_trip t.outputs v.outputs_ok)))))))))))
