-- ===== src/Json.antt =====
-- include/json.h, and the interface to the nlohmann::json library that the sources call.
use text.Mathlib.Text.{◌==◌ as str_eq}
use buenzli_coin.Base.{
  ℕ, ◌^◌, ◌<◌, ◌≡◌, Bool, true, false, Option, none, some, List, [], ◌∷◌, String, Bytes, bytes_eq,
  if◌then◌else◌,
}
use buenzli_coin.Base.Exec.{
  Result, ok, err, Exec, done, throws, undefined, bind_result, bind_exec, lift, Error,
  nonexistent_key,
}

-- The value of the first member with the key.
abbrev pub lookup {ℓ} : {A : Type ℓ} → String → List (String × A) → Option A
lookup k [] = none
lookup k ((j, v) ∷ m) = if str_eq j k then some v else lookup k m

-- What the code uses of the library, as documented. `object` is an object that is filled by
-- `j["key"] = value` in the order of the list, which has no key twice; `find` gives the member of an
-- object, and nothing for another value; `elements` is what a range-for goes over.
pub record JsonLib : Type 1 where
  pub Json : Type 0
  pub null : Json
  pub string : Bytes → Json
  pub number : ℕ → Json
  pub array : List Json → Json
  pub object : List (String × Json) → Json
  pub is_object : Json → Bool
  pub find : Json → String → Option Json
  -- `j[key]` on a json that may be changed: null for a missing key.
  pub member : Json → String → Result Json
  pub parse : Bytes → Result Json
  pub elements : Json → List Json
  pub get_string : Json → Result Bytes
  pub get_number : Json → Result ℕ
  pub equals : Json → Json → Bool
  pub dump : Json → Bytes
  pub type_error : Error
  pub find-object : (m : List (String × Json)) (k : String) → find (object m) k ≡ lookup k m
  pub member-object :
      (m : List (String × Json)) (k : String) (v : Json)
      → lookup k m ≡ some v
      → member (object m) k ≡ ok v
  pub member-missing :
      (m : List (String × Json)) (k : String) → lookup k m ≡ none → member (object m) k ≡ ok null
  pub elements-array : (l : List Json) → elements (array l) ≡ l
  pub get_string-string : (s : Bytes) → get_string (string s) ≡ ok s
  pub get_number-number : (n : ℕ) → n < 2 ^ 64 → get_number (number n) ≡ ok n
  pub equals-string : (s t : Bytes) → equals (string s) (string t) ≡ bytes_eq s t

abbrev require {ℓ} : {A : Type ℓ} → String → Option A → Result A
require key none = err (nonexistent_key key)
require key (some v) = ok v

abbrev dereference {ℓ} : {A : Type ℓ} → Bool → Error → Option A → Exec A
dereference true e none = undefined
dereference false e none = throws e
dereference b e (some v) = done v

module _ (lib : JsonLib) where
  open lib use {Json, find, is_object, get_string, get_number, type_error}

  -- json_get: a missing key throws.
  unfoldable pub json_get : Json → String → Result Json
  json_get j key = require key (find j key)

  -- `j[key]` on a const object: a missing key is undefined behaviour, and a value that is no object
  -- throws.
  unfoldable pub subscript : Json → String → Exec Json
  subscript j key = dereference (is_object j) type_error (find j key)

  unfoldable pub get_string_at : Json → String → Result Bytes
  unfolding json_get
  get_string_at j key = bind_result (json_get j key) get_string

  unfoldable pub get_number_at : Json → String → Result ℕ
  unfolding json_get
  get_number_at j key = bind_result (json_get j key) get_number

  unfoldable pub string_at : Json → String → Exec Bytes
  unfolding subscript
  string_at j key = bind_exec (subscript j key) λ v. lift (get_string v)

  unfoldable pub number_at : Json → String → Exec ℕ
  unfolding subscript
  number_at j key = bind_exec (subscript j key) λ v. lift (get_number v)
