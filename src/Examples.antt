-- ===== src/Examples.antt =====
-- Concrete parameters: a JSON value, calls of OpenSSL, floating-point values and a configuration on
-- which the operations of the sources run; its child modules run them.

pub mod Money
pub mod Codecs
pub mod Chains
pub mod Nodes
pub mod Life
pub mod Requests
pub mod Drain
pub mod Sockets
pub mod Wire
mod Connections
mod Keys
mod Offers
pub mod Talks
pub mod Start
use text.Mathlib.Text.{◌==◌ as str_eq}
use buenzli_coin.Base.{
  ℕ, ◌+◌, ◌*◌, ◌/◌, ◌%◌, ◌^◌, ◌≡◌, refl, Bool, true, false, Option, none, some, List, [], ◌∷◌, ltb,
  if◌then◌else◌, Bytes, String, codes, bytes_eq,
}
use buenzli_coin.Base.Int.{ℤ, pos, negsuc}
use buenzli_coin.Base.Exec.{Result, ok, err, Error, library}
use buenzli_coin.Config.{Config}
use buenzli_coin.Crypto.Keypair.{OpenSsl}
use buenzli_coin.Difficulty.{Floats}
use buenzli_coin.Json.{JsonLib, lookup}
use buenzli_coin.Transaction.{decimal}

mutual
  pub data Value : Type 0 where
    nothing : Value
    bytes : Bytes → Value
    whole : ℕ → Value
    items : Items → Value
    members : Members → Value

  pub data Items : Type 0 where
    no_items : Items
    item : Value → Items → Items

  pub data Members : Type 0 where
    no_members : Members
    entry : String → Value → Members → Members

abbrev pub items_of : List Value → Items
items_of [] = no_items
items_of (v ∷ vs) = item v (items_of vs)

abbrev pub list_of : Items → List Value
list_of no_items = []
list_of (item v vs) = v ∷ list_of vs

abbrev pub members_of : List (String × Value) → Members
members_of [] = no_members
members_of ((k, v) ∷ m) = entry k v (members_of m)

abbrev pub find_member : Members → String → Option Value
find_member no_members k = none
find_member (entry j v m) k = if str_eq j k then some v else find_member m k

pub find_member-members_of :
    (m : List (String × Value)) (k : String) → find_member (members_of m) k ≡ lookup k m
find_member-members_of [] k = refl
find_member-members_of ((j, v) ∷ m) k = rw (find_member-members_of m k) refl

pub list_of-items_of : (l : List Value) → list_of (items_of l) ≡ l
list_of-items_of [] = refl
list_of-items_of (v ∷ l) = rw (list_of-items_of l) refl

abbrev elements : Value → List Value
elements nothing = []
elements (bytes s) = bytes s ∷ []
elements (whole n) = whole n ∷ []
elements (items l) = list_of l
elements (members m) = []

abbrev find : Value → String → Option Value
find (members m) k = find_member m k
find nothing k = none
find (bytes s) k = none
find (whole n) k = none
find (items l) k = none

abbrev type_error : Error
type_error = library (codes "type_error")

abbrev or_null : Option Value → Value
or_null none = nothing
or_null (some v) = v

abbrev member : Value → String → Result Value
member (members m) k = ok (or_null (find_member m k))
member nothing k = ok nothing
member (bytes s) k = err type_error
member (whole n) k = err type_error
member (items l) k = err type_error

abbrev is_object : Value → Bool
is_object (members m) = true
is_object nothing = false
is_object (bytes s) = false
is_object (whole n) = false
is_object (items l) = false

abbrev get_string : Value → Result Bytes
get_string (bytes s) = ok s
get_string nothing = err type_error
get_string (whole n) = err type_error
get_string (items l) = err type_error
get_string (members m) = err type_error

abbrev get_number : Value → Result ℕ
get_number (whole n) = ok n
get_number nothing = err type_error
get_number (bytes s) = err type_error
get_number (items l) = err type_error
get_number (members m) = err type_error

abbrev equals : Value → Value → Bool
equals (bytes s) (bytes t) = bytes_eq s t
equals (bytes s) nothing = false
equals (bytes s) (whole n) = false
equals (bytes s) (items l) = false
equals (bytes s) (members m) = false
equals nothing w = false
equals (whole n) w = false
equals (items l) w = false
equals (members m) w = false

-- A text for the values that blocks are hashed from.
abbrev dump : Value → Bytes
dump nothing = codes "null"
dump (bytes s) = s
dump (whole n) = decimal n
dump (items l) = codes "items"
dump (members m) = codes "members"

abbrev pub json : JsonLib
json = record {
  Json = Value;
  null = nothing;
  string = bytes;
  number = whole;
  array = λ l. items (items_of l);
  object = λ m. members (members_of m);
  is_object = is_object;
  find = find;
  member = member;
  parse = λ s. err type_error;
  elements = elements;
  get_string = get_string;
  get_number = get_number;
  equals = equals;
  dump = dump;
  type_error = type_error;
  find-object = find_member-members_of;
  member-object = λ m k v e. rw (find_member-members_of m k, e) refl;
  member-missing = λ m k e. rw (find_member-members_of m k, e) refl;
  elements-array = list_of-items_of;
  get_string-string = λ s. refl;
  get_number-number = λ n h. refl;
  equals-string = λ s t. refl;
}

-- The sum of the bytes, in place of SHA-256.
abbrev sum : Bytes → ℕ
sum [] = 0
sum (b ∷ bs) = b + sum bs

-- A signature of a hash is the hash.
abbrev signed : Bytes → Bytes → ℤ
signed hash sig = if bytes_eq hash sig then pos 1 else pos 0

abbrev pub ssl : OpenSsl
ssl = record {
  sha256 = λ b. (sum b % 256) ∷ [];
  EcKey = Bytes;
  read_public_key = some;
  assign_key = λ key. pos 1;
  new_context = λ key. true;
  verify_init = λ key. pos 1;
  evp_verify = λ key hash sig. signed hash sig;
  error_string = codes "error";
}

abbrev of_ℤ : ℤ → ℕ
of_ℤ (pos n) = n
of_ℤ (negsuc n) = 0

-- Whole numbers in place of doubles.
abbrev pub floats : Floats ℕ
floats = record {
  zero_value = 0;
  one = 1;
  of_word = λ n. n;
  of_int = of_ℤ;
  add = ◌+◌;
  mul = ◌*◌;
  div = ◌/◌;
  lt = ltb;
  log2_size = λ n. 0;
  pow2 = λ n. 2 ^ n;
  to_size = λ n. n;
}

abbrev pub config : Config ℕ
config = record {
  time_expected = pos 1000;
  time_max_delta = pos 60;
  difficulty_init = 1;
  difficulty_adjust_after = 3;
  difficulty_adjust_factor_limit = 4;
  num_per_block = 2;
  reward_amount = 10;
}
