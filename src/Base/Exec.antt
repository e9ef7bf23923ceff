-- ===== src/Base/Exec.antt =====
-- How C++ code ends: with a value, by an exception, or in undefined behaviour. The texts of the
-- errors are constructors, one for each message of the sources, with the values it is formatted
-- from.
use Prim.Native.Nat.{ℕ}
use Prim.Native.String.{String}
use mathlib.Core.Bool.{Bool, true, false}
use mathlib.Core.List.{List, [], ◌∷◌}
use mathlib.Core.Path.{◌≡◌, refl}
use buenzli_coin.Base.Tests.{Bytes}

pub data Error : Type 0 where
  -- src/transaction.cc: `valid` of a transaction and of a list
  invalid_hash mismatched_sums inputs_not_empty more_than_one_output reward_mismatch : Error
  no_unspent_output invalid_signature : ℕ → Error
  signature_exception : ℕ → Error → Error
  invalid_number : Error
  invalid_type : ℕ → Error
  invalid_transaction_index : ℕ → ℕ → Error
  in_transaction : ℕ → Error → Error
  -- src/transaction.cc: the pool and the parser
  pool_full duplicate_inputs invalid_transaction_type : Error
  invalid_for_pool : Error → Error
  -- include/blockchain.h
  invalid_data : Error → Error
  invalid_timestamp empty_blockchain invalid_genesis invalid_index last_hash_not_empty : Error
  mismatched_hashes invalid_difficulty : Error
  in_block : ℕ → Error → Error
  not_successor : ℕ → Error
  appending_data appending_genesis appending_next : Error → Error
  -- include/json.h, include/crypto/digest.h, include/crypto/keypair.h
  nonexistent_key : String → Error
  invalid_digest_string unparsable_public_key unparsable_private_key bad_alloc : Error
  -- src/node.cc
  chain_is_empty file_not_opened file_not_written : Error
  malformed invalid_block invalid_blockchain : Error → Error
  -- src/main.cc
  chain_file_not_opened : Error
  -- what() of an exception that a library throws
  library : Bytes → Error

-- A function that returns a value or throws.
pub data Result {ℓ} (A : Type ℓ) : Type ℓ where
  err : Error → Result A
  ok : A → Result A

-- A function that may also run into undefined behaviour.
pub data Exec {ℓ} (A : Type ℓ) : Type ℓ where
  done : A → Exec A
  throws : Error → Exec A
  undefined : Exec A

-- A `std::pair<bool, std::string>` of a `valid` member: `{ true, "" }` or `{ false, message }`.
pub data Verdict : Type 0 where
  valid : Verdict
  invalid : Error → Verdict

abbrev pub lift {ℓ} : {A : Type ℓ} → Result A → Exec A
lift (ok a) = done a
lift (err e) = throws e

abbrev pub map_exec {ℓ κ} : {A : Type ℓ} {B : Type κ} → (A → B) → Exec A → Exec B
map_exec f (done a) = done (f a)
map_exec f (throws e) = throws e
map_exec f undefined = undefined

abbrev pub bind_exec {ℓ κ} : {A : Type ℓ} {B : Type κ} → Exec A → (A → Exec B) → Exec B
bind_exec (done a) f = f a
bind_exec (throws e) f = throws e
bind_exec undefined f = undefined

abbrev pub bind_result {ℓ κ} : {B : Type κ} {A : Type ℓ} → Result A → (A → Result B) → Result B
bind_result (ok a) f = f a
bind_result (err e) f = err e

abbrev pub map_result {ℓ κ} : {A : Type ℓ} {B : Type κ} → (A → B) → Result A → Result B
map_result f (ok a) = ok (f a)
map_result f (err e) = err e

-- The exceptions of a list of calls, made from the left.
abbrev pub all_results {ℓ κ} : {A : Type ℓ} {B : Type κ} → (A → Result B) → List A → Result (List B)
all_results f [] = ok []
all_results f (x ∷ xs) = bind_result (f x) λ y. map_result (λ ys. y ∷ ys) (all_results f xs)

-- `if (!valid) …`, as a function of the verdict.
abbrev pub and_then : Verdict → Verdict → Verdict
and_then valid v = v
and_then (invalid e) v = invalid e

abbrev pub refuse : Error → Bool → Verdict
refuse e true = invalid e
refuse e false = valid

-- How a member that changes an object ends: it returns, or throws and leaves the object in some
-- state, or runs into undefined behaviour, or is still in a loop when the fuel is used up.
pub data Outcome {ℓ} (S : Type ℓ) : Type ℓ where
  returns : S → Outcome S
  raises : Error → S → Outcome S
  faults : Outcome S
  runs_on : Outcome S

pub done-injective {ℓ} : {A : Type ℓ} {a b : A} → done a ≡ done b → a ≡ b
done-injective e = cc

pub ok-injective {ℓ} : {A : Type ℓ} {a b : A} → ok a ≡ ok b → a ≡ b
ok-injective e = cc

pub returns-injective {ℓ} : {S : Type ℓ} {a b : S} → returns a ≡ returns b → a ≡ b
returns-injective e = cc

-- A chain of calls returns only where each of them does.
pub bind_exec-eq-done {ℓ κ} :
    {A : Type ℓ} {B : Type κ} (m : Exec A) (f : A → Exec B) {b : B}
    → bind_exec m f ≡ done b
    → (a : A) × (m ≡ done a) × (f a ≡ done b)
bind_exec-eq-done (done a) f h = (a, refl, h)
bind_exec-eq-done (throws e) f h = cc
bind_exec-eq-done undefined f h = cc

-- What a call promises of the value it returns.
abbrev pub Ensures {ℓ κ} : {A : Type ℓ} → (A → Type κ) → Result A → Type κ
Ensures P (ok a) = P a
Ensures P (err e) = Unit

pub Ensures-bind {ℓ κ ι} :
    {A : Type ℓ} {B : Type κ} (P : B → Type ι) (m : Result A) (f : A → Result B)
    → ((a : A) → Ensures P (f a))
    → Ensures P (bind_result m f)
Ensures-bind P (ok a) f h = h a
Ensures-bind P (err e) f h = tt

abbrev pub Guarantees {ℓ κ} : {A : Type ℓ} → (A → Type κ) → Exec A → Type κ
Guarantees P (done a) = P a
Guarantees P (throws e) = Unit
Guarantees P undefined = Unit

pub Guarantees-bind {ℓ κ ι} :
    {A : Type ℓ} {B : Type κ} (P : B → Type ι) (m : Exec A) (f : A → Exec B)
    → ((a : A) → Guarantees P (f a))
    → Guarantees P (bind_exec m f)
Guarantees-bind P (done a) f h = h a
Guarantees-bind P (throws e) f h = tt
Guarantees-bind P undefined f h = tt

-- The same, where the first call promises something that the second one needs.
pub Guarantees-seq {ℓ κ ι μ} :
    {A : Type ℓ} {B : Type κ} (Q : A → Type μ) (P : B → Type ι) (m : Exec A) (f : A → Exec B)
    → Guarantees Q m
    → ((a : A) → Q a → Guarantees P (f a))
    → Guarantees P (bind_exec m f)
Guarantees-seq Q P (done a) f q h = h a q
Guarantees-seq Q P (throws e) f q h = tt
Guarantees-seq Q P undefined f q h = tt
