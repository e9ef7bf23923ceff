-- ===== src/Block.antt =====
-- class Block of include/blockchain.h, over the type of its data.
pub mod Mining
pub mod RoundTrip
use buenzli_coin.Base.{
  ℕ, zero, suc, ◌+◌, ◌%◌, ◌^◌, Bool, true, false, not, ◌&&◌, Option, none, some, List, [], ◌∷◌,
  ◌++◌, leb, ◌==◌, if◌then◌else◌, Bytes, bytes_eq, String,
}
use buenzli_coin.Base.Int.{ltb_ℤ, leb_ℤ, ◌-ℤ◌}
use buenzli_coin.Base.Exec.{
  Result, Exec, done, lift, bind_exec, map_exec, Verdict, valid, invalid, invalid_data,
  invalid_timestamp, invalid_hash, and_then, refuse,
}
use buenzli_coin.Clock.{TimePoint, to_time_since_epoch, from_time_since_epoch}
use buenzli_coin.Config.{Config}
use buenzli_coin.Crypto.Digest.{Digest, to_string, from_string, zero_prefix_length}
use buenzli_coin.Crypto.Keypair.{OpenSsl}
use buenzli_coin.Difficulty.{Floats}
use buenzli_coin.Json.{JsonLib, subscript, string_at, number_at}
use buenzli_coin.Transaction.{decimal}

-- The template argument T of Block and Blockchain.
pub record BlockData (Json : Type 0) : Type 1 where
  pub Data : Type 0
  pub valid_data : Data → ℕ → Verdict
  pub data_to_json : Data → Json
  pub data_from_json : Json → Result Data

pub record Block (Data : Type 0) : Type 0 where
  pub payload : Data
  pub timestamp : TimePoint
  pub nonce : ℕ
  pub index : ℕ
  pub hash_prev : Option Digest
  pub hash : Digest

abbrev pub print_hash : Option Digest → Bytes
print_hash none = []
print_hash (some d) = to_string d

-- `m_hash_prev && *m_hash_prev == d`
abbrev pub is_hash : Option Digest → Digest → Bool
is_hash none d = false
is_hash (some e) d = bytes_eq e d

abbrev pub is_none {ℓ} : {A : Type ℓ} → Option A → Bool
is_none none = true
is_none (some a) = false

abbrev pub data_verdict : Verdict → Verdict
data_verdict valid = valid
data_verdict (invalid e) = invalid (invalid_data e)

module _ {Data : Type 0} where
  -- Block::is_genesis
  unfoldable pub is_genesis : Block Data → Bool
  is_genesis b = b.index == 0 && is_none b.hash_prev

  -- Block::is_successor_of
  unfoldable pub is_successor_of :
      {Double : Type 0} → Config Double → Block Data → Block Data → Bool
  is_successor_of config b prev =
      ltb_ℤ (prev.timestamp -ℤ config.time_max_delta) b.timestamp
      && (b.index == (prev.index + 1) % 2 ^ 64 && is_hash b.hash_prev prev.hash)

  -- Block::max_difficulty
  unfoldable pub max_difficulty : {Double : Type 0} → Floats Double → Block Data → Double
  max_difficulty floats b = floats.pow2 (zero_prefix_length b.hash)

module _ (ssl : OpenSsl) (lib : JsonLib) (kind : BlockData lib.Json) where
  open kind use {Data, valid_data, data_to_json, data_from_json}

  -- Block::determine_hash
  unfoldable pub block_hash : Block Data → Digest
  block_hash b = ssl.sha256 (
      lib.dump (data_to_json b.payload)
      ++ (decimal (to_time_since_epoch b.timestamp)
          ++ (decimal b.nonce ++ (decimal b.index ++ print_hash b.hash_prev))))

  unfoldable pub hashed : Block Data → Block Data
  hashed b = record b { hash = block_hash b }

  -- Block(T data)
  unfoldable pub first_block : TimePoint → Data → Block Data
  unfolding hashed
  first_block now payload = hashed (record {
    payload = payload;
    timestamp = now;
    nonce = 0;
    index = 0;
    hash_prev = none;
    hash = [];
  })

  -- Block(T data, Block const &last)
  unfoldable pub following_block : TimePoint → Data → Block Data → Block Data
  unfolding hashed
  following_block now payload last = hashed (record {
    payload = payload;
    timestamp = now;
    nonce = 0;
    index = (last.index + 1) % 2 ^ 64;
    hash_prev = some last.hash;
    hash = [];
  })

  -- Block::valid, at the time `now`
  unfoldable pub valid_block : {Double : Type 0} → Config Double → TimePoint → Block Data → Verdict
  valid_block config now b = and_then (data_verdict (valid_data b.payload b.index)) (
      and_then (refuse invalid_timestamp (leb_ℤ now (b.timestamp -ℤ config.time_max_delta)))
        (refuse invalid_hash (not (bytes_eq b.hash (block_hash b)))))

  -- One round of the loop of Block::adjust_difficulty: the time stamp is set, and the block is
  -- hashed.
  unfoldable pub attempt : TimePoint → Block Data → Block Data
  unfolding hashed
  attempt now b = hashed (record b { timestamp = now })

  -- `++m_nonce`, with the old hash.
  abbrev pub next_nonce : TimePoint → Block Data → Block Data
  next_nonce now b = record b { timestamp = now; nonce = (b.nonce + 1) % 2 ^ 64 }

  -- Block::adjust_difficulty, for a difficulty of 2 ^ bits; `clock i` is the i-th reading of the
  -- clock. `none` means that the fuel ran out.
  unfoldable pub mine : ℕ → (ℕ → TimePoint) → ℕ → ℕ → Block Data → Option (Block Data)
  unfolding attempt
  mine zero clock i bits b = none
  mine (suc fuel) clock i bits b =
      let later = mine fuel clock (suc i) bits (next_nonce (clock i) b) in
      if leb bits (zero_prefix_length (attempt (clock i) b).hash)
      then some (attempt (clock i) b)
      else later

  -- Block::to_json
  unfoldable pub block_to_json : Block Data → lib.Json
  block_to_json b = lib.object (
      ("data", data_to_json b.payload)
      ∷ ("timestamp", lib.number (to_time_since_epoch b.timestamp))
      ∷ ("nonce", lib.number b.nonce)
      ∷ ("index", lib.number b.index)
      ∷ ("hash", lib.string (to_string b.hash))
      ∷ hash_prev_member b.hash_prev)
    where
      hash_prev_member : Option Digest → List (String × lib.Json)
      hash_prev_member none = []
      hash_prev_member (some d) = ("hash_prev", lib.string (to_string d)) ∷ []

  unfoldable pub digest_at : lib.Json → String → Exec Digest
  unfolding string_at
  digest_at j key = bind_exec (string_at lib j key) λ s. lift (from_string s)

  -- `if (j.count("hash_prev")) …`
  unfoldable pub optional_digest : lib.Json → Option lib.Json → Exec (Option Digest)
  unfolding digest_at
  optional_digest j none = done none
  optional_digest j (some v) = map_exec some (digest_at j "hash_prev")

  -- `T::from_json(j["data"])`
  unfoldable pub payload_at : lib.Json → Exec Data
  unfolding subscript
  payload_at j = bind_exec (subscript lib j "data") λ d. lift (data_from_json d)

  -- Block::from_json. The subscripts are on a const object.
  unfoldable pub block_from_json : lib.Json → Exec (Block Data)
  unfolding optional_digest
  block_from_json j = bind_exec (payload_at j) λ payload.
      bind_exec (number_at lib j "timestamp") λ timestamp.
        bind_exec (number_at lib j "nonce") λ nonce. bind_exec (number_at lib j "index") λ index.
          bind_exec (digest_at j "hash") λ hash.
            bind_exec (optional_digest j (lib.find j "hash_prev")) λ hash_prev. done (record {
              payload = payload;
              timestamp = from_time_since_epoch timestamp;
              nonce = nonce;
              index = index;
              hash_prev = hash_prev;
              hash = hash;
            })
