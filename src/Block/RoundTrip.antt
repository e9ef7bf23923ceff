-- ===== src/Block/RoundTrip.antt =====
-- Writing a block as JSON and reading it again (include/blockchain.h).
use buenzli_coin.Base.{ℕ, ◌<◌, ◌≡◌, refl, Option, none, some, List, String}
use buenzli_coin.Base.Exec.{done, ok}
use buenzli_coin.Block.{
  BlockData, Block, block_to_json, block_from_json, payload_at, digest_at, optional_digest,
}
use buenzli_coin.Clock.{
  IsTimePoint, to_time_since_epoch, from_time_since_epoch-to, to_time_since_epoch-lt,
}
use buenzli_coin.Crypto.Digest.{Digest, to_string}
use buenzli_coin.Crypto.Digest.Hex.{IsBytes, from_string-to_string}
use buenzli_coin.Crypto.Keypair.{OpenSsl}
use buenzli_coin.Json.{JsonLib, lookup, subscript, string_at, number_at}
use buenzli_coin.Transaction.{size_mod}

abbrev AreBytes : Option Digest → Type 0
AreBytes none = Unit
AreBytes (some d) = IsBytes d

-- The values fit their C++ types.
pub record IsBlock {Data : Type 0} (b : Block Data) : Type 0 where
  pub time : IsTimePoint b.timestamp
  pub nonce_word : b.nonce < size_mod
  pub index_word : b.index < size_mod
  pub hash_bytes : IsBytes b.hash
  pub hash_prev_bytes : AreBytes b.hash_prev

module _ (lib : JsonLib) where
  open lib use {Json, object, string, number, find-object, get_string-string, get_number-number}

  pub subscript-object :
      (m : List (String × Json)) (k : String) (v : Json)
      → lookup k m ≡ some v
      → subscript lib (object m) k ≡ done v
  unfolding subscript
  subscript-object m k v e = rw (find-object m k, e) refl

  number_at-object :
      (m : List (String × Json)) (k : String) (n : ℕ)
      → n < size_mod
      → lookup k m ≡ some (number n)
      → number_at lib (object m) k ≡ done n
  unfolding number_at
  number_at-object m k n w e = rw (subscript-object m k (number n) e, get_number-number n w) refl

  digest_at-object :
      (ssl : OpenSsl) (kind : BlockData Json) (m : List (String × Json)) (k : String) (d : Digest)
      → IsBytes d
      → lookup k m ≡ some (string (to_string d))
      → digest_at ssl lib kind (object m) k ≡ done d
  unfolding digest_at string_at
  digest_at-object ssl kind m k d w e =
      rw
        (
          subscript-object m k (string (to_string d)) e,
          get_string-string (to_string d),
          from_string-to_string d w,
        )
        refl

  module _ (ssl : OpenSsl) (kind : BlockData Json) where
    open kind use {Data, data_to_json, data_from_json}

    payload_at-object :
        (m : List (String × Json)) (payload payload' : Data)
        → data_from_json (data_to_json payload) ≡ ok payload'
        → lookup "data" m ≡ some (data_to_json payload)
        → payload_at ssl lib kind (object m) ≡ done payload'
    unfolding payload_at
    payload_at-object m payload payload' r e =
        rw (subscript-object m "data" (data_to_json payload) e, r) refl

    -- Reading back what Block::to_json wrote gives the block, with the data that are read back from what
    -- was written of them, if its numbers and bytes fit their C++ types.
    pub block_round_trip :
        (b : Block Data) (payload' : Data)
        → IsBlock b
        → data_from_json (data_to_json b.payload) ≡ ok payload'
        → block_from_json ssl lib kind (block_to_json ssl lib kind b)
          ≡ done (record b { payload = payload' })
    unfolding block_from_json block_to_json optional_digest
    block_round_trip b payload' v r = with_prev b.hash_prev v.hash_prev_bytes
      where
        with_prev :
            (o : Option Digest)
            → AreBytes o
            → block_from_json ssl lib kind (block_to_json ssl lib kind (record b { hash_prev = o }))
              ≡ done (record b { payload = payload'; hash_prev = o })
        with_prev none w = rw (payload_at-object _ b.payload payload' r refl) (
            rw
              (number_at-object _ "timestamp" (to_time_since_epoch b.timestamp)
                (to_time_since_epoch-lt b.timestamp) refl)
              (rw (number_at-object _ "nonce" b.nonce v.nonce_word refl) (
                rw (number_at-object _ "index" b.index v.index_word refl) (
                  rw (digest_at-object ssl kind _ "hash" b.hash v.hash_bytes refl) (
                    rw (find-object _ "hash_prev")
                      (rw (from_time_since_epoch-to b.timestamp v.time) refl))))))
        with_prev (some d) w = rw (payload_at-object _ b.payload payload' r refl) (
            rw
              (number_at-object _ "timestamp" (to_time_since_epoch b.timestamp)
                (to_time_since_epoch-lt b.timestamp) refl)
              (rw (number_at-object _ "nonce" b.nonce v.nonce_word refl) (
                rw (number_at-object _ "index" b.index v.index_word refl) (
                  rw (digest_at-object ssl kind _ "hash" b.hash v.hash_bytes refl) (
                    rw (find-object _ "hash_prev") (
                      rw (digest_at-object ssl kind _ "hash_prev" d w refl)
                        (rw (from_time_since_epoch-to b.timestamp v.time) refl)))))))
