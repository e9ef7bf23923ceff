-- ===== src/Examples/Drain.antt =====
-- A node whose pool holds a transaction with the index of another block: POST /blocks of src/node.cc.
use buenzli_coin.Base.{ℕ, ◌≡◌, ◌≢◌, arith, refl, List, [], ◌∷◌, ◌++◌, bytes_eq, codes}
use buenzli_coin.Base.Exec.{
  done, Error, malformed, raises, appending_data, invalid_data, invalid_transaction_index,
}
use buenzli_coin.Block.{first_block, hashed, valid_block}
use buenzli_coin.Blockchain.{construct_next_block, construct_checked, next_block}
use buenzli_coin.Crypto.Digest.{to_string, hex_digit}
use buenzli_coin.Examples.{bytes, Value, json, ssl, floats, config}
use buenzli_coin.Examples.Chains.{clock, kind, empty}
use buenzli_coin.Examples.Money.{coins, once}
use buenzli_coin.Json.{subscript, string_at}
use buenzli_coin.Node.{Node, refuses}
use buenzli_coin.Node.Drained.{drained_lem}
use buenzli_coin.Node.Http.{draw, after_construct, construct_for, handle_blocks_post}
use buenzli_coin.Transaction.{
  Transaction, make_reward, unhashed_reward, valid_transaction, valid_kind, valid_reward,
  check_reward_outputs, determine_hash, print_inputs, print_outputs, decimal, decimal_digits,
}
use buenzli_coin.TransactionList.{valid_list, check_transactions}

abbrev node : Node ℕ
node = record { chain = empty; unspent = coins; pool = once ∷ []; peers = [] }

abbrev request : Value
request = json.object (("address", bytes (codes "a")) ∷ [])

abbrev error : Error
error = appending_data (invalid_data (invalid_transaction_index 1 1))

construction-raises :
    construct_next_block ssl json kind floats config 3 clock
      (make_reward ssl config (codes "a") 0 ∷ (draw 2 node.pool).0)
      empty
    ≡ raises error empty
unfolding construct_next_block construct_checked next_block first_block hashed valid_block
    valid_list check_transactions draw make_reward unhashed_reward valid_transaction valid_kind
    valid_reward check_reward_outputs determine_hash print_inputs print_outputs decimal
    decimal_digits to_string hex_digit bytes_eq
construction-raises = refl

request-read : string_at json request "address" ≡ done (codes "a")
unfolding subscript string_at
request-read = refl

abbrev drained : Node ℕ
drained = record node { pool = [] }

request-refused :
    handle_blocks_post ssl json floats config 3 clock request node
    ≡ refuses (malformed error) drained
unfolding handle_blocks_post construct_for after_construct draw
request-refused = rw (request-read, construction-raises) refl

drained_lem_example :
    (drained.chain ≡ node.chain)
    × (drained.unspent ≡ node.unspent)
    × ((lost : List Transaction) × (lost ≢ []) × (node.pool ≡ lost ++ drained.pool))
drained_lem_example =
    drained_lem ssl json floats config 3 clock request node drained (codes "a") (malformed error)
      request-read request-refused (λ e. omega arith) (λ e. cc)
