-- ===== src/Examples/Codecs.antt =====
-- Digests, keys, transactions, pools, the clock, the difficulty and the peers on which the code of
-- include/ and src/transaction.cc runs.
use buenzli_coin.Base.{◌≡◌, ◌↔◌, refl, List, [], ◌∷◌, ◌++◌, codes, some, arith}
use buenzli_coin.Base.Exec.{done, undefined, ok, valid}
use buenzli_coin.Crypto.Digest.{zero_prefix_length}
use buenzli_coin.Crypto.Digest.Zeros.{Bracket, zero_prefix_length-Bracket}
use buenzli_coin.Examples.{json, ssl, config}
use buenzli_coin.Examples.Money.{coins, once, prize, once-valid}
use buenzli_coin.Pool.{Pool, add, prune}
use buenzli_coin.Pool.Invariant.{IsAdmissible, add_iff}
use buenzli_coin.Pool.Removal.{AllListed, prune_lem}
use buenzli_coin.Transaction.{valid_transaction, valid_kind}
use buenzli_coin.Block.{Block, block_to_json, block_from_json}
use buenzli_coin.Block.RoundTrip.{IsBlock}
use buenzli_coin.Base.Int.{pos}
use buenzli_coin.Ledger.{list_data}
use buenzli_coin.Ledger.RoundTrip.{list_block_round_trip}
use buenzli_coin.TransactionList.{link_all}
use buenzli_coin.Transaction.{Transaction}
use buenzli_coin.Transaction.RoundTrip.{IsTransaction}
use buenzli_coin.TransactionList.{valid_list}
use buenzli_coin.TransactionList.Valid.{IsValidList, valid_list_iff}
use buenzli_coin.Web.Peers.{Peer}

zero_prefix_length-Bracket_example : Bracket (0 ∷ 3 ∷ []) (zero_prefix_length (0 ∷ 3 ∷ []))
zero_prefix_length-Bracket_example =
    zero_prefix_length-Bracket (0 ∷ 3 ∷ []) (omega arith, (omega arith, tt))

once-IsTransaction : IsTransaction once
once-IsTransaction = record {
  index_word = omega arith;
  hash_bytes = (omega arith, tt);
  inputs_ok = (
    record {
      hash_bytes = (omega arith, tt);
      index_word = omega arith;
      signature_bytes = (omega arith, tt);
    },
    tt,
  );
  outputs_ok = (omega arith, (omega arith, tt));
}

prize-IsTransaction : IsTransaction prize
prize-IsTransaction = record {
  index_word = omega arith;
  hash_bytes = (omega arith, tt);
  inputs_ok = tt;
  outputs_ok = (omega arith, tt);
}

-- A block of two transactions.
abbrev stored : Block (List Transaction)
stored = record {
  payload = prize ∷ once ∷ [];
  timestamp = pos 1002;
  nonce = 3;
  index = 1;
  hash_prev = some (69 ∷ []);
  hash = 70 ∷ [];
}

stored-IsBlock : IsBlock stored
stored-IsBlock = record {
  time = omega arith;
  nonce_word = omega arith;
  index_word = omega arith;
  hash_bytes = (omega arith, tt);
  hash_prev_bytes = (omega arith, tt);
}

list_block_round_trip_example :
    block_from_json ssl json
      (list_data ssl json config)
      (block_to_json ssl json (list_data ssl json config) stored)
    ≡ done (record stored { payload = link_all [] (prize ∷ once ∷ []) })
list_block_round_trip_example =
    list_block_round_trip ssl json config stored stored-IsBlock
      (prize-IsTransaction, (once-IsTransaction, tt))

once-IsAdmissible : IsAdmissible ssl config once []
unfolding valid_transaction valid_kind
once-IsAdmissible = record {
  not_full = λ h. omega (arith, h);
  accepted = once-valid;
  unshared = refl;
}

add_iff_example :
    (add ssl config once [] ≡ ok (once ∷ []))
    ↔ (IsAdmissible ssl config once [] × (once ∷ [] ≡ [] ++ once ∷ []))
add_iff_example = add_iff ssl config once [] (once ∷ [])

prune_lem_example :
    ((pool' : Pool) → prune coins (once ∷ []) ≡ done pool' → pool' ≡ once ∷ [])
    × (AllListed coins (once ∷ []) ↔ (prune coins (once ∷ []) ≡ done (once ∷ [])))
    × (¬ AllListed coins (once ∷ []) → prune coins (once ∷ []) ≡ undefined)
prune_lem_example = prune_lem coins (once ∷ [])

abbrev peers : List Peer
peers = record { host = codes "a"; port = 1 } ∷ record { host = codes "b"; port = 2 } ∷ []

valid_list_iff_example :
    (valid_list ssl config (prize ∷ []) 7 ≡ valid) ↔ IsValidList ssl config (prize ∷ []) 7
valid_list_iff_example = valid_list_iff ssl config (prize ∷ []) 7
