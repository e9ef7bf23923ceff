-- ===== src/Examples/Offers.antt =====
-- Blocks that one node mines and another one is offered (include/blockchain.h).
use buenzli_coin.Base.{
  ℕ, ◌+◌, ◌++◌, inl, map, Bytes, Option, none, some, codes, arith, ◌≡◌, ◌↔◌, refl, false, List, [],
  ◌∷◌, bytes_eq,
}
use buenzli_coin.Base.Int.{pos, ◌-ℤ◌}
use buenzli_coin.Base.Exec.{done, returns}
use buenzli_coin.Block.{
  Block, block_to_json, following_block, hashed, first_block, block_hash, valid_block, attempt,
  mine, max_difficulty,
}
use buenzli_coin.Blockchain.{
  Chain, new_chain, construct_next_block, construct_checked, next_block, mine_block, append_mined,
  append_next_block,
}
use buenzli_coin.Blockchain.Built.{Built-IsLinked}
use buenzli_coin.Blockchain.Offered.{offered_iff}
use buenzli_coin.Base.Exec.{Error}
use buenzli_coin.Block.RoundTrip.{IsBlock}
use buenzli_coin.EraseLoop.{erase_loop}
use buenzli_coin.Ledger.Relinked.{relinked}
use buenzli_coin.Node.{Node, answers, apply_received}
use buenzli_coin.Node.Gossip.{gossip_lem}
use buenzli_coin.Node.Messages.{block_message}
use buenzli_coin.Node.Receive.{handle_receive_latest_block}
use buenzli_coin.Pool.{remove_all, remove, prune}
use buenzli_coin.Transaction.{update_unspent_outputs}
use buenzli_coin.Transaction.RoundTrip.{IsTransaction}
use buenzli_coin.TransactionList.{link_all}
use buenzli_coin.Unspent.{update_all, update, new_outputs, spend}
use buenzli_coin.Clock.{TimePoint, to_time_since_epoch}
use buenzli_coin.Crypto.Digest.{to_string, hex_digit, zero_prefix_length, scan_bytes}
use buenzli_coin.Difficulty.{adjust, readjust}
use buenzli_coin.Examples.{json, ssl, floats, config}
use buenzli_coin.Examples.Chains.{
  clock, kind, genesis, first_prize, one_block, one_block-Built, one_block-constructed,
}
use buenzli_coin.Transaction.{
  Transaction, decimal, decimal_digits, valid_transaction, valid_kind, valid_reward,
  check_reward_outputs, determine_hash, print_inputs, print_outputs,
}
use buenzli_coin.TransactionList.{valid_list, check_transactions, list_to_json}

offered_iff_example :
    (append_next_block ssl json kind floats config (pos 1003) genesis (new_chain floats config)
      ≡ returns (one_block 1002))
    ↔ ((adjust floats config genesis.timestamp
            (new_chain {Data = List Transaction} floats config).adjuster
          ≡ done (one_block 1002).adjuster)
        × (floats.lt (max_difficulty floats genesis) (one_block 1002).adjuster.difficulty ≡ false)
        × ((one_block 1002).blocks ≡ (one_block 1000).blocks))
unfolding ◌-ℤ◌
offered_iff_example =
    offered_iff ssl json kind floats config 3 clock (first_prize ∷ []) (new_chain floats config)
      (one_block 1000) (one_block 1002) genesis (pos 1003) one_block-constructed refl refl

-- A peer with one block and the output of its reward.
abbrev peer : Node ℕ
peer = record {
  chain = one_block 1000;
  unspent =
      record {
        output_hash = 242 ∷ [];
        output_index = 0;
        output = record { amount = 10; address = codes "a" };
      }
      ∷ [];
  pool = [];
  peers = [];
}

abbrev later : ℕ → TimePoint
later i = pos (1010 + i)

abbrev second_prize : Transaction
second_prize = record first_prize { index = 1; hash = 243 ∷ [] }

-- The block that is mined next.
abbrev second : Block (List Transaction)
second = record {
  payload = second_prize ∷ [];
  timestamp = pos 1012;
  nonce = 0;
  index = 1;
  hash_prev = some (69 ∷ []);
  hash = 176 ∷ [];
}

abbrev two_blocks : Chain (List Transaction) ℕ
two_blocks = record {
  blocks = genesis ∷ second ∷ [];
  adjuster = record {
    difficulty = 1;
    cumulative_difficulty = 0;
    counter = 2;
    timestamp = pos 1000;
  };
}

two_blocks-constructed :
    construct_next_block ssl json kind floats config 3 later (second_prize ∷ []) (one_block 1000)
    ≡ returns two_blocks
unfolding construct_next_block construct_checked next_block mine_block append_mined first_block
    hashed valid_block block_hash mine attempt adjust readjust valid_list following_block
    check_transactions valid_transaction valid_kind valid_reward check_reward_outputs determine_hash
    print_inputs print_outputs decimal decimal_digits to_string hex_digit zero_prefix_length
    scan_bytes bytes_eq list_to_json to_time_since_epoch
two_blocks-constructed = refl

second-IsBlock : IsBlock second
second-IsBlock = record {
  time = omega arith;
  nonce_word = omega arith;
  index_word = omega arith;
  hash_bytes = (omega arith, tt);
  hash_prev_bytes = (omega arith, tt);
}

second_prize-IsTransaction : IsTransaction second_prize
second_prize-IsTransaction = record {
  index_word = omega arith;
  hash_bytes = (omega arith, tt);
  inputs_ok = tt;
  outputs_ok = (omega arith, tt);
}

connect : Bytes → ℕ → Option Error
connect host port = none

-- The peer when it has appended the block, with the reward linked with the output that it listed.
abbrev told : Node ℕ
told = record {
  chain = record {
    blocks = genesis ∷ relinked peer.unspent second ∷ [];
    adjuster = record {
      difficulty = 1;
      cumulative_difficulty = 0;
      counter = 2;
      timestamp = pos 1000;
    };
  };
  unspent =
      peer.unspent
      ++ record {
        output_hash = 243 ∷ [];
        output_index = 0;
        output = record { amount = 10; address = codes "a" };
      }
        ∷ [];
  pool = [];
  peers = [];
}

gossip_lem_example :
    (handle_receive_latest_block ssl json floats config connect
        (λ i. pos 1013)
        (block_message ssl json floats config (codes "h") 8332 second)
        peer
      ≡ answers told json.null [])
    × (told.chain.blocks ≡ genesis ∷ relinked peer.unspent second ∷ [])
    × (map (block_to_json ssl json kind) told.chain.blocks
        ≡ map (block_to_json ssl json kind) two_blocks.blocks)
unfolding ◌-ℤ◌ adjust max_difficulty zero_prefix_length scan_bytes update_unspent_outputs
    apply_received update_all update new_outputs spend remove_all remove prune erase_loop link_all
gossip_lem_example =
    gossip_lem ssl json floats config connect 3 later (λ i. pos 1013) (second_prize ∷ [])
      (codes "h") 8332 peer told two_blocks second told.chain.adjuster two_blocks-constructed refl
      (Built-IsLinked ssl json kind floats config one_block-Built) (omega arith) second-IsBlock
      (second_prize-IsTransaction, tt) (inl refl, tt) refl refl refl refl refl refl
