-- ===== src/Tests/Chain.antt =====
-- Tests and witnesses for the chain: a first block, and three reserved blocks behind it.
use polkahat.Prelude.{ℕ, ◌+◌, ◌≡◌, ◌≢◌, refl, [], ◌∷◌, true, Option, none, some, arith}
use polkahat.Prelude.Outcome.{ok, throw}
use polkahat.Map
use polkahat.Blockchain.Data.{
  Block, BlockLib, BlockchainData, out_of_fuel, get_block_before, get_block_by_number,
  index_transactions, store_block, unindex_transactions, remove_block, new_blockchain_data,
  reserve_range,
}
use polkahat.Blockchain.Reservations.{
  find_block_reservation, is_reserved_block, remove_reservation, cancel_reservation_with_block,
  calculate_timestamp, split_reservation, fulfill_block_reservation,
}
use polkahat.Blockchain.Chain.{
  HardhatBlockchain, by_number, set_data, get_block, new_blockchain, reserve_blocks, del_one,
  del_blocks, del_block, delete_later_blocks, validate_block, compute_total_difficulty, add_block,
}
use polkahat.Blockchain.Fulfilment.{Fulfilled}
use polkahat.Blockchain.Lookup.{get_block-reserved}
use polkahat.Blockchain.Truncation.{Emptied, delete_later_blocks_lem}
use polkahat.Blockchain.Growth.{IsChain, Grown, reserve_blocks-IsChain}
use polkahat.Blockchain.Appending.{Adds, add_block-Adds}
use polkahat.Blockchain.Timestamps.{calculate_timestamp_fuel}

program : Unit {0}
unfolding get_block_before index_transactions store_block unindex_transactions remove_block
    new_blockchain_data reserve_range find_block_reservation is_reserved_block remove_reservation
    cancel_reservation_with_block calculate_timestamp split_reservation fulfill_block_reservation
    get_block new_blockchain reserve_blocks del_one del_blocks del_block delete_later_blocks
    validate_block compute_total_difficulty add_block Map.get Map.put Map.delete
program = tt

-- A block's hash is its number and 1000.
abbrev pub block_of : ℕ → ℕ → Option ℕ → ℕ → Block
block_of number root fee timestamp = record {
  number = number;
  hash = number + 1000;
  parent_hash = 0;
  difficulty = 0;
  timestamp = timestamp;
  state_root = root;
  gas_limit = 30000000;
  gas_used = 0;
  base_fee_per_gas = fee;
  logs_bloom = 0;
  transactions = [];
}

abbrev pub plain_lib : BlockLib
plain_lib = record {
  from_block_data = block_of;
  check = λ bloom item. true;
  from_block_data-number = λ number root fee timestamp. refl;
  from_block_data-timestamp = λ number root fee timestamp. refl;
}

abbrev pub genesis : Block
genesis = block_of 0 7 none 100

abbrev pub chain : HardhatBlockchain
chain = record {
  length = 4;
  chain_data = record {
    blocks_by_number = (0, genesis) ∷ [];
    blocks_by_hash = (1000, genesis) ∷ [];
    blocks_by_transactions = [];
    transactions = [];
    transaction_receipts = [];
    total_difficulty = (1000, 1) ∷ [];
    block_reservations =
        record {
          first = 1;
          after_last = 4;
          interval = 10;
          previous_block_state_root = 7;
          previous_block_total_difficulty = 1;
          previous_block_base_fee_per_gas = none;
        }
        ∷ [];
  };
}

reserves_three : (get_block plain_lib (by_number 2) chain).0 ≡ ok (block_of 2 7 none 120)
unfolding program
reserves_three = refl

splits : calculate_timestamp 4 3 (get_block plain_lib (by_number 2) chain).1.chain_data ≡ ok 130
unfolding program
splits = refl

adds_on_reserved :
    (add_block plain_lib (record (block_of 4 7 none 200) { parent_hash = 55 }) chain).0
    ≡ ok (record (block_of 4 7 none 200) { parent_hash = 55 })
unfolding program
adds_on_reserved = refl

-- Blocks 1 to 3 are in the one reservation.
reserved_chain : is_reserved_block 2 chain.chain_data ≡ true
unfolding program
reserved_chain = refl

timestamp_2 : calculate_timestamp 3 2 chain.chain_data ≡ ok 120
unfolding program
timestamp_2 = refl

get_block-reserved_example :
    (d : BlockchainData) × ((f : Fulfilled 2 120 chain.chain_data d) × ((get_block plain_lib
            (by_number 2)
            chain
          ≡ (ok f.block, set_data d chain))
        × (get_block plain_lib (by_number 2) (set_data d chain) ≡ (ok f.block, set_data d chain))))
get_block-reserved_example =
    get_block-reserved plain_lib 2 120 chain (λ m. ground arith) reserved_chain timestamp_2

pub chain-IsChain : IsChain chain
unfolding program
chain-IsChain = record {
  consistent = record {
    disjoint = λ m. ground arith;
    numbered = λ m b e. ground arith;
    exclusive = λ m b e. ground arith;
  };
  stored_below = λ m b e. ground arith;
  reserved_below = λ m e. ground arith;
}

pub genesis_hashed : Map.get genesis.hash chain.chain_data.blocks_by_hash ≡ some genesis
unfolding program
genesis_hashed = refl

pub genesis_numbered : get_block_by_number 0 chain.chain_data ≡ some genesis
unfolding program
genesis_numbered = refl

delete_later_blocks_lem_example :
    (e : BlockchainData) × ((delete_later_blocks genesis chain
        ≡ (ok tt, record { length = 1; chain_data = e }))
      × Emptied 1 4 chain.chain_data e)
delete_later_blocks_lem_example =
    delete_later_blocks_lem genesis genesis chain chain-IsChain.consistent genesis_hashed
      genesis_numbered

add_block-Adds_example :
    Adds plain_lib (block_of 4 7 none 200) 4 (add_block plain_lib (block_of 4 7 none 200) chain)
add_block-Adds_example = add_block-Adds plain_lib (block_of 4 7 none 200) chain chain-IsChain

reserve_blocks-IsChain_example : Grown 9 (reserve_blocks 5 10 7 1 none chain)
reserve_blocks-IsChain_example = reserve_blocks-IsChain 5 10 7 1 none chain chain-IsChain

calculate_timestamp_fuel_example :
    (calculate_timestamp 3 2 chain.chain_data ≢ throw out_of_fuel)
    × (calculate_timestamp 3 2 chain.chain_data ≡ calculate_timestamp 9 2 chain.chain_data)
calculate_timestamp_fuel_example =
    calculate_timestamp_fuel 3 9 2 chain.chain_data (omega arith) (omega arith)
