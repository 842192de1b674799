-- ===== src/Blockchain/Chain.antt =====
-- provider/BlockchainBase.ts and provider/HardhatBlockchain.ts: a chain of blocks numbered from 0
-- on. The source's `getLatestBlockNumber()` is `length - 1`, so `i <= latest` is written `i < length`.
use polkahat.Prelude.{
  ℕ, zero, suc, ◌+◌, ◌-◌, List, [], ◌∷◌, Bool, false, not, ◌&&◌, ◌||◌, Option, none, some, ltb,
  ◌==◌, if◌then◌else◌,
}
use polkahat.Prelude.Outcome.{
  Result, ok, throw, Method, bind, ◌>>=◌, ◌>>◌, return, fail, get_state, modify, throw_if, lift,
}
use polkahat.Map
use polkahat.Transaction.{TypedTransaction}
use polkahat.Blockchain.Data.{
  get_stored_transaction, get_block_with_transaction, get_stored_receipt, get_stored_difficulty,
  Block, RpcReceiptOutput, BlockLib, BlockchainData, Error, block_not_found, invalid_block,
  invalid_block_number, invalid_parent_hash, parent_difficulty_missing, out_of_fuel,
  new_blockchain_data, reserve_range, get_block_by_number, get_block_by_hash, get_block_before,
  store_block, remove_block, add_transaction_receipt,
}
use polkahat.Blockchain.Reservations.{
  is_reserved_block, cancel_reservation_with_block, fulfill_block_reservation,
}

pub record HardhatBlockchain : Type 0 where
  pub length : ℕ
  pub chain_data : BlockchainData

abbrev pub M : Type 0 → Type 0
M A = Method Error HardhatBlockchain A

unfoldable pub new_blockchain : HardhatBlockchain
unfolding new_blockchain_data
new_blockchain = record { length = 0; chain_data = new_blockchain_data }

abbrev pub set_data : BlockchainData → HardhatBlockchain → HardhatBlockchain
set_data d c = record c { chain_data = d }

-- A method of the field `_data`.
abbrev pub on_data : {A : Type 0} → Method Error BlockchainData A → M A
on_data m c = let (r, d) = m c.chain_data in (r, set_data d c)

abbrev pub found {ℓ} : {A : Type ℓ} → Option A → Result Error A
found none = throw block_not_found
found (some a) = ok a

pub data BlockId : Type 0 where
  by_number : ℕ → BlockId
  by_hash : ℕ → BlockId

-- The loop of `addTransactionReceipts`.
unfoldable pub add_receipts : List RpcReceiptOutput → BlockchainData → BlockchainData
unfolding add_transaction_receipt
add_receipts [] d = d
add_receipts (receipt ∷ receipts) d = add_receipts receipts (add_transaction_receipt receipt d)

unfoldable pub add_transaction_receipts :
    List RpcReceiptOutput → HardhatBlockchain → HardhatBlockchain
unfolding add_receipts
add_transaction_receipts receipts c = set_data (add_receipts receipts c.chain_data) c

unfoldable pub get_local_transaction : ℕ → HardhatBlockchain → Option TypedTransaction
get_local_transaction hash c = get_stored_transaction hash c.chain_data

unfoldable pub get_block_by_transaction_hash : ℕ → HardhatBlockchain → Option Block
get_block_by_transaction_hash hash c = get_block_with_transaction hash c.chain_data

unfoldable pub get_transaction_receipt : ℕ → HardhatBlockchain → Option RpcReceiptOutput
get_transaction_receipt hash c = get_stored_receipt hash c.chain_data

unfoldable pub get_total_difficulty : ℕ → M ℕ
get_total_difficulty hash c = (found (get_stored_difficulty hash c.chain_data), c)

unfoldable pub reserve_blocks : ℕ → ℕ → ℕ → ℕ → Option ℕ → HardhatBlockchain → HardhatBlockchain
unfolding reserve_range
reserve_blocks count interval root difficulty base_fee c = record {
  length = c.length + count;
  chain_data = reserve_range c.length count interval root difficulty base_fee c.chain_data;
}

abbrev pub is_other_hash : Option Block → ℕ → Bool
is_other_hash none hash = false
is_other_hash (some parent) hash = not (hash == parent.hash)

unfoldable pub validate_block : Block → M (Unit {0})
unfolding get_block_before
validate_block block = do
  c ← get_state
  throw_if (not (c.length == block.number)) invalid_block_number
  throw_if
      (block.number == 0 && not (block.parent_hash == 0)
        || ltb 0 block.number
          && is_other_hash (get_block_before block.number c.chain_data) block.parent_hash)
      invalid_parent_hash

-- A round of `_delBlock` at block `i`: the next `i`.
unfoldable pub del_one : ℕ → M ℕ
unfolding is_reserved_block cancel_reservation_with_block remove_block
del_one i = do
  c ← get_state
  if is_reserved_block i c.chain_data
      then (do
        reservation ← on_data (cancel_reservation_with_block i)
        return reservation.after_last)
      else (do
        modify (λ c. elim (get_block_by_number i c.chain_data) [
          | none ↦ c
          | some current ↦ set_data (remove_block current c.chain_data) c
        ])
        return (i + 1))

-- The loop of `_delBlock`. A round moves `i` on by one block at least.
unfoldable pub del_blocks : ℕ → ℕ → M (Unit {0})
unfolding del_one
del_blocks zero i c = (throw out_of_fuel, c)
del_blocks (suc fuel) i c =
    let rest = bind (del_blocks fuel) (del_one i c) in if ltb i c.length then rest else (ok tt, c)

unfoldable pub del_block : ℕ → M (Unit {0})
unfolding del_blocks
del_block n = do c ← get_state; del_blocks (c.length + 1) n; modify (λ c. record c { length = n })

unfoldable pub delete_block : ℕ → M (Unit {0})
unfolding del_block
delete_block hash c = elim (get_block_by_hash hash c.chain_data) [
  | none ↦ (throw block_not_found, c)
  | some block ↦ del_block block.number c
]

unfoldable pub delete_later_blocks : Block → M (Unit {0})
unfolding del_block
delete_later_blocks block c = elim (get_block_by_hash block.hash c.chain_data) [
  | none ↦ (throw invalid_block, c)
  | some actual ↦ del_block (actual.number + 1) c
]

-- The parent's total difficulty, which has to be known, and the block's own.
abbrev pub add_difficulty : Option ℕ → ℕ → M ℕ
add_difficulty none difficulty = fail parent_difficulty_missing
add_difficulty (some parent_difficulty) difficulty = return (parent_difficulty + difficulty)

module _ (lib : BlockLib) where
  unfoldable pub get_block : BlockId → M Block
  unfolding is_reserved_block fulfill_block_reservation
  get_block (by_number n) = do
    c ← get_state
    if is_reserved_block n c.chain_data
        then on_data (fulfill_block_reservation lib n)
        else return tt
    c ← get_state
    lift (found (get_block_by_number n c.chain_data))
  get_block (by_hash hash) = do c ← get_state; lift (found (get_block_by_hash hash c.chain_data))

  -- `getBlock(-1n)` on an empty chain finds nothing.
  unfoldable pub get_latest_block : M Block
  unfolding get_block
  get_latest_block c =
      if c.length == 0 then (throw block_not_found, c) else get_block (by_number (c.length - 1)) c

  unfoldable pub compute_total_difficulty : Block → M ℕ
  unfolding get_block
  compute_total_difficulty block = if block.number == 0 then return block.difficulty else (do
    parent ← get_block (by_number (block.number - 1))
    c ← get_state
    add_difficulty (Map.get parent.hash c.chain_data.total_difficulty) block.difficulty)

  unfoldable pub add_block : Block → M Block
  unfolding validate_block compute_total_difficulty store_block
  add_block block = do
    validate_block block
    total_difficulty ← compute_total_difficulty block
    modify (λ c. set_data (store_block block total_difficulty c.chain_data) c)
    modify (λ c. record c { length = c.length + 1 })
    return block
