-- ===== src/Node/Clock.antt =====
-- provider/node.ts: the timestamps of the blocks to come. `now` is the time in milliseconds that
-- `new Date()` gives during a call.
use polkahat.Prelude.{ℕ, ◌+◌, ◌/◌, Bool, true, false, Option, none, some, ◌==◌, if◌then◌else◌}
use polkahat.Prelude.Int.{ℤ, pos, negsuc, ◌+ℤ◌, ◌-ℤ◌}
use polkahat.Prelude.Outcome.{◌>>=◌, return}
use polkahat.Blockchain.Data.{BlockLib}
use polkahat.Blockchain.Chain.{get_latest_block}
use polkahat.Node.State.{HardhatNode, M, on_chain}

-- provider/utils/getCurrentTimestamp.ts: seconds, rounded up.
unfoldable pub get_current_timestamp : ℕ → ℕ
get_current_timestamp now = (now + 999) / 1000

abbrev pub is_unset : Option ℕ → Bool
is_unset none = true
is_unset (some t) = t == 0

abbrev pub given : Option ℕ → ℕ
given none = 0
given (some t) = t

abbrev pub eq_ℤ : ℤ → ℤ → Bool
eq_ℤ (pos m) (pos n) = m == n
eq_ℤ (negsuc m) (negsuc n) = m == n
eq_ℤ (pos m) (negsuc n) = false
eq_ℤ (negsuc m) (pos n) = false

-- `[blockTimestamp, offsetShouldChange, newOffset]`
pub record TimestampAndOffset : Type 0 where
  pub block_timestamp : ℤ
  pub offset_should_change : Bool
  pub new_offset : ℤ

abbrev pub chosen : ℕ → ℤ → TimestampAndOffset
chosen current t = record {
  block_timestamp = t;
  offset_should_change = true;
  new_offset = t -ℤ pos current;
}

module _ {Data : Type 0} where
  unfoldable pub set_next_block_timestamp : ℕ → HardhatNode Data → HardhatNode Data
  set_next_block_timestamp timestamp n = record n { next_block_timestamp = timestamp }

  unfoldable pub set_time_increment : ℤ → HardhatNode Data → HardhatNode Data
  set_time_increment increment n = record n { block_time_offset_seconds = increment }

  unfoldable pub increase_time : ℤ → HardhatNode Data → HardhatNode Data
  increase_time increment n = record n {
    block_time_offset_seconds = n.block_time_offset_seconds +ℤ increment;
  }

  unfoldable pub reset_next_block_timestamp : HardhatNode Data → HardhatNode Data
  unfolding set_next_block_timestamp
  reset_next_block_timestamp n = set_next_block_timestamp 0 n

  unfoldable pub set_user_provided_next_block_base_fee_per_gas :
      ℕ → HardhatNode Data → HardhatNode Data
  set_user_provided_next_block_base_fee_per_gas fee n = record n {
    user_provided_next_block_base_fee_per_gas = some fee;
  }

  unfoldable pub reset_user_provided_next_block_base_fee_per_gas :
      HardhatNode Data → HardhatNode Data
  reset_user_provided_next_block_base_fee_per_gas n = record n {
    user_provided_next_block_base_fee_per_gas = none;
  }

  unfoldable pub calculate_timestamp_and_offset :
      ℕ → Option ℕ → HardhatNode Data → TimestampAndOffset
  unfolding get_current_timestamp
  calculate_timestamp_and_offset now timestamp n =
      let current = get_current_timestamp now in
      if is_unset timestamp
      then (if n.next_block_timestamp == 0
          then record {
            block_timestamp = pos current +ℤ n.block_time_offset_seconds;
            offset_should_change = false;
            new_offset = pos 0;
          }
          else chosen current (pos n.next_block_timestamp))
      else chosen current (pos (given timestamp))

  unfoldable pub timestamp_clashes_with_previous_block_one : BlockLib → ℤ → M Data Bool
  timestamp_clashes_with_previous_block_one lib block_timestamp = do
    latest_block ← on_chain (get_latest_block lib)
    return (eq_ℤ (pos latest_block.timestamp) block_timestamp)

  -- What `mineBlock` does to the clock once its block is saved.
  unfoldable pub settle_clock : Bool → TimestampAndOffset → HardhatNode Data → HardhatNode Data
  unfolding increase_time set_time_increment reset_next_block_timestamp
      reset_user_provided_next_block_base_fee_per_gas
  settle_clock needs_timestamp_increase t n =
      let n_1 = if needs_timestamp_increase then increase_time (pos 1) n else n in
      let n_2 = if t.offset_should_change then set_time_increment t.new_offset n_1 else n_1 in
      reset_user_provided_next_block_base_fee_per_gas (reset_next_block_timestamp n_2)
