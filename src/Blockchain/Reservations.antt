-- ===== src/Blockchain/Reservations.antt =====
-- provider/BlockchainData.ts: reserved blocks, their timestamps, and how one is made.
use polkahat.Prelude.{
  ℕ, zero, suc, ◌+◌, ◌-◌, ◌*◌, Bool, true, false, not, ◌&&◌, Option, none, some, get_elem?,
  remove_at, find_index, ltb, leb, ◌==◌, if◌then◌else◌,
}
use polkahat.Prelude.Outcome.{Result, ok, throw, Method, ◌>>=◌, ◌>>◌, get_state, modify, lift}
use polkahat.Blockchain.Data.{
  BlockLib, Reservation, BlockchainData, Error, no_reservation_to_fill, not_reserved,
  block_before_missing, reservation_missing, out_of_fuel, push_reservation, get_block_before,
  store_block,
}

abbrev pub covers : ℕ → Reservation → Bool
covers n r = leb r.first n && ltb n r.after_last

unfoldable pub find_block_reservation : ℕ → BlockchainData → Option ℕ
find_block_reservation n d = find_index (covers n) d.block_reservations

abbrev pub is_found : Option ℕ → Bool
is_found none = false
is_found (some i) = true

unfoldable pub is_reserved_block : ℕ → BlockchainData → Bool
unfolding find_block_reservation
is_reserved_block n d = is_found (find_block_reservation n d)

-- An index of -1 is `none`.
unfoldable pub remove_reservation : Option ℕ → Method Error BlockchainData Reservation
remove_reservation none d = (throw reservation_missing, d)
remove_reservation (some index) d = elim (get_elem? d.block_reservations index) [
  | none ↦ (throw reservation_missing, d)
  | some r ↦ (ok r, record d { block_reservations = remove_at d.block_reservations index })
]

unfoldable pub cancel_reservation_with_block : ℕ → Method Error BlockchainData Reservation
unfolding find_block_reservation remove_reservation
cancel_reservation_with_block n = do d ← get_state; remove_reservation (find_block_reservation n d)

abbrev pub add_to : ℕ → Result Error ℕ → Result Error ℕ
add_to n (ok t) = ok (t + n)
add_to n (throw e) = throw e

-- Each call is for a smaller block number, so that `n + 1` is enough fuel for block `n`.
unfoldable pub calculate_timestamp : ℕ → ℕ → BlockchainData → Result Error ℕ
unfolding find_block_reservation is_reserved_block get_block_before
calculate_timestamp zero n d = throw out_of_fuel
calculate_timestamp (suc fuel) n d = elim (find_block_reservation n d) [
  | none ↦ throw not_reserved
  | some index ↦ elim (get_elem? d.block_reservations index) [
    | none ↦ throw not_reserved
    | some r ↦
        let earlier = calculate_timestamp fuel (r.first - 1) d in
        elim (get_block_before r.first d) [
          | none ↦ throw block_before_missing
          | some before ↦
              add_to (r.interval * (n - r.first + 1))
                (if is_reserved_block (r.first - 1) d then earlier else ok before.timestamp)
        ]
  ]
]

abbrev pub push_if : Bool → Reservation → BlockchainData → BlockchainData
push_if true r d = push_reservation r d
push_if false r d = d

module _ (lib : BlockLib) where
  -- What follows the search: the split, and the new block.
  unfoldable pub split_reservation : ℕ → ℕ → Method Error BlockchainData (Unit {0})
  unfolding calculate_timestamp remove_reservation store_block
  split_reservation n index = do
    d ← get_state
    timestamp ← lift (calculate_timestamp (suc n) n d)
    old ← remove_reservation (some index)
    modify (push_if (not (n == old.first)) (record old { after_last = n }))
    modify (push_if (not (n + 1 == old.after_last)) (record old { first = n + 1 }))
    modify (
        store_block
          (lib.from_block_data n old.previous_block_state_root old.previous_block_base_fee_per_gas
            timestamp)
          old.previous_block_total_difficulty)

  unfoldable pub fulfill_block_reservation : ℕ → Method Error BlockchainData (Unit {0})
  unfolding find_block_reservation split_reservation
  fulfill_block_reservation n d = elim (find_block_reservation n d) [
    | none ↦ (throw no_reservation_to_fill, d)
    | some index ↦ split_reservation n index d
  ]
