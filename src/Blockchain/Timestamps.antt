-- ===== src/Blockchain/Timestamps.antt =====
-- The timestamps of reserved blocks: `_calculateTimestampForReservedBlock` ends, and spaces the
-- blocks of a reservation evenly behind the block before it.
use polkahat.Prelude.{
  ℕ, zero, suc, ◌+◌, ◌-◌, ◌*◌, ◌≤◌, ◌<◌, ◌≡◌, ◌≢◌, refl, true, false, some, get_elem?, arith,
  Option-cases, Bool-cases, inl, inr,
}
use polkahat.Prelude.Outcome.{Result, ok, throw}
use polkahat.Blockchain.Data.{
  Error, Block, out_of_fuel, Reservation, BlockchainData, get_block_before,
}
use polkahat.Blockchain.Reservations.{
  add_to, covers, find_block_reservation, is_reserved_block, calculate_timestamp,
}
use polkahat.Blockchain.Holders.{find_block_reservation-some}

covers-first : (n : ℕ) (r : Reservation) → covers n r ≡ true → r.first ≤ n
covers-first n r c = ground arith

get_block_before-some :
    (n : ℕ) (d : BlockchainData) (block : Block) → get_block_before n d ≡ some block → 1 ≤ n
unfolding get_block_before
get_block_before-some n d block e = ground (arith, e)

add_to-ends : (k : ℕ) (r : Result Error ℕ) → r ≢ throw out_of_fuel → add_to k r ≢ throw out_of_fuel
add_to-ends k (ok t) h = λ x. cc
add_to-ends k (throw e) h = h

-- The fuel does not run out.
calculate_timestamp_ends :
    (f n : ℕ) (d : BlockchainData) → n < f → calculate_timestamp f n d ≢ throw out_of_fuel
unfolding calculate_timestamp
calculate_timestamp_ends zero n d hf = absurd (omega arith)
calculate_timestamp_ends (suc f) n d hf = elim (Option-cases (find_block_reservation n d)) [
  | inl e ↦ rw (calculate_timestamp, e) (λ x. cc)
  | inr (i, e) ↦
      let (r, (at_i, c)) = find_block_reservation-some n d i e in
      elim (Option-cases (get_block_before r.first d)) [
        | inl b ↦ rw (calculate_timestamp, e, at_i, b) (λ x. cc)
        | inr (before, b) ↦
            let first = get_block_before-some r.first d before b in
            let le = covers-first n r c in
            let earlier = calculate_timestamp_ends f (r.first - 1) d (omega arith) in
            elim (Bool-cases (is_reserved_block (r.first - 1) d)) [
              | inl res ↦
                  rw (calculate_timestamp, e, at_i, b, res)
                    (add_to-ends _ (calculate_timestamp f (r.first - 1) d) earlier)
              | inr free ↦ rw (calculate_timestamp, e, at_i, b, free) (λ x. cc)
            ]
      ]
]

calculate_timestamp_same :
    (f g n : ℕ) (d : BlockchainData)
    → n < f
    → n < g
    → calculate_timestamp f n d ≡ calculate_timestamp g n d
unfolding calculate_timestamp
calculate_timestamp_same zero g n d hf hg = absurd (omega arith)
calculate_timestamp_same (suc f) zero n d hf hg = absurd (omega arith)
calculate_timestamp_same (suc f) (suc g) n d hf hg =
    elim (Option-cases (find_block_reservation n d)) [
      | inl e ↦ rw (calculate_timestamp, e) refl
      | inr (i, e) ↦
          let (r, (at_i, c)) = find_block_reservation-some n d i e in
          elim (Option-cases (get_block_before r.first d)) [
            | inl b ↦ rw (calculate_timestamp, e, at_i, b) refl
            | inr (before, b) ↦
                let first = get_block_before-some r.first d before b in
                let le = covers-first n r c in
                rw
                  (
                    calculate_timestamp,
                    e,
                    at_i,
                    b,
                    calculate_timestamp_same f g (r.first - 1) d (omega arith) (omega arith),
                  )
                  refl
          ]
    ]

-- With fuel above the block number the recursion ends, with a timestamp or an error of the code:
-- the fuel does not run out, and more of it changes nothing.
pub calculate_timestamp_fuel :
    (f g n : ℕ) (d : BlockchainData)
    → n < f
    → n < g
    → (calculate_timestamp f n d ≢ throw out_of_fuel)
      × (calculate_timestamp f n d ≡ calculate_timestamp g n d)
calculate_timestamp_fuel f g n d hf hg =
    (calculate_timestamp_ends f n d hf, calculate_timestamp_same f g n d hf hg)

-- In the reservation `r`, whose block before is stored and not itself reserved, block `n` is
-- stamped the interval later than the one before it, counted from the stored block's timestamp.
pub calculate_timestamp_lem :
    (n i : ℕ) (d : BlockchainData) (r : Reservation) (before : Block)
    → find_block_reservation n d ≡ some i
    → get_elem? d.block_reservations i ≡ some r
    → get_block_before r.first d ≡ some before
    → is_reserved_block (r.first - 1) d ≡ false
    → calculate_timestamp (suc n) n d ≡ ok (before.timestamp + r.interval * (n - r.first + 1))
unfolding calculate_timestamp
calculate_timestamp_lem n i d r before e at_i b u = rw (calculate_timestamp, e, at_i, b, u) refl
