-- ===== src/Blockchain/Fulfilment.antt =====
-- What `fulfillBlockReservation` does: it makes one reserved block, and keeps all others as they were.
use polkahat.Prelude.{
  ℕ, suc, ◌+◌, ◌≡◌, ◌≢◌, refl, ◌∙◌, List, [], ◌∷◌, ◌++◌, Bool, true, false, not, some, get_elem?,
  remove_at, ◌==◌, if◌then◌else◌, arith,
}
use polkahat.Prelude.Outcome.{ok}
use polkahat.Map
use polkahat.Blockchain.Data.{
  Block, BlockLib, Reservation, BlockchainData, get_block_by_number, store_block,
}
use polkahat.Blockchain.Reservations.{
  covers, push_if, is_reserved_block, remove_reservation, calculate_timestamp, split_reservation,
  fulfill_block_reservation,
}
use polkahat.Blockchain.Holders.{
  one_if, holders, Disjoint, holders-append, holders-remove_at, is_reserved_block-find,
  find_block_reservation-some, is_reserved_block-holders,
}
use polkahat.Blockchain.Stores.{store_block-numbers, store_block-reservations}

-- The reservations that are left of `old` without block `n`.
abbrev pub parts : ℕ → Reservation → List Reservation → List Reservation
parts n old rs =
    let lower = (if not (n == old.first) then rs ++ (record old { after_last = n }) ∷ [] else rs) in
    if not (n + 1 == old.after_last) then lower ++ (record old { first = n + 1 }) ∷ [] else lower

pub holders-parts :
    (m n : ℕ) (old : Reservation) (rs : List Reservation)
    → covers n old ≡ true
    → holders m (parts n old rs) ≡ holders m rs + (if m == n then 0 else one_if (covers m old))
holders-parts m n old rs c =
    let a = holders-append m rs ((record old { after_last = n }) ∷ []) in
    let b = holders-append m rs ((record old { first = n + 1 }) ∷ []) in
    let e =
      holders-append m (rs ++ (record old { after_last = n }) ∷ [])
        ((record old { first = n + 1 }) ∷ []) in
    ground (arith, a, b, e)

-- The data before the new block is stored.
abbrev split : ℕ → ℕ → Reservation → BlockchainData → BlockchainData
split n index old d =
    push_if (not (n + 1 == old.after_last)) (record old { first = n + 1 })
      (push_if (not (n == old.first)) (record old { after_last = n })
        (record d { block_reservations = remove_at d.block_reservations index }))

push_if-reservations :
    (b : Bool) (r : Reservation) (d : BlockchainData)
    → (push_if b r d).block_reservations
      ≡ (if b then d.block_reservations ++ r ∷ [] else d.block_reservations)
push_if-reservations true r d = refl
push_if-reservations false r d = refl

push_if-numbers :
    (b : Bool) (r : Reservation) (d : BlockchainData)
    → (push_if b r d).blocks_by_number ≡ d.blocks_by_number
push_if-numbers true r d = refl
push_if-numbers false r d = refl

split-parts :
    (n index : ℕ) (old : Reservation) (d : BlockchainData)
    → (split n index old d).block_reservations ≡ parts n old (remove_at d.block_reservations index)
split-parts n index old d =
    let e = record d { block_reservations = remove_at d.block_reservations index } in
    rw
      (
        push_if-reservations (not (n + 1 == old.after_last)) (record old { first = n + 1 })
            (push_if (not (n == old.first)) (record old { after_last = n }) e),
        push_if-reservations (not (n == old.first)) (record old { after_last = n }) e,
      )
      refl

split-numbers :
    (n index : ℕ) (old : Reservation) (d : BlockchainData)
    → (split n index old d).blocks_by_number ≡ d.blocks_by_number
split-numbers n index old d =
    let e = record d { block_reservations = remove_at d.block_reservations index } in
    push_if-numbers (not (n + 1 == old.after_last)) (record old { first = n + 1 })
      (push_if (not (n == old.first)) (record old { after_last = n }) e)
    ∙ push_if-numbers (not (n == old.first)) (record old { after_last = n }) e

-- `e` has block `n`, made with timestamp `t`, and is else as `d` was.
pub record Fulfilled (n t : ℕ) (d e : BlockchainData) : Type 0 where
  pub block : Block
  pub number : block.number ≡ n
  pub timestamp : block.timestamp ≡ t
  pub stored : get_block_by_number n e ≡ some block
  pub others : (m : ℕ) → m ≢ n → get_block_by_number m e ≡ get_block_by_number m d
  pub unreserved : is_reserved_block n e ≡ false
  pub reserved : (m : ℕ) → m ≢ n → is_reserved_block m e ≡ is_reserved_block m d
  pub disjoint : Disjoint e.block_reservations

module _ (lib : BlockLib) (d : BlockchainData) (n t index : ℕ) (old : Reservation)
    (dis : Disjoint d.block_reservations) (found : get_elem? d.block_reservations index ≡ some old)
    (held : covers n old ≡ true) where
  abbrev made : Block
  made = lib.from_block_data n old.previous_block_state_root old.previous_block_base_fee_per_gas t

  abbrev after : BlockchainData
  after = store_block made old.previous_block_total_difficulty (split n index old d)

  holders-after :
      (m : ℕ)
      → holders m after.block_reservations ≡ (if m == n then 0 else holders m d.block_reservations)
  holders-after m =
      let a = holders-remove_at m d.block_reservations index old found in
      let b = holders-parts m n old (remove_at d.block_reservations index) held in
      let c = dis m in
      rw
        (
          store_block-reservations made old.previous_block_total_difficulty (split n index old d),
          split-parts n index old d,
          b,
        )
        (ground (arith, a, c, held))

  number-after :
      (m : ℕ)
      → get_block_by_number m after ≡ (if n == m then some made else get_block_by_number m d)
  number-after m =
      rw
        (
          store_block-numbers made old.previous_block_total_difficulty (split n index old d),
          split-numbers n index old d,
          lib.from_block_data-number n old.previous_block_state_root
              old.previous_block_base_fee_per_gas t,
          Map.get-put n m made d.blocks_by_number,
        )
        refl

  after-Fulfilled : Fulfilled n t d after
  after-Fulfilled = record {
    block = made;
    number =
        lib.from_block_data-number n old.previous_block_state_root
          old.previous_block_base_fee_per_gas t;
    timestamp =
        lib.from_block_data-timestamp n old.previous_block_state_root
          old.previous_block_base_fee_per_gas t;
    stored = ground (arith, number-after n);
    others = λ m ne. ground (arith, number-after m);
    unreserved = rw (is_reserved_block-holders n after) (ground (arith, holders-after n));
    reserved = λ m ne.
        rw (is_reserved_block-holders m after, is_reserved_block-holders m d)
          (ground (arith, holders-after m));
    disjoint = λ m. ground (arith, holders-after m, dis m);
  }

  pub split_reservation_lem :
      calculate_timestamp (suc n) n d ≡ ok t → split_reservation lib n index d ≡ (ok tt, after)
  unfolding split_reservation remove_reservation
  split_reservation_lem e = rw (e, found) refl

-- If no two reservations overlap, block `n` is reserved and its timestamp is `t`, then
-- `fulfillBlockReservation` returns, and leaves a block `n` with that timestamp; every other block
-- stays stored as it was and reserved if it was, and the reservations do not overlap.
pub fulfill_block_reservation_lem :
    (lib : BlockLib) (d : BlockchainData) (n t : ℕ)
    → Disjoint d.block_reservations
    → is_reserved_block n d ≡ true
    → calculate_timestamp (suc n) n d ≡ ok t
    → (e : BlockchainData) × ((fulfill_block_reservation lib n d ≡ (ok tt, e)) × Fulfilled n t d e)
unfolding fulfill_block_reservation
fulfill_block_reservation_lem lib d n t dis res time =
    let (i, e) = is_reserved_block-find n d res in
    let (r, (g, c)) = find_block_reservation-some n d i e in
    (
      after lib d n t i r dis g c,
      (
        rw (fulfill_block_reservation, e, split_reservation_lem lib d n t i r dis g c time) refl,
        after-Fulfilled lib d n t i r dis g c,
      ),
    )
