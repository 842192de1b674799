-- ===== src/Blockchain/Holders.antt =====
-- How many reservations hold a block number, and what finding, removing and adding one changes.
use polkahat.Prelude.{
  ℕ, zero, suc, ◌+◌, ◌≤◌, ◌≡◌, refl, inl, inr, List, [], ◌∷◌, ◌++◌, Bool, true, false, Option, none,
  some, get_elem?, remove_at, find_index, ltb, arith, Bool-cases, Option-cases, subst,
}
use polkahat.Blockchain.Data.{Reservation, BlockchainData}
use polkahat.Blockchain.Reservations.{is_found, covers, find_block_reservation, is_reserved_block}

abbrev pub one_if : Bool → ℕ
one_if true = 1
one_if false = 0

abbrev pub holders : ℕ → List Reservation → ℕ
holders m [] = 0
holders m (r ∷ rs) = one_if (covers m r) + holders m rs

-- No two reservations have a block in common.
abbrev pub Disjoint : List Reservation → Type 0
Disjoint rs = (m : ℕ) → holders m rs ≤ 1

pub holders-append :
    (m : ℕ) (xs ys : List Reservation) → holders m (xs ++ ys) ≡ holders m xs + holders m ys
holders-append m [] ys = omega arith
holders-append m (x ∷ xs) ys = omega (arith, holders-append m xs ys)

pub holders-remove_at :
    (m : ℕ) (rs : List Reservation) (i : ℕ) (r : Reservation)
    → get_elem? rs i ≡ some r
    → holders m (remove_at rs i) + one_if (covers m r) ≡ holders m rs
holders-remove_at m [] i r h = absurd (cc)
holders-remove_at m (x ∷ rs) zero r h = ground arith
holders-remove_at m (x ∷ rs) (suc i) r h = omega (arith, holders-remove_at m rs i r h)

-- What `_findBlockReservation` finds.
pub data Finds (m : ℕ) (rs : List Reservation) : Option ℕ → Type 0 where
  nowhere : holders m rs ≡ 0 → Finds m rs none
  at : {i : ℕ} (r : Reservation) → get_elem? rs i ≡ some r → covers m r ≡ true → Finds m rs (some i)

Finds-shift :
    (m : ℕ) (r : Reservation) (rs : List Reservation) (o : Option ℕ)
    → covers m r ≡ false
    → Finds m rs o
    → Finds m (r ∷ rs) (elim o [ none ↦ none | some i ↦ some (suc i) ])
Finds-shift m r rs none e (nowhere z) = nowhere (ground arith)
Finds-shift m r rs (some i) e (at s g c) = at s g c

pub find_index-Finds : (m : ℕ) (rs : List Reservation) → Finds m rs (find_index (covers m) rs)
find_index-Finds m [] = nowhere refl
find_index-Finds m (r ∷ rs) = elim (Bool-cases (covers m r)) [
  | inl e ↦ rw e (at r refl e)
  | inr e ↦ rw e (Finds-shift m r rs (find_index (covers m) rs) e (find_index-Finds m rs))
]

pub find_block_reservation-Finds :
    (m : ℕ) (d : BlockchainData) → Finds m d.block_reservations (find_block_reservation m d)
unfolding find_block_reservation
find_block_reservation-Finds m d = find_index-Finds m d.block_reservations

holders-get_elem? :
    (m : ℕ) (rs : List Reservation) (i : ℕ) (r : Reservation)
    → get_elem? rs i ≡ some r
    → covers m r ≡ true
    → 1 ≤ holders m rs
holders-get_elem? m rs i r g c = let e = holders-remove_at m rs i r g in ground (arith, e, c)

Finds-holders :
    (m : ℕ) (rs : List Reservation) (o : Option ℕ)
    → Finds m rs o
    → elim o [ none ↦ false | some i ↦ true ] ≡ ltb 0 (holders m rs)
Finds-holders m rs none (nowhere z) = rw z refl
Finds-holders m rs (some i) (at r g c) = let h = holders-get_elem? m rs i r g c in ground (arith, h)

pub is_reserved_block-holders :
    (m : ℕ) (d : BlockchainData) → is_reserved_block m d ≡ ltb 0 (holders m d.block_reservations)
unfolding is_reserved_block
is_reserved_block-holders m d =
    elim (find_block_reservation m d)
        as (λ o.
          Finds m d.block_reservations o → is_found o ≡ ltb 0 (holders m d.block_reservations)) [
            | none ↦ Finds-holders m d.block_reservations none
            | some i ↦ Finds-holders m d.block_reservations (some i)
          ]
      (find_block_reservation-Finds m d)

-- The reservation at an index that the search found.
pub find_block_reservation-some :
    (m : ℕ) (d : BlockchainData) (i : ℕ)
    → find_block_reservation m d ≡ some i
    → (r : Reservation) × ((get_elem? d.block_reservations i ≡ some r) × (covers m r ≡ true))
find_block_reservation-some m d i e =
    held_at i (subst (Finds m d.block_reservations) e (find_block_reservation-Finds m d))
  where
    held_at :
        (i : ℕ)
        → Finds m d.block_reservations (some i)
        → (r : Reservation) × ((get_elem? d.block_reservations i ≡ some r) × (covers m r ≡ true))
    held_at i (at r g c) = (r, (g, c))

pub is_reserved_block-find :
    (m : ℕ) (d : BlockchainData)
    → is_reserved_block m d ≡ true
    → (i : ℕ) × (find_block_reservation m d ≡ some i)
unfolding is_reserved_block
is_reserved_block-find m d h = elim (Option-cases (find_block_reservation m d)) [
  | inl e ↦ absurd (ground (arith, e, h))
  | inr (i, e) ↦ (i, e)
]
