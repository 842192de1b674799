-- ===== src/Blockchain/Serving.antt =====
-- What `getBlock` leaves of the stored blocks, and that it stores the one that it returns.
use polkahat.Prelude.{
  ℕ, suc, ◌≡◌, refl, sym, ap, subst, ◌∙◌, inl, inr, true, none, some, Option, ◌==◌, ==_iff, ==→ne,
  Bool-cases, Option-cases,
}
use polkahat.Prelude.Outcome.{Result, ok, throw, Result-cases}
use polkahat.Blockchain.Data.{Block, BlockLib, BlockchainData, Error, get_block_by_number}
use polkahat.Blockchain.Reservations.{is_reserved_block, calculate_timestamp}
use polkahat.Blockchain.Chain.{HardhatBlockchain, found, by_number, get_block}
use polkahat.Blockchain.Holders.{is_reserved_block-find}
use polkahat.Blockchain.Fulfilment.{Fulfilled}
use polkahat.Blockchain.Lookup.{get_block-unreserved, get_block-reserved}
use polkahat.Blockchain.Growth.{IsChain}
use polkahat.Blockchain.Appending.{fulfill-throw}

-- What is stored stays stored.
abbrev pub Keeps : BlockchainData → BlockchainData → Type 0
Keeps d e =
    (m : ℕ) (b : Block) → get_block_by_number m d ≡ some b → get_block_by_number m e ≡ some b

abbrev pub Served : ℕ → HardhatBlockchain → Result Error Block × HardhatBlockchain → Type 0
Served i c (ok b, e) =
    Keeps c.chain_data e.chain_data × (get_block_by_number i e.chain_data ≡ some b)
Served i c (throw x, e) = Unit {0}

pub get_block-thrown :
    (lib : BlockLib) (i : ℕ) (c : HardhatBlockchain) (x : Error)
    → is_reserved_block i c.chain_data ≡ true
    → calculate_timestamp (suc i) i c.chain_data ≡ throw x
    → get_block lib (by_number i) c ≡ (throw x, c)
unfolding get_block
get_block-thrown lib i c x res thrown =
    let (index, at_i) = is_reserved_block-find i c.chain_data res in
    rw (res, fulfill-throw lib i index c.chain_data x at_i thrown) refl

found-Served :
    (i : ℕ) (c : HardhatBlockchain) (o : Option Block)
    → get_block_by_number i c.chain_data ≡ o
    → Served i c (found o, c)
found-Served i c none e = tt
found-Served i c (some b) e = (λ m x h. h, e)

Fulfilled-Keeps :
    (i t : ℕ) (d e : BlockchainData)
    → get_block_by_number i d ≡ none
    → Fulfilled i t d e
    → Keeps d e
Fulfilled-Keeps i t d e empty f m b h = elim (Bool-cases (m == i)) [
  | inl same ↦
      let at_i = ap (λ k. get_block_by_number k d) ((==_iff m i).0 same) in
      absurd (let x = sym h ∙ at_i ∙ empty in cc)
  | inr other ↦ f.others m (==→ne m i other) ∙ h
]

pub get_block-Served :
    (lib : BlockLib) (i : ℕ) (c : HardhatBlockchain)
    → IsChain c
    → Served i c (get_block lib (by_number i) c)
get_block-Served lib i c k = elim (Bool-cases (is_reserved_block i c.chain_data)) [
  | inr free ↦
      subst (Served i c) (sym (get_block-unreserved lib i c free)) (found-Served i c _ refl)
  | inl res ↦ elim (Result-cases (calculate_timestamp (suc i) i c.chain_data)) [
    | inl (x, thrown) ↦ subst (Served i c) (sym (get_block-thrown lib i c x res thrown)) tt
    | inr (t, time) ↦
        let (d, (f, (first, again))) =
          get_block-reserved lib i t c k.consistent.disjoint res time in
        subst (Served i c) (sym first)
          (Fulfilled-Keeps i t c.chain_data d (not_stored res) f, f.stored)
  ]
]
  where
    not_stored : is_reserved_block i c.chain_data ≡ true → get_block_by_number i c.chain_data ≡ none
    not_stored res = elim (Option-cases (get_block_by_number i c.chain_data)) [
      | inl e ↦ e
      | inr (b, e) ↦ absurd (let x = sym res ∙ k.consistent.exclusive i b e in cc)
    ]
