-- ===== src/Node/Estimation.antt =====
-- provider/node.ts: what the search for a gas limit finds, and that its fuel is enough.
use polkahat.Prelude.{
  ℕ, zero, suc, ◌+◌, ◌-◌, ◌*◌, ◌/◌, ◌^◌, ◌≤◌, ◌<◌, ◌≡◌, refl, inl, inr, Bool, true, false, Option,
  some, ltb, leb, arith, Bool-cases,
}
use polkahat.Node.Gas.{
  max_rounds, min_diff, new_estimation, binary_search_estimation, correct_initial_estimation,
  first_estimation,
}

min_diff-least : (f : ℕ) → 200 ≤ min_diff f
unfolding min_diff
min_diff-least f = ground arith

-- What a round tries lies between the two bounds, in the middle of them from the second round on.
new_estimation-between :
    (h l round : ℕ)
    → 0 < h
    → h + 200 < l
    → h < new_estimation h l round × new_estimation h l round < l
unfolding new_estimation
new_estimation-between h l round p d = ground arith

new_estimation-halves : (h l round : ℕ) → 0 < round → new_estimation h l round ≡ h + (l - h) / 2
unfolding new_estimation
new_estimation-halves h l round p = ground arith

module _ (succeeds : ℕ → Bool) where
  -- A gas limit with which the call succeeds, and one below it, by no more than the precision that
  -- is wanted there, with which it fails.
  pub record IsTight (lowest r : ℕ) : Type 0 where
    pub enough : succeeds r ≡ true
    pub failing : ℕ
    pub failing_fails : succeeds failing ≡ false
    pub failing_least : lowest ≤ failing
    pub failing_below : failing < r
    pub close : r ≤ failing + min_diff failing

  abbrev pub Finds : ℕ → ℕ → Option ℕ → Type 0
  Finds h l result = (r : ℕ) × (result ≡ some r) × (r ≤ l) × IsTight h r

  IsTight-lower : (h k r : ℕ) → h ≤ k → IsTight k r → IsTight h r
  IsTight-lower h k r b t = record {
    enough = t.enough;
    failing = t.failing;
    failing_fails = t.failing_fails;
    failing_least = omega (arith, b, t.failing_least);
    failing_below = t.failing_below;
    close = t.close;
  }

  -- What a round does.
  data Round (fuel h l round : ℕ) (result : Option ℕ) : Type 0 where
    done : l ≤ h + min_diff h → Round fuel h l round result
    lowered :
        h + 200 < l
        → succeeds (new_estimation h l round) ≡ true
        → result ≡ binary_search_estimation succeeds fuel h (new_estimation h l round) (round + 1)
        → Round fuel h l round result
    raised :
        h + 200 < l
        → succeeds (new_estimation h l round) ≡ false
        → result ≡ binary_search_estimation succeeds fuel (new_estimation h l round) l (round + 1)
        → Round fuel h l round result

  Round_lem :
      (fuel h l round : ℕ)
      → h < l
      → round ≤ max_rounds
      → Round fuel h l round (binary_search_estimation succeeds (suc fuel) h l round)
  unfolding binary_search_estimation
  Round_lem fuel h l round below early = elim (Bool-cases (leb (l - h) (min_diff h))) [
    | inl small ↦ done (ground arith)
    | inr large ↦ elim (Bool-cases (succeeds (new_estimation h l round))) [
      | inl fine ↦
          lowered (wide large) fine
            (rw (not_met, large, in_time, fine, binary_search_estimation) refl)
      | inr bad ↦
          raised (wide large) bad (rw (not_met, large, in_time, bad, binary_search_estimation) refl)
    ]
  ]
    where
      not_met : leb l h ≡ false
      not_met = ground arith

      in_time : ltb max_rounds round ≡ false
      in_time = ground arith

      wide : leb (l - h) (min_diff h) ≡ false → h + 200 < l
      wide large = ground (arith, min_diff-least h)

  search_done :
      (fuel h l round : ℕ)
      → h < l
      → l ≤ h + min_diff h
      → succeeds h ≡ false
      → succeeds l ≡ true
      → Finds h l (binary_search_estimation succeeds (suc fuel) h l round)
  unfolding binary_search_estimation
  search_done fuel h l round below near fails works = (
    l,
    rw (not_met, small, binary_search_estimation) refl,
    omega arith,
    record {
      enough = works;
      failing = h;
      failing_fails = fails;
      failing_least = omega arith;
      failing_below = below;
      close = near;
    },
  )
    where
      not_met : leb l h ≡ false
      not_met = ground arith

      small : leb (l - h) (min_diff h) ≡ true
      small = ground arith

  search_lowered : (h l m : ℕ) (result : Option ℕ) → m ≤ l → Finds h m result → Finds h l result
  search_lowered h l m result b (r, e, below, tight) = (r, e, omega arith, tight)

  search_raised : (h l m : ℕ) (result : Option ℕ) → h ≤ m → Finds m l result → Finds h l result
  search_raised h l m result b (r, e, below, tight) = (r, e, below, IsTight-lower h m r b tight)

  -- From the second round on each round halves the distance.
  search_later :
      (fuel h l round : ℕ)
      → 0 < h
      → h < l
      → 0 < round
      → round + fuel ≡ max_rounds + 1
      → l ≤ h + 200 * 2 ^ fuel
      → succeeds h ≡ false
      → succeeds l ≡ true
      → Finds h l (binary_search_estimation succeeds (suc fuel) h l round)
  search_later zero h l round p below later left near fails works =
      search_done zero h l round below (omega (arith, near, min_diff-least h)) fails works
  search_later (suc fuel) h l round p below later left near fails works =
      elim (Round_lem (suc fuel) h l round below (omega arith)) [
        | done close ↦ search_done (suc fuel) h l round below close fails works
        | lowered wide fine e ↦
            let (above, under) = new_estimation-between h l round p wide in
            rw e (
              search_lowered h l tried _ (omega (arith, under)) (
                search_later fuel h tried (round + 1) p above (omega arith) (omega (arith, left))
                  (omega (arith, near, half, pow)) fails fine))
        | raised wide bad e ↦
            let (above, under) = new_estimation-between h l round p wide in
            rw e (
              search_raised h l tried _ (omega (arith, above)) (
                search_later fuel tried l (round + 1) (omega (arith, above)) under (omega arith)
                  (omega (arith, left)) (omega (arith, near, half, pow)) bad works))
      ]
    where
      tried : ℕ
      tried = new_estimation h l round

      pow : 2 ^ suc fuel ≡ 2 ^ fuel + 2 ^ fuel
      pow = omega arith

      half : tried ≡ h + (l - h) / 2
      half = new_estimation-halves h l round later

  search_first :
      (h l : ℕ)
      → 0 < h
      → h < l
      → l ≤ h + 200 * 2 ^ max_rounds
      → succeeds h ≡ false
      → succeeds l ≡ true
      → Finds h l (binary_search_estimation succeeds (max_rounds + 2) h l 0)
  search_first h l p below near fails works = elim (Round_lem 21 h l 0 below (omega arith)) [
    | done close ↦ search_done 21 h l 0 below close fails works
    | lowered wide fine e ↦
        let (above, under) = new_estimation-between h l 0 p wide in
        rw e (
          search_lowered h l tried _ (omega (arith, under)) (
            search_later 20 h tried 1 p above (omega arith) refl (omega (arith, near, under)) fails
              fine))
    | raised wide bad e ↦
        let (above, under) = new_estimation-between h l 0 p wide in
        rw e (
          search_raised h l tried _ (omega (arith, above)) (
            search_later 20 tried l 1 (omega (arith, above)) under (omega arith) refl
              (omega (arith, near, above)) bad works))
  ]
    where
      tried : ℕ
      tried = new_estimation h l 0

  -- The ways in which the correction of an estimation ends.
  pub data Corrected (start limit : ℕ) (result : Option ℕ) : Type 0 where
    at_once : succeeds start ≡ true → result ≡ some start → Corrected start limit result
    at_limit :
        succeeds start ≡ false → limit ≤ start → result ≡ some limit → Corrected start limit result
    searched :
        succeeds start ≡ false
        → start < limit
        → Finds start limit result
        → Corrected start limit result

  search_past : (fuel h l : ℕ) → l ≤ h → binary_search_estimation succeeds (suc fuel) h l 0 ≡ some l
  unfolding binary_search_estimation
  search_past fuel h l b = ground arith

  -- Where the call succeeds with the block's gas limit, and that limit exceeds the estimation, raised
  -- above the transaction's base fee, by at most 200 · 2^20: the rounds suffice, and the answer is
  -- the estimation itself if the call succeeds with it; the limit if the estimation reaches it; and
  -- else a gas limit with which the call succeeds, at most the block's, such that the call fails
  -- with a gas limit that is lower by no more than the precision wanted there.
  pub correct_initial_estimation_lem :
      (base_fee limit initial : ℕ)
      → succeeds limit ≡ true
      → limit ≤ first_estimation base_fee initial + 200 * 2 ^ max_rounds
      → Corrected
          (first_estimation base_fee initial)
          limit
          (correct_initial_estimation succeeds base_fee limit initial)
  unfolding correct_initial_estimation
  correct_initial_estimation_lem base_fee limit initial works near =
      elim (Bool-cases (succeeds start)) [
        | inl fine ↦ at_once fine (rw (fine, correct_initial_estimation) refl)
        | inr bad ↦ elim (Bool-cases (ltb start limit)) [
          | inl under ↦ searched bad (ground arith) (
              rw (bad, correct_initial_estimation)
                (search_first start limit (ground arith) (ground arith) near bad works))
          | inr past ↦
              at_limit bad (ground arith)
                (rw (bad, correct_initial_estimation) (search_past 21 start limit (ground arith)))
        ]
      ]
    where
      start : ℕ
      start = first_estimation base_fee initial
