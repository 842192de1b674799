-- ===== src/Node/Gas.antt =====
-- provider/node.ts: the search for a gas limit. `succeeds` says whether the call runs without an
-- exception at a gas limit, on the state it is estimated for, which each run leaves as it was.
use polkahat.Prelude.{
  ℕ, zero, suc, ◌+◌, ◌-◌, ◌*◌, ◌/◌, Bool, Option, none, some, ltb, leb, ◌==◌, if◌then◌else◌,
}

-- `MAX_GAS_ESTIMATION_IMPROVEMENT_ROUNDS`
abbrev pub max_rounds : ℕ
max_rounds = 20

unfoldable pub min_diff : ℕ → ℕ
min_diff highest_failing =
    if leb 4000000 highest_failing
    then 50000
    else if leb 1000000 highest_failing
    then 10000
    else if leb 100000 highest_failing
    then 1000
    else if leb 50000 highest_failing
    then 500
    else if leb 30000 highest_failing
    then 300
    else 200

-- The gas limit that a round tries.
unfoldable pub new_estimation : ℕ → ℕ → ℕ → ℕ
new_estimation highest_failing lowest_successful round =
    let bin_search = highest_failing + (lowest_successful - highest_failing) / 2 in
    let optimized = if round == 0 then 3 * highest_failing else bin_search in
    if ltb bin_search optimized then bin_search else optimized

abbrev pub first_estimation : ℕ → ℕ → ℕ
first_estimation base_fee initial_estimation =
    if leb initial_estimation base_fee then base_fee + 1 else initial_estimation

module _ (succeeds : ℕ → Bool) where
  -- Round `round` on; `none` when the fuel is out.
  unfoldable pub binary_search_estimation : ℕ → ℕ → ℕ → ℕ → Option ℕ
  unfolding min_diff new_estimation
  binary_search_estimation zero highest_failing lowest_successful round = none
  binary_search_estimation (suc fuel) highest_failing lowest_successful round =
      let tried = new_estimation highest_failing lowest_successful round in
      let lower = binary_search_estimation fuel highest_failing tried (round + 1) in
      let upper = binary_search_estimation fuel tried lowest_successful (round + 1) in
      if leb lowest_successful highest_failing
      then some lowest_successful
      else if leb (lowest_successful - highest_failing) (min_diff highest_failing)
      then some lowest_successful
      else if ltb max_rounds round
      then some lowest_successful
      else if succeeds tried
      then lower
      else upper

  -- `base_fee` is the least gas that the transaction has to have to be run at all.
  unfoldable pub correct_initial_estimation : ℕ → ℕ → ℕ → Option ℕ
  correct_initial_estimation base_fee block_gas_limit initial_estimation =
      let initial = first_estimation base_fee initial_estimation in
      if succeeds initial
      then some initial
      else binary_search_estimation (max_rounds + 2) initial block_gas_limit 0
