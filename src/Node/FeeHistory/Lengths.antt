-- ===== src/Node/FeeHistory/Lengths.antt =====
-- provider/node.ts: how many entries a fee history has.
use polkahat.Prelude.{
  ℕ, zero, suc, ◌+◌, ◌-◌, ◌≤◌, ◌≡◌, refl, ◌∙◌, inl, inr, List, [], ◌∷◌, ◌++◌, map, Bool, true,
  false, Option, none, some, length, length-append, ltb, leb, ◌==◌, if◌then◌else◌, arith,
  Bool-cases,
}
use polkahat.Prelude.Int.{ℤ, pos}
use polkahat.Prelude.Outcome.{Result, ok, throw, Method, ◌>>=◌, return, Ends, bind-Ends, Ends-more}
use polkahat.Transaction.{Externals}
use polkahat.TransactionQueue.{Heap}
use polkahat.Blockchain.Data.{Block, BlockLib}
use polkahat.Node.State.{HardhatNode, Error}
use polkahat.Node.Building.{Vm}
use polkahat.Node.Mining.{get_next_block_base_fee_per_gas}
use polkahat.Node.Contexts.{BlockNumberOrPending, number, get_block_by_number_or_pending, existing}
use polkahat.Node.Fees.{fee_or_zero}
use polkahat.Node.FeeHistory.{
  FeeHistory, gas_used_ratio, push_base_fee, push_usage, push_reward, get_rewards_if,
  history_of_block, history_from, resolved, empty_rewards, pending_block_if, get_fee_history,
}

abbrev pub is_there : Option (List (List ℤ)) → Bool
is_there none = false
is_there (some rewards) = true

-- As many rewards as ratios, if there are rewards.
abbrev pub Paired : Option (List (List ℤ)) → List ℕ → Type 0
Paired none ratios = Unit {0}
Paired (some rewards) ratios = length rewards ≡ length ratios

-- What a round pushes: a base fee, and a ratio with its rewards or not.
record Pushed (usage : ℕ) (h k : FeeHistory) : Type 0 where
  fees : length k.base_fee_per_gas ≡ length h.base_fee_per_gas + 1
  ratios : length k.gas_used_ratio ≡ length h.gas_used_ratio + usage
  paired : Paired h.reward h.gas_used_ratio → Paired k.reward k.gas_used_ratio
  same : is_there k.reward ≡ is_there h.reward
  oldest : k.oldest_block ≡ h.oldest_block

push_base_fee-Pushed : (fee : ℕ) (h : FeeHistory) → Pushed 0 h (push_base_fee fee h)
push_base_fee-Pushed fee h = record {
  fees = length-append h.base_fee_per_gas (fee ∷ []);
  ratios = omega arith;
  paired = λ p. p;
  same = refl;
  oldest = refl;
}

push_reward-Paired :
    (r : List ℤ) (ratio : ℕ) (o : Option (List (List ℤ))) (ratios : List ℕ)
    → Paired o ratios
    → Paired (push_reward r o) (ratios ++ ratio ∷ [])
push_reward-Paired r ratio none ratios p = tt
push_reward-Paired r ratio (some rs) ratios p =
    omega (arith, p, length-append rs (r ∷ []), length-append ratios (ratio ∷ []))

push_reward-is_there :
    (r : List ℤ) (o : Option (List (List ℤ))) → is_there (push_reward r o) ≡ is_there o
push_reward-is_there r none = refl
push_reward-is_there r (some rs) = refl

push_usage-Pushed :
    (fee ratio : ℕ) (r : List ℤ) (h : FeeHistory)
    → Pushed 1 h (push_usage ratio r (push_base_fee fee h))
push_usage-Pushed fee ratio r h = record {
  fees = length-append h.base_fee_per_gas (fee ∷ []);
  ratios = length-append h.gas_used_ratio (ratio ∷ []);
  paired = push_reward-Paired r ratio h.reward h.gas_used_ratio;
  same = push_reward-is_there r h.reward;
  oldest = refl;
}

abbrev one_if : Bool → ℕ
one_if true = 1
one_if false = 0

module _ {Data : Type 0} where
  any-Ends :
      {A : Type 0} (r : Result Error A × HardhatNode Data)
      → Ends (λ a n. Unit {0}) (λ n. Unit {0}) r
  any-Ends (ok a, n) = record { holds = tt }
  any-Ends (throw e, n) = record { holds = tt }

  abbrev Round : Bool → FeeHistory → FeeHistory → HardhatNode Data → Type 0
  Round inner h k n = Pushed (one_if inner) h k

  -- A base fee is pushed, and for an inner block what else there is.
  usage-Ends :
      {A : Type 0} (inner : Bool) (fee : ℕ) (h : FeeHistory) (m : Method Error (HardhatNode Data) A)
      (ratio : A → ℕ) (rewards : A → List ℤ) (n : HardhatNode Data)
      → Ends
          (Round inner h)
          (λ n. Unit {0})
          ((if inner
              then (m >>= λ a. return (push_usage (ratio a) (rewards a) (push_base_fee fee h)))
              else return (push_base_fee fee h))
            n)
  usage-Ends true fee h m ratio rewards n =
      bind-Ends _ _ (any-Ends (m n))
        λ a n' u. record { holds = push_usage-Pushed fee (ratio a) (rewards a) h }
  usage-Ends false fee h m ratio rewards n = record { holds = push_base_fee-Pushed fee h }

module _ {Data : Type 0} (ext : Externals Data) (lib : BlockLib) (vm : Vm) (heap : Heap) (now : ℕ)
    (percentiles : List ℕ) (last_block pending_number : ℕ)
    (bounded : last_block ≤ pending_number + 1) (pending_block : Option Block) where
  history_of_block-Ends :
      (i : ℕ) (h : FeeHistory) (n : HardhatNode Data)
      → Ends
          (Round (ltb i last_block) h)
          (λ n. Unit {0})
          (history_of_block ext lib vm heap now percentiles last_block pending_block pending_number
            i h n)
  unfolding history_of_block
  history_of_block-Ends i h n = elim (Bool-cases (ltb i pending_number)) [
    | inl early ↦
        rw (early, history_of_block)
          (bind-Ends _ _
            (any-Ends (get_block_by_number_or_pending ext lib vm heap now (number i) n))
            λ found n_1 u_1. bind-Ends _ _ (any-Ends (existing found n_1)) λ block n_2 u_2.
              usage-Ends (ltb i last_block) (fee_or_zero block.base_fee_per_gas) h
                (get_rewards_if percentiles block) (λ r. gas_used_ratio block) (λ r. r) n_2)
    | inr late ↦ elim (Bool-cases (i == pending_number)) [
      | inl now_pending ↦
          rw (late, now_pending, history_of_block)
            (bind-Ends _ _ (any-Ends (get_next_block_base_fee_per_gas ext lib vm heap n))
              λ fee n_1 u_1.
                usage-Ends (ltb i last_block) (fee_or_zero fee) h (existing pending_block)
                  gas_used_ratio (λ b. map (λ p. pos 0) percentiles) n_1)
      | inr other ↦ elim (Bool-cases (i == pending_number + 1)) [
        | inl behind ↦
            let outer : ltb i last_block ≡ false = ground arith in
            rw (late, other, behind, outer, history_of_block)
              (bind-Ends _ _ (any-Ends (existing pending_block n))
                λ b n_1 u_1. record { holds = push_base_fee-Pushed (vm.calc_next_base_fee b) h })
        | inr never ↦ rw (late, other, never, history_of_block) (record { holds = tt })
      ]
    ]
  ]

  -- What `left` rounds push, the last of which is for the last block.
  record PushedAll (left : ℕ) (h k : FeeHistory) : Type 0 where
    fees : length k.base_fee_per_gas ≡ length h.base_fee_per_gas + left
    ratios : length k.gas_used_ratio ≡ length h.gas_used_ratio + (left - 1)
    paired : Paired h.reward h.gas_used_ratio → Paired k.reward k.gas_used_ratio
    same : is_there k.reward ≡ is_there h.reward
    oldest : k.oldest_block ≡ h.oldest_block

  ratios_of :
      (i left : ℕ) → i + suc left ≡ last_block + 1 → one_if (ltb i last_block) + (left - 1) ≡ left
  ratios_of i left e = elim (Bool-cases (ltb i last_block)) [
    | inl inner ↦ rw inner (ground (arith, inner))
    | inr outer ↦ rw outer (ground (arith, outer))
  ]

  history_from-Ends :
      (left i : ℕ) (h : FeeHistory) (n : HardhatNode Data)
      → i + left ≡ last_block + 1
      → Ends
          (λ k m. PushedAll left h k)
          (λ n. Unit {0})
          (history_from ext lib vm heap now percentiles last_block pending_block pending_number left
            i h n)
  unfolding history_from
  history_from-Ends zero i h n e = record {
    holds = record {
      fees = omega arith;
      ratios = omega arith;
      paired = λ p. p;
      same = refl;
      oldest = refl;
    };
  }
  history_from-Ends (suc left) i h n e = bind-Ends _ _ (history_of_block-Ends i h n) λ h_1 n_1 p.
      Ends-more _
        (λ k m a. record {
          fees = omega (arith, p.fees, a.fees);
          ratios = omega (arith, p.ratios, a.ratios, ratios_of i left e);
          paired = λ q. a.paired (p.paired q);
          same = a.same ∙ p.same;
          oldest = a.oldest ∙ p.oldest;
        })
        (λ m u. u) (history_from-Ends left (i + 1) h_1 n_1 (omega (arith, e)))

-- The shape of a history of the blocks from the oldest to the newest: as many ratios as blocks, a
-- base fee more than that, and as many lists of rewards as blocks, when percentiles are asked for.
pub record HasLengths (newest count : ℕ) (percentiles : List ℕ) (h : FeeHistory) : Type 0 where
  pub oldest : h.oldest_block ≡ newest + 1 - count
  pub ratios : h.oldest_block + length h.gas_used_ratio ≡ newest + 1
  pub fees : length h.base_fee_per_gas ≡ length h.gas_used_ratio + 1
  pub rewards : Paired h.reward h.gas_used_ratio
  pub given : is_there h.reward ≡ is_there (empty_rewards percentiles)

empty_rewards-Paired : (percentiles : List ℕ) → Paired (empty_rewards percentiles) []
empty_rewards-Paired [] = tt
empty_rewards-Paired (p ∷ ps) = refl

module _ {Data : Type 0} (ext : Externals Data) (lib : BlockLib) (vm : Vm) (heap : Heap)
    (now : ℕ) where
  -- For a newest block up to the one to come, an answer of `getFeeHistory` starts at the oldest of
  -- as many blocks as were asked for, or of all there are, and has as many ratios as there are blocks
  -- from there to the newest, one base fee more, and as many lists of rewards as blocks just when
  -- percentiles are given.
  pub get_fee_history-HasLengths :
      (count : ℕ) (newest : BlockNumberOrPending) (percentiles : List ℕ) (n : HardhatNode Data)
      → resolved n.blockchain.length newest ≤ n.blockchain.length
      → Ends
          (λ h m. HasLengths (resolved n.blockchain.length newest) count percentiles h)
          (λ m. Unit {0})
          (get_fee_history ext lib vm heap now count newest percentiles n)
  unfolding get_fee_history
  get_fee_history-HasLengths count newest percentiles n within =
      bind-Ends _ _
        (any-Ends (
          pending_block_if ext lib vm heap now
            (leb n.blockchain.length (resolved n.blockchain.length newest + 1)) n))
        λ block n_1 u_1.
          Ends-more _
            (λ h m a. record {
              oldest = a.oldest;
              ratios = omega (arith, a.oldest, a.ratios);
              fees = omega (arith, a.fees, a.ratios);
              rewards = a.paired (empty_rewards-Paired percentiles);
              given = a.same;
            })
            (λ m u. u)
            (history_from-Ends ext lib vm heap now percentiles
              (resolved n.blockchain.length newest + 1) n.blockchain.length (omega arith) block
              (resolved n.blockchain.length newest
                + 1
                + 1
                - (resolved n.blockchain.length newest + 1 - count))
              (resolved n.blockchain.length newest + 1 - count) _ n_1 (omega arith))
