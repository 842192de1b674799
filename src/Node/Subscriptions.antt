-- ===== src/Node/Subscriptions.antt =====
-- provider/node.ts: filters, and what a new block or a new pending transaction does to them. `now`
-- is a time in milliseconds; the `Map` of filters is keyed by the decimal text of an id, here by it.
use polkahat.Prelude.{
  ℕ, ◌+◌, ◌*◌, List, [], ◌∷◌, ◌++◌, map, Bool, true, false, not, ◌&&◌, ◌||◌, Option, none, some,
  ltb, length, if◌then◌else◌,
}
use polkahat.Prelude.Int.{ℤ, sub_ℕ, ltb_ℤ}
use polkahat.Prelude.Outcome.{ok, ◌>>=◌, ◌>>◌, return, get_state, modify}
use polkahat.Map
use polkahat.Filter.{RpcLogOutput, FilterCriteria, is_latest, bloom_filter, filter_logs}
use polkahat.Transaction.{TypedTransaction}
use polkahat.Blockchain.Data.{Block, BlockLib}
use polkahat.Blockchain.Chain.{get_latest_block}
use polkahat.Blockchain.Logs.{get_logs}
use polkahat.Node.State.{
  HardhatNode, M, Filter, EthEvent, hash_event, block_event, log_event, SubscriptionType,
  logs_subscription, pending_transaction_subscription, block_subscription, on_chain,
}

-- Five minutes from now.
unfoldable pub new_deadline : ℕ → ℕ
new_deadline now = now + 5 * 60 * 1000

abbrev pub clip : ℤ → ℤ → ℤ
clip latest b = if ltb_ℤ latest b then latest else b

-- `latest` is the number of the latest block, which is -1 when there is none.
unfoldable pub compute_filter_params : ℤ → FilterCriteria → Bool → FilterCriteria
compute_filter_params latest params is_filter =
    let from = if is_latest params.from_block then latest else params.from_block in
    let to = if not is_filter && is_latest params.to_block then latest else params.to_block in
    record params { from_block = clip latest from; to_block = clip latest to }

abbrev pub latest_block_number : ℕ → ℤ
latest_block_number length = sub_ℕ length 1

-- What a saved block does to a filter that has not expired, and the events it emits.
module _ (check : ℕ → Bool) (block : Block) (difficulty : ℕ) (rpc_logs : List RpcLogOutput) where
  abbrev pub add_logs : List RpcLogOutput → Filter → Filter × List EthEvent
  add_logs logs f =
      if f.subscription
      then (f, map (λ l. log_event f.id l) logs)
      else (record f { logs = f.logs ++ logs }, [])

  abbrev pub notify_logs : Option FilterCriteria → Filter → Filter × List EthEvent
  notify_logs none f = (f, [])
  notify_logs (some criteria) f =
      if bloom_filter check criteria.addresses criteria.normalized_topics
      then add_logs (filter_logs rpc_logs criteria) f
      else (f, [])

  abbrev pub notify_as : SubscriptionType → Filter → Filter × List EthEvent
  notify_as block_subscription f =
      if f.subscription
      then (f, block_event f.id block difficulty ∷ [])
      else (record f { hashes = f.hashes ++ block.hash ∷ [] }, [])
  notify_as logs_subscription f = notify_logs f.criteria f
  notify_as pending_transaction_subscription f = (f, [])

  unfoldable pub notify_block : Filter → Filter × List EthEvent
  unfolding bloom_filter filter_logs
  notify_block f = notify_as f.kind f

  -- The loop: an expired filter is dropped, and is served a last time all the same.
  unfoldable pub notify_all : ℕ → List (ℕ × Filter) → List (ℕ × Filter) × List EthEvent
  unfolding notify_block
  notify_all now [] = ([], [])
  notify_all now ((key, f) ∷ rest) =
      let (others, events) = notify_all now rest in
      let (g, mine) = notify_block f in
      ((if ltb f.deadline now then others else (key, g) ∷ others), mine ++ events)

-- The loop of `_notifyPendingTransaction`.
unfoldable pub notify_pending : ℕ → List (ℕ × Filter) → List (ℕ × Filter) × List EthEvent
notify_pending hash [] = ([], [])
notify_pending hash ((key, f) ∷ rest) =
    let (others, events) = notify_pending hash rest in
    elim f.kind [
      | pending_transaction_subscription ↦
          if f.subscription
          then ((key, f) ∷ others, hash_event f.id hash ∷ events)
          else ((key, record f { hashes = f.hashes ++ hash ∷ [] }) ∷ others, events)
      | block_subscription ↦ ((key, f) ∷ others, events)
      | logs_subscription ↦ ((key, f) ∷ others, events)
    ]

-- What a poll answers: hashes or logs.
pub data Changes : Type 0 where
  hashes_of : List ℕ → Changes
  logs_of : List RpcLogOutput → Changes

abbrev pub drain : SubscriptionType → Filter → Changes × Filter
drain logs_subscription f = (logs_of f.logs, record f { logs = [] })
drain block_subscription f = (hashes_of f.hashes, record f { hashes = [] })
drain pending_transaction_subscription f = (hashes_of f.hashes, record f { hashes = [] })

module _ {Data : Type 0} where
  abbrev pub put_filter : Filter → HardhatNode Data → HardhatNode Data
  put_filter f n = record n { filters = Map.put f.id f n.filters }

  unfoldable pub get_next_filter_id : M Data ℕ
  get_next_filter_id n =
      (ok (n.last_filter_id + 1), record n { last_filter_id = n.last_filter_id + 1 })

  unfoldable pub notify_pending_transaction : TypedTransaction → HardhatNode Data → HardhatNode Data
  unfolding notify_pending
  notify_pending_transaction tx n =
      let (filters, events) = notify_pending tx.hash n.filters in
      record n { filters = filters; emitted = n.emitted ++ events }

  unfoldable pub new_pending_transaction_filter : ℕ → Bool → M Data ℕ
  unfolding get_next_filter_id new_deadline
  new_pending_transaction_filter now is_subscription = do
    filter_id ← get_next_filter_id
    modify (
        put_filter (record {
          id = filter_id;
          kind = pending_transaction_subscription;
          criteria = none;
          deadline = new_deadline now;
          hashes = [];
          logs = [];
          subscription = is_subscription;
        }))
    return filter_id

  unfoldable pub uninstall_filter : ℕ → Bool → M Data Bool
  uninstall_filter id subscription n = elim (Map.get id n.filters) [
    | none ↦ (ok false, n)
    | some f ↦
        if (f.subscription && not subscription) || (not f.subscription && subscription)
        then (ok false, n)
        else (ok true, record n { filters = Map.delete id n.filters })
  ]

  unfoldable pub get_filter_changes : ℕ → ℕ → M Data (Option Changes)
  unfolding new_deadline
  get_filter_changes now id n = elim (Map.get id n.filters) [
    | none ↦ (ok none, n)
    | some f ↦
        let (changes, g) = drain f.kind f in
        (
          ok (some changes),
          record n { filters = Map.put id (record g { deadline = new_deadline now }) n.filters },
        )
  ]

  unfoldable pub get_filter_logs : ℕ → ℕ → M Data (Option (List RpcLogOutput))
  unfolding new_deadline
  get_filter_logs now id n = elim (Map.get id n.filters) [
    | none ↦ (ok none, n)
    | some f ↦ (
      ok (some f.logs),
      record n {
        filters = Map.put id (record f { logs = []; deadline = new_deadline now }) n.filters;
      },
    )
  ]

  module _ (lib : BlockLib) where
    unfoldable pub get_logs_of_node : FilterCriteria → HardhatNode Data → List RpcLogOutput
    unfolding compute_filter_params get_logs
    get_logs_of_node params n =
        let latest = latest_block_number n.blockchain.length in
        get_logs lib (compute_filter_params latest params false) n.blockchain.chain_data

    unfoldable pub new_filter : ℕ → FilterCriteria → Bool → M Data ℕ
    unfolding compute_filter_params get_next_filter_id new_deadline get_logs_of_node
    new_filter now params is_subscription = do
      n ← get_state
      let criteria = compute_filter_params (latest_block_number n.blockchain.length) params true
      filter_id ← get_next_filter_id
      modify (
          put_filter (record {
            id = filter_id;
            kind = logs_subscription;
            criteria = some criteria;
            deadline = new_deadline now;
            hashes = [];
            logs = get_logs_of_node criteria n;
            subscription = is_subscription;
          }))
      return filter_id

    unfoldable pub new_block_filter : ℕ → Bool → M Data ℕ
    unfolding get_next_filter_id new_deadline
    new_block_filter now is_subscription = do
      block ← on_chain (get_latest_block lib)
      filter_id ← get_next_filter_id
      modify (
          put_filter (record {
            id = filter_id;
            kind = block_subscription;
            criteria = none;
            deadline = new_deadline now;
            hashes = block.hash ∷ [];
            logs = [];
            subscription = is_subscription;
          }))
      return filter_id
