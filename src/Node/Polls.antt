-- ===== src/Node/Polls.antt =====
-- provider/node.ts: what a poll of a log filter answers after blocks were saved.
use polkahat.Prelude.{
  ℕ, ◌≤◌, ◌≡◌, refl, sym, ap, subst, ◌∙◌, inl, inr, List, [], ◌∷◌, ◌++◌, append_assoc, append-nil,
  map, Bool, true, false, some, All, ltb, ◌==◌, if◌then◌else◌, arith, Bool-cases,
}
use polkahat.Prelude.Outcome.{ok}
use polkahat.Map
use polkahat.Filter.{RpcLogOutput, FilterCriteria, bloom_filter, filter_logs}
use polkahat.Filter.Bloom.{HasNoNull, bloom_filter_complete}
use polkahat.Filter.Selection.{Accepts, Selects, done, keep, drop, filter_logs-Selects}
use polkahat.Blockchain.Data.{Block}
use polkahat.Node.State.{HardhatNode, Filter, logs_subscription, log_event, EthEvent}
use polkahat.Node.Subscriptions.{
  new_deadline, notify_as, notify_logs, add_logs, notify_block, notify_all, logs_of, drain,
  get_filter_changes,
}

Selects-none :
    {A : Type 0} {P : A → Type 0} {xs ys : List A} → Selects P xs ys → All (λ x. ¬ P x) xs → ys ≡ []
Selects-none done h = refl
Selects-none (keep p s) h = absurd (h.0 p)
Selects-none (drop p s) h = Selects-none s h.1

-- A bloom reports the addresses and the topics of all logs of its block.
abbrev pub IsBloom : (ℕ → Bool) → List RpcLogOutput → Type 0
IsBloom check logs = All (λ l. (check l.address ≡ true) × All (λ t. check t ≡ true) l.topics) logs

missed :
    (check : ℕ → Bool) (criteria : FilterCriteria) (logs : List RpcLogOutput)
    → IsBloom check logs
    → HasNoNull criteria.normalized_topics
    → bloom_filter check criteria.addresses criteria.normalized_topics ≡ false
    → All (λ l. ¬ Accepts criteria l) logs
missed check criteria [] b h e = tt
missed check criteria (l ∷ ls) b h e = (
  (λ v.
      absurd
        (let e' = bloom_filter_complete check criteria l b.0.0 b.0.1 h v in ground (arith, e, e'))),
  missed check criteria ls b.1 h e,
)

-- A filter that collects logs by some criteria.
pub record Collects (criteria : FilterCriteria) (f : Filter) : Type 0 where
  pub of_logs : f.kind ≡ logs_subscription
  pub by : f.criteria ≡ some criteria
  pub polled : f.subscription ≡ false

abbrev pub with_logs : List RpcLogOutput → Filter → Filter
with_logs logs f = record f { logs = f.logs ++ logs }

module _ (check : ℕ → Bool) (block : Block) (difficulty : ℕ) (logs : List RpcLogOutput)
    (criteria : FilterCriteria) (f : Filter) (w : Collects criteria f) where
  abbrev bloom_hit : Bool
  bloom_hit = bloom_filter check criteria.addresses criteria.normalized_topics

  abbrev kept : Bool → Filter × List EthEvent
  kept t =
      if t
      then (f, map (λ l. log_event f.id l) (filter_logs logs criteria))
      else (with_logs (filter_logs logs criteria) f, [])

  abbrev chosen : Bool → Filter × List EthEvent
  chosen t =
      if t then add_logs check block difficulty logs (filter_logs logs criteria) f else (f, [])

  notify_block-kind :
      (notify_block check block difficulty logs f).0
      ≡ (if bloom_hit then with_logs (filter_logs logs criteria) f else f)
  unfolding notify_block
  notify_block-kind =
      ap (λ k. (notify_as check block difficulty logs k f).0) w.of_logs
      ∙ ap (λ c. (notify_logs check block difficulty logs c f).0) w.by
      ∙ go bloom_hit
    where
      go :
          (hit : Bool)
          → (chosen hit).0 ≡ (if hit then with_logs (filter_logs logs criteria) f else f)
      go true = ap (λ t. (kept t).0) w.polled
      go false = refl

  notify_block-collects :
      IsBloom check logs
      → HasNoNull criteria.normalized_topics
      → (notify_block check block difficulty logs f).0 ≡ with_logs (filter_logs logs criteria) f
  notify_block-collects b h = elim (Bool-cases bloom_hit) [
    | inl hit ↦
        notify_block-kind ∙ ap (λ t. if t then with_logs (filter_logs logs criteria) f else f) hit
    | inr miss ↦
        notify_block-kind
        ∙ ap (λ t. if t then with_logs (filter_logs logs criteria) f else f) miss
        ∙ ap (λ l. record f { logs = l }) (sym (append-nil f.logs))
        ∙ ap (λ l. with_logs l f)
            (sym (
              Selects-none (filter_logs-Selects criteria logs)
                (missed check criteria logs b h miss)))
  ]

get-notify_all :
    (check : ℕ → Bool) (block : Block) (difficulty : ℕ) (logs : List RpcLogOutput) (now key : ℕ)
    (f : Filter) (fs : List (ℕ × Filter))
    → Map.get key fs ≡ some f
    → now ≤ f.deadline
    → Map.get key (notify_all check block difficulty logs now fs).0
      ≡ some (notify_block check block difficulty logs f).0
unfolding notify_all Map.get
get-notify_all check block difficulty logs now key f [] e d = absurd (cc)
get-notify_all check block difficulty logs now key f ((k, g) ∷ fs) e d =
    elim (Bool-cases (k == key)) [
      | inl here ↦
          let same : g ≡ f = ground arith in
          let alive : ltb f.deadline now ≡ false = ground arith in
          subst
            (λ g.
              Map.get key (notify_all check block difficulty logs now ((k, g) ∷ fs)).0
              ≡ some (notify_block check block difficulty logs f).0)
            (sym same) (rw (alive, here) refl)
      | inr there ↦
          let rest : Map.get key fs ≡ some f = ground arith in
          elim (Bool-cases (ltb g.deadline now)) [
            | inl gone ↦ rw gone (get-notify_all check block difficulty logs now key f fs rest d)
            | inr alive ↦
                rw (alive, there) (get-notify_all check block difficulty logs now key f fs rest d)
          ]
    ]

-- A block that is saved, with the bloom test of its header, its logs and the time.
pub record Saved : Type 0 where
  pub check : ℕ → Bool
  pub block : Block
  pub difficulty : ℕ
  pub logs : List RpcLogOutput
  pub now : ℕ

-- The filters after blocks were saved one after the other.
abbrev pub save_all : List Saved → List (ℕ × Filter) → List (ℕ × Filter)
save_all [] fs = fs
save_all (s ∷ ss) fs = save_all ss (notify_all s.check s.block s.difficulty s.logs s.now fs).0

abbrev pub selected_of : FilterCriteria → List Saved → List RpcLogOutput
selected_of criteria [] = []
selected_of criteria (s ∷ ss) = filter_logs s.logs criteria ++ selected_of criteria ss

get-save_all :
    (criteria : FilterCriteria) (ss : List Saved) (key : ℕ) (f : Filter) (fs : List (ℕ × Filter))
    → Map.get key fs ≡ some f
    → Collects criteria f
    → HasNoNull criteria.normalized_topics
    → All (λ s. IsBloom s.check s.logs × (s.now ≤ f.deadline)) ss
    → Map.get key (save_all ss fs) ≡ some (with_logs (selected_of criteria ss) f)
get-save_all criteria [] key f fs e w h ok_all =
    e ∙ ap (λ l. some (record f { logs = l })) (sym (append-nil f.logs))
get-save_all criteria (s ∷ ss) key f fs e w h ok_all =
    get-save_all criteria ss key (with_logs (filter_logs s.logs criteria) f) _
      (get-notify_all s.check s.block s.difficulty s.logs s.now key f fs e ok_all.0.1
        ∙ ap (λ g. some g)
            (notify_block-collects s.check s.block s.difficulty s.logs criteria f w ok_all.0.0 h))
      (record { of_logs = w.of_logs; by = w.by; polled = w.polled }) h ok_all.1
    ∙ ap (λ l. some (record f { logs = l }))
        (append_assoc f.logs (filter_logs s.logs criteria) (selected_of criteria ss))

module _ {Data : Type 0} where
  get_filter_changes-logs :
      (later id : ℕ) (f : Filter) (n : HardhatNode Data)
      → Map.get id n.filters ≡ some f
      → f.kind ≡ logs_subscription
      → get_filter_changes later id n ≡ (
        ok (some (logs_of f.logs)),
        record n {
          filters = Map.put id (record f { logs = []; deadline = new_deadline later }) n.filters;
        },
      )
  unfolding get_filter_changes
  get_filter_changes-logs later id f n e k =
      rw (e, get_filter_changes)
        (ap
          (λ k. (
            ok (some (drain k f).0),
            record n {
              filters =
                  Map.put id (record (drain k f).1 { deadline = new_deadline later }) n.filters;
            },
          ))
          k)

  -- A log filter that is polled before its deadline loses nothing: after any number of blocks was
  -- saved, each with a bloom that reports its logs, the poll answers the logs that the filter held
  -- and then, block by block and in order, just those that its criteria select; it leaves the
  -- filter empty, with a new deadline. The criteria list no null among the alternatives of a
  -- position.
  pub get_filter_changes-saved :
      (later id : ℕ) (criteria : FilterCriteria) (f : Filter) (ss : List Saved)
      (n : HardhatNode Data)
      → Map.get id n.filters ≡ some f
      → Collects criteria f
      → HasNoNull criteria.normalized_topics
      → All (λ s. IsBloom s.check s.logs × (s.now ≤ f.deadline)) ss
      → get_filter_changes later id (record n { filters = save_all ss n.filters }) ≡ (
        ok (some (logs_of (f.logs ++ selected_of criteria ss))),
        record n {
          filters =
              Map.put id
                (record f { logs = []; deadline = new_deadline later })
                (save_all ss n.filters);
        },
      )
  get_filter_changes-saved later id criteria f ss n e w h ok_all =
      get_filter_changes-logs later id (with_logs (selected_of criteria ss) f)
        (record n { filters = save_all ss n.filters })
        (get-save_all criteria ss id f n.filters e w h ok_all) w.of_logs
