-- ===== src/Blockchain/Passing.antt =====
-- `getLogs` and a position of a filter that holds `null` as its only alternative.
use polkahat.Prelude.{
  ℕ, zero, suc, ◌+◌, ◌-◌, ◌≡◌, refl, List, [], ◌∷◌, ◌++◌, Bool, true, false, Option, none, some,
  inl, inr, any, Bool-cases, length, ltb, not, ◌&&◌,
}
use polkahat.Prelude.Int.{ℤ, pos_part, neg_part}
use polkahat.Filter.{
  RpcLogOutput, FilterCriteria, bloom_topics, bloom_filter, topic_matched, check_topic,
}
use polkahat.Filter.Topics.{FitsTopics, topic_matched-FitsTopics}
use polkahat.Blockchain.Data.{Block, BlockLib, BlockchainData}
use polkahat.Blockchain.Logs.{logs_of_block, logs_from, get_logs}

-- A position in the middle of others.
abbrev pub at_position :
    List (Option (List (Option ℕ)))
    → Option (List (Option ℕ))
    → List (Option (List (Option ℕ)))
    → List (Option (List (Option ℕ)))
at_position front sub back = front ++ (sub ∷ back)

FitsTopics-null :
    (front back : List (Option (List (Option ℕ)))) (ls : List ℕ)
    → FitsTopics (at_position front none back) ls
    → FitsTopics (at_position front (some (none ∷ [])) back) ls
FitsTopics-null [] back [] f = absurd f
FitsTopics-null [] back (l ∷ ls) f = (tt, f.1)
FitsTopics-null (sub ∷ front) back [] f = absurd f
FitsTopics-null (sub ∷ front) back (l ∷ ls) f = (f.0, FitsTopics-null front back ls f.1)

bloom_topics-null :
    (check : ℕ → Bool) (front back : List (Option (List (Option ℕ))))
    → bloom_topics check (at_position front (some (none ∷ [])) back) ≡ false
unfolding bloom_topics
bloom_topics-null check [] back = refl
bloom_topics-null check (none ∷ front) back = bloom_topics-null check front back
bloom_topics-null check (some [] ∷ front) back = bloom_topics-null check front back
bloom_topics-null check (some (t ∷ ts) ∷ front) back =
    elim (Bool-cases (any (check_topic check) (t ∷ ts))) [
      | inl e ↦ rw e (bloom_topics-null check front back)
      | inr e ↦ rw e refl
    ]

bloom_filter-null :
    (check : ℕ → Bool) (addresses : List ℕ) (front back : List (Option (List (Option ℕ))))
    → bloom_filter check addresses (at_position front (some (none ∷ [])) back) ≡ false
unfolding bloom_filter
bloom_filter-null check addresses front back =
    elim (Bool-cases (ltb 0 (length addresses) && not (any check addresses))) [
      | inl e ↦ rw e refl
      | inr e ↦ rw e (bloom_topics-null check front back)
    ]

module _ (lib : BlockLib) (params : FilterCriteria)
    (skips : (check : ℕ → Bool)
      → bloom_filter check params.addresses params.normalized_topics ≡ false) where
  logs_of_block-null :
      (d : BlockchainData) (block : Option Block) → logs_of_block lib d params block ≡ []
  unfolding logs_of_block
  logs_of_block-null d none = refl
  logs_of_block-null d (some block) = rw (skips (lib.check block.logs_bloom)) refl

  logs_from-null : (d : BlockchainData) (count : ℕ) (i : ℤ) → logs_from lib d params count i ≡ []
  unfolding logs_from
  logs_from-null d zero i = refl
  logs_from-null d (suc count) i = rw (logs_of_block-null d _, logs_from-null d count _) refl

  get_logs-null : (d : BlockchainData) → get_logs lib params d ≡ []
  unfolding get_logs
  get_logs-null d =
      logs_from-null d
        (pos_part params.to_block
          + neg_part params.from_block
          + 1
          - (pos_part params.from_block + neg_part params.to_block))
        params.from_block

-- A position `[null]`, wherever it stands among the positions of a filter, takes every log that it
-- would take as a position `null`; and yet `getLogs` answers no logs for such a filter, whatever
-- the blocks and their blooms.
pub get_logs_skips_null :
    (lib : BlockLib) (params : FilterCriteria) (front back : List (Option (List (Option ℕ))))
    → params.normalized_topics ≡ at_position front (some (none ∷ [])) back
    → ((log : RpcLogOutput)
        → topic_matched (at_position front none back) log.topics ≡ true
        → topic_matched params.normalized_topics log.topics ≡ true)
      × ((d : BlockchainData) → get_logs lib params d ≡ [])
get_logs_skips_null lib params front back e = (
  λ log m. rw e (
      (topic_matched-FitsTopics (at_position front (some (none ∷ [])) back) log.topics).1 (
        FitsTopics-null front back log.topics
          ((topic_matched-FitsTopics (at_position front none back) log.topics).0 m))),
  get_logs-null lib params (λ check. rw e (bloom_filter-null check params.addresses front back)),
)
