-- ===== src/Tests/Logs.antt =====
-- Tests and witnesses for provider/filter.ts.
use polkahat.Prelude.{◌≡◌, ◌↔◌, refl, [], ◌∷◌, true, none, some, inl, inr, arith}
use polkahat.Prelude.Int.{pos}
use polkahat.Filter.{
  RpcLogOutput, FilterCriteria, latest_block, bloom_topics, bloom_filter, includes,
  topics_matched_from, topic_matched, is_selected, filter_logs,
}
use polkahat.Filter.Topics.{FitsTopics, topic_matched-FitsTopics}
use polkahat.Filter.Selection.{Accepts, Selects, filter_logs-Selects}
use polkahat.Blockchain.Data.{BlockchainData}
use polkahat.Blockchain.Logs.{get_logs}
use polkahat.Blockchain.Passing.{get_logs_skips_null}
use polkahat.Tests.Chain.{plain_lib}
use polkahat.Filter.Bloom.{bloom_filter_complete}

program : Unit {0}
unfolding bloom_topics bloom_filter includes topics_matched_from topic_matched is_selected
    filter_logs
program = tt

abbrev log_5 : RpcLogOutput
log_5 = record { block_number = 5; address = 40; topics = 1 ∷ 2 ∷ [] }

abbrev log_6 : RpcLogOutput
log_6 = record { block_number = 6; address = 41; topics = 1 ∷ [] }

abbrev criteria : FilterCriteria
criteria = record {
  from_block = pos 4;
  to_block = latest_block;
  addresses = 40 ∷ [];
  normalized_topics = some (some 3 ∷ some 1 ∷ []) ∷ none ∷ [];
}

keeps_first : filter_logs (log_5 ∷ log_6 ∷ []) criteria ≡ log_5 ∷ []
unfolding program
keeps_first = refl

filter_logs-Selects_example :
    Selects (Accepts criteria) (log_5 ∷ log_6 ∷ []) (filter_logs (log_5 ∷ log_6 ∷ []) criteria)
filter_logs-Selects_example = filter_logs-Selects criteria (log_5 ∷ log_6 ∷ [])

topic_matched-FitsTopics_example :
    (topic_matched criteria.normalized_topics log_5.topics ≡ true)
    ↔ FitsTopics criteria.normalized_topics log_5.topics
topic_matched-FitsTopics_example = topic_matched-FitsTopics criteria.normalized_topics log_5.topics

log_5-Accepts : Accepts criteria log_5
log_5-Accepts = record {
  not_before = omega arith;
  not_after = inl refl;
  from_address = inr (inl refl);
  fits = (inr (inl refl), (tt, tt));
}

bloom_filter_complete_example :
    bloom_filter (λ x. true) criteria.addresses criteria.normalized_topics ≡ true
bloom_filter_complete_example =
    bloom_filter_complete (λ x. true) criteria log_5 refl (refl, (refl, tt))
      ((λ e. cc, (λ e. cc, tt)), (tt, tt)) log_5-Accepts

-- The filter of `criteria`, but for a position `[null]`.
abbrev null_criteria : FilterCriteria
null_criteria = record criteria { normalized_topics = some (some 1 ∷ []) ∷ some (none ∷ []) ∷ [] }

get_logs_skips_null_example :
    ((log : RpcLogOutput)
      → topic_matched (some (some 1 ∷ []) ∷ none ∷ []) log.topics ≡ true
      → topic_matched null_criteria.normalized_topics log.topics ≡ true)
    × ((d : BlockchainData) → get_logs plain_lib null_criteria d ≡ [])
get_logs_skips_null_example =
    get_logs_skips_null plain_lib null_criteria (some (some 1 ∷ []) ∷ []) [] refl
