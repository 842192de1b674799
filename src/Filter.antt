-- ===== src/Filter.antt =====
-- provider/filter.ts: which logs a filter selects, and the bloom test by which whole blocks are
-- passed over. Addresses and topics are the numbers that their bytes spell; `check` is the bloom's.
pub mod Topics
pub mod Selection
pub mod Bloom
use polkahat.Prelude.{
  ℕ, suc, ◌+◌, List, [], ◌∷◌, Bool, true, false, not, ◌&&◌, ◌||◌, Option, none, some, length,
  get_elem?, any, ltb, ◌==◌, if◌then◌else◌,
}
use polkahat.Prelude.Int.{ℤ, pos, negsuc, ltb_ℤ}

abbrev pub latest_block : ℤ
latest_block = negsuc 0

pub record RpcLogOutput : Type 0 where
  pub block_number : ℕ
  pub address : ℕ
  pub topics : List ℕ

-- `null` is `none`, both for a position and within one.
abbrev pub Topics : Type 0
Topics = List (Option (List (Option ℕ)))

pub record FilterCriteria : Type 0 where
  pub from_block : ℤ
  pub to_block : ℤ
  pub addresses : List ℕ
  pub normalized_topics : List (Option (List (Option ℕ)))

-- `topic !== null && bloom.check(topic)`
abbrev pub check_topic : (ℕ → Bool) → Option ℕ → Bool
check_topic check none = false
check_topic check (some t) = check t

-- `sub === null || sub.length === 0`
abbrev pub is_open : Option (List (Option ℕ)) → Bool
is_open none = true
is_open (some []) = true
is_open (some (t ∷ ts)) = false

abbrev pub alternatives : Option (List (Option ℕ)) → List (Option ℕ)
alternatives none = []
alternatives (some ts) = ts

-- The second loop.
unfoldable pub bloom_topics : (ℕ → Bool) → List (Option (List (Option ℕ))) → Bool
bloom_topics check [] = true
bloom_topics check (sub ∷ rest) =
    let later = bloom_topics check rest in
    if is_open sub
    then later
    else if any (check_topic check) (alternatives sub)
    then later
    else false

unfoldable pub bloom_filter : (ℕ → Bool) → List ℕ → List (Option (List (Option ℕ))) → Bool
unfolding bloom_topics
bloom_filter check addresses normalized_topics =
    if ltb 0 (length addresses) && not (any check addresses)
    then false
    else bloom_topics check normalized_topics

unfoldable pub includes : List ℕ → ℕ → Bool
includes [] a = false
includes (address ∷ addresses) a = if address == a then true else includes addresses a

-- `topic === null || logTopics[i] === bufferToHex(topic)`
abbrev pub topic_matches : Option ℕ → Option ℕ → Bool
topic_matches log_topic none = true
topic_matches none (some t) = false
topic_matches (some l) (some t) = l == t

-- The loop from position `i` on; `count` is `normalizedTopics.length`.
unfoldable pub topics_matched_from : ℕ → List ℕ → ℕ → List (Option (List (Option ℕ))) → Bool
topics_matched_from count log_topics i [] = true
topics_matched_from count log_topics i (sub ∷ rest) =
    let later = topics_matched_from count log_topics (suc i) rest in
    if ltb (length log_topics) count
    then false
    else if is_open sub
    then later
    else if any (topic_matches (get_elem? log_topics i)) (alternatives sub)
    then later
    else false

unfoldable pub topic_matched : List (Option (List (Option ℕ))) → List ℕ → Bool
unfolding topics_matched_from
topic_matched normalized_topics log_topics =
    topics_matched_from (length normalized_topics) log_topics 0 normalized_topics

abbrev pub is_latest : ℤ → Bool
is_latest (pos n) = false
is_latest (negsuc n) = n == 0

-- Whether the loop of `filterLogs` reaches its last line.
unfoldable pub is_selected : RpcLogOutput → FilterCriteria → Bool
is_selected log criteria =
    if ltb_ℤ (pos log.block_number) criteria.from_block
    then false
    else if not (is_latest criteria.to_block) && ltb_ℤ criteria.to_block (pos log.block_number)
    then false
    else if not (length criteria.addresses == 0) && not (includes criteria.addresses log.address)
    then false
    else if not (topic_matched criteria.normalized_topics log.topics)
    then false
    else true

unfoldable pub filter_logs : List RpcLogOutput → FilterCriteria → List RpcLogOutput
filter_logs [] criteria = []
filter_logs (log ∷ logs) criteria =
    let rest = filter_logs logs criteria in if is_selected log criteria then log ∷ rest else rest
