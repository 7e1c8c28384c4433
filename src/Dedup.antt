-- ===== src/Dedup.antt =====
-- src/core/queues/dedup.cpp: the ids of the events processed within the last hour, in chains.
-- A chain is a list, its head first. `cleanup` runs on one thread, here while no other thread inserts; an
-- `insert` may lose the race for its bucket's head to other inserts.
pub mod Chains
pub mod Holding
pub mod Window
mod Tests
use event_stream_core.Common.{
  ℕ, zero, suc, ◌+◌, ◌-◌, ◌%◌, ◌^◌, Bool, true, false, List, [], ◌∷◌, ◌++◌, ltb, leb, ◌==◌,
  if◌then◌else◌, length, get_or, set, replicate,
}

abbrev pub idempotent_window_ms : ℕ
idempotent_window_ms = 3600000

pub record Entry : Type 0 where
  pub id : ℕ
  pub timestamp_ms : ℕ

pub record Deduplicator : Type 0 where
  pub buckets : List (List Entry)

abbrev pub default_buckets : ℕ
default_buckets = 4096

unfoldable pub empty : ℕ → Deduplicator
empty num_buckets = record { buckets = replicate num_buckets [] }

-- The walk along a chain.
unfoldable pub in_chain : ℕ → List Entry → Bool
in_chain event_id [] = false
in_chain event_id (entry ∷ next) = if entry.id == event_id then true else in_chain event_id next

abbrev pub bucket_of : Deduplicator → ℕ → ℕ
bucket_of d event_id = event_id % length d.buckets

abbrev pub chain_at : Deduplicator → ℕ → List Entry
chain_at d i = get_or d.buckets i []

abbrev pub set_chain : Deduplicator → ℕ → List Entry → Deduplicator
set_chain d i chain = record d { buckets = set d.buckets i chain }

unfoldable pub is_duplicate : Deduplicator → ℕ → ℕ → Bool
is_duplicate d event_id now_ms = in_chain event_id (chain_at d (bucket_of d event_id))

-- The exchange succeeds when the head is still the one that was read.
unfoldable pub compare_exchange :
    List Entry → Deduplicator × Bool → Deduplicator × Bool → Deduplicator × Bool
compare_exchange [] done retry = done
compare_exchange (other ∷ others) done retry = retry

-- `insert`, with `left` attempts to go. Before the exchange of an attempt another thread may have put
-- entries in front of the head; `races` says which, for each attempt.
unfoldable pub insert_attempts : ℕ → (ℕ → List Entry) → Entry → Deduplicator → Deduplicator × Bool
unfolding compare_exchange
insert_attempts zero races entry d = (d, false)
insert_attempts (suc left) races entry d =
    let i = bucket_of d entry.id in
    let head = chain_at d i in
    let retry = insert_attempts left races entry (set_chain d i (races left ++ head)) in
    if in_chain entry.id head
    then (d, false)
    else compare_exchange (races left) (set_chain d i (entry ∷ head), true) retry

unfoldable pub insert : (ℕ → List Entry) → ℕ → ℕ → Deduplicator → Deduplicator × Bool
unfolding insert_attempts
insert races event_id now_ms d =
    insert_attempts 3 races (record { id = event_id; timestamp_ms = now_ms }) d

-- The age is 0 for an entry from the future.
abbrev pub is_expired : ℕ → Entry → Bool
is_expired now_ms entry =
    ltb idempotent_window_ms
      (if leb entry.timestamp_ms now_ms then now_ms - entry.timestamp_ms else 0)

-- Phase 1: expired heads go.
unfoldable pub remove_heads : ℕ → List Entry → List Entry
remove_heads now_ms [] = []
remove_heads now_ms (head ∷ next) =
    if is_expired now_ms head then remove_heads now_ms next else head ∷ next

-- Phase 2: the entries behind the head, and how many of them went.
unfoldable pub remove_behind : ℕ → List Entry → List Entry × ℕ
remove_behind now_ms [] = ([], 0)
remove_behind now_ms (curr ∷ next) =
    let (kept, removed) = remove_behind now_ms next in
    if is_expired now_ms curr then (kept, removed + 1) else (curr ∷ kept, removed)

unfoldable pub clean_behind : ℕ → List Entry → List Entry × ℕ
unfolding remove_behind
clean_behind now_ms [] = ([], 0)
clean_behind now_ms (head ∷ next) =
    let (kept, removed) = remove_behind now_ms next in (head ∷ kept, removed)

-- `cleanup_bucket_count` on a bucket's chain.
unfoldable pub clean_chain : ℕ → List Entry → List Entry × ℕ
unfolding clean_behind
clean_chain now_ms chain = clean_behind now_ms (remove_heads now_ms chain)

unfoldable pub clean_chains : ℕ → List (List Entry) → List (List Entry) × ℕ
unfolding clean_chain
clean_chains now_ms [] = ([], 0)
clean_chains now_ms (chain ∷ chains) =
    let (chain', n) = clean_chain now_ms chain in
    let (chains', m) = clean_chains now_ms chains in (chain' ∷ chains', n + m)

-- `cleanup`, with the total that it logs.
unfoldable pub cleanup : ℕ → Deduplicator → Deduplicator × ℕ
unfolding clean_chains
cleanup now_ms d =
    let (buckets, total_removed) = clean_chains now_ms d.buckets in
    (record { buckets = buckets }, total_removed)

unfoldable pub cleanup_all : Deduplicator → Deduplicator × ℕ
cleanup_all d = cleanup (2 ^ 64 - 1) d

unfoldable pub chains_size : List (List Entry) → ℕ
chains_size [] = 0
chains_size (chain ∷ chains) = length chain + chains_size chains

unfoldable pub approx_size : Deduplicator → ℕ
unfolding chains_size
approx_size d = chains_size d.buckets
