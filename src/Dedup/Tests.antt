-- ===== src/Dedup/Tests.antt =====
-- Two buckets.
use event_stream_core.Common.{ℕ, ◌+◌, ◌-◌, ◌*◌, ◌^◌, ◌≡◌, refl, true, false, List, [], ◌∷◌, arith}
use event_stream_core.Dedup.{
  Entry, empty, in_chain, is_duplicate, compare_exchange, insert_attempts, insert, remove_heads,
  remove_behind, clean_behind, clean_chain, clean_chains, cleanup, cleanup_all, chains_size,
  approx_size,
}
use event_stream_core.Dedup.Window.{inserts, cleans, run, insert_once}

abbrev quiet : ℕ → List Entry
quiet attempt = []

abbrev hour_later : ℕ
hour_later = 5000000

-- Both entries of the bucket are expired and go, and the count is 0.
expired_heads_are_not_counted :
    cleanup hour_later (record {
      buckets =
          (record { id = 2; timestamp_ms = 7 } ∷ record { id = 4; timestamp_ms = 3 } ∷ [])
          ∷ []
          ∷ [];
    })
    ≡ (record { buckets = [] ∷ [] ∷ [] }, 0)
unfolding cleanup clean_chains clean_chain remove_heads clean_behind
expired_heads_are_not_counted = refl

third_race_is_lost :
    (insert (λ attempt. record { id = 100 + 2 * attempt; timestamp_ms = 1 } ∷ []) 2 5 (empty 2)).1
    ≡ false
unfolding insert insert_attempts compare_exchange in_chain empty
third_race_is_lost = refl

-- An entry from the end of the clock's range outlives `cleanup_all`.
cleanup_all_keeps_some :
    approx_size
      (cleanup_all
        (record { buckets = (record { id = 1; timestamp_ms = 2 ^ 64 - 1 } ∷ []) ∷ [] })).0
    ≡ 1
unfolding cleanup_all cleanup clean_chains clean_chain remove_heads clean_behind remove_behind
    approx_size chains_size
cleanup_all_keeps_some = refl

insert_once_example :
    let d' = run (inserts quiet 4 20 ∷ cleans 3600010 ∷ []) (insert quiet 2 10 (empty 2)).0 in
    (is_duplicate d' 2 3600020 ≡ true) × (insert quiet 2 3600020 d' ≡ (d', false))
unfolding empty insert insert_attempts compare_exchange in_chain
insert_once_example =
    insert_once quiet 2 10 (empty 2) (inserts quiet 4 20 ∷ cleans 3600010 ∷ []) quiet 3600020
      (omega arith) refl (tt, (omega arith, tt))
