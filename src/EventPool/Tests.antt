-- ===== src/EventPool/Tests.antt =====
-- A pool of two objects, and a third user.
use event_stream_core.Common.{ℕ, ◌+◌, ◌≡◌, refl, List, [], ◌∷◌, ltb, if◌then◌else◌, length, take}
use event_stream_core.EventPool.{pooled, heap, new_pool, acquire, available}
use event_stream_core.EventPool.Places.{count, places}
use event_stream_core.EventPool.Exclusive.{Use, acquires, releases, use_pool, run, run_lem}

abbrev uses : List Use
uses = acquires ∷ acquires ∷ acquires ∷ releases 0 ∷ releases 1 ∷ []

the_third_came_from_the_heap :
    (run 2 (acquires ∷ acquires ∷ acquires ∷ []) (new_pool 2) []).1
    ≡ heap 0 ∷ pooled 0 ∷ pooled 1 ∷ []
unfolding use_pool acquire new_pool
the_third_came_from_the_heap = refl

run_lem_example :
    let (p, held) = run 2 uses (new_pool 2) [] in
    (available 2 p + length (places held) ≡ 2)
    × ((i : ℕ)
        → count i (take (available 2 p) p.free_list) + count i (places held)
          ≡ (if ltb i 2 then 1 else 0))
    × (places p.deleted ≡ [])
run_lem_example = run_lem 2 uses
