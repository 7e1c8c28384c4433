-- ===== src/ClientThreads/Tests.antt =====
-- Eleven clients, of which the first has gone.
use event_stream_core.Common.{◌≡◌, refl, List, [], ◌∷◌, length}
use event_stream_core.ClientThreads.{
  started, sweep, cleanup_finished_threads, accept_client, thread_step, join_clients, Action,
  accepts, stops, joins, goes_on, step, run,
}
use event_stream_core.ClientThreads.Joined.{IsValid, joins_once}

abbrev eleven : List Action
eleven =
    accepts
    ∷ goes_on 0
    ∷ goes_on 0
    ∷ accepts
    ∷ goes_on 1
    ∷ accepts
    ∷ accepts
    ∷ accepts
    ∷ accepts
    ∷ accepts
    ∷ accepts
    ∷ accepts
    ∷ accepts
    ∷ accepts
    ∷ stops
    ∷ joins
    ∷ []

the_first_is_swept :
    let v = run eleven started in
    (v.joined ≡ 0 ∷ []) × (length v.client_threads ≡ 10) × (v.active_connections ≡ 1)
unfolding run step accept_client cleanup_finished_threads sweep thread_step join_clients
the_first_is_swept = (refl, refl, refl)

joins_once_example : IsValid (run eleven started)
joins_once_example = joins_once eleven
