-- ===== src/Bridge/Lifecycle.antt =====
-- The C interface through any sequence of calls.
use event_stream_core.Common.{◌≡◌, ◌≢◌, Bool, true, Option, none, List, [], ◌∷◌, arith, Bytes}
use event_stream_core.Bus.{BusMetrics}
use event_stream_core.Bridge.{
  Globals, Wiring, set_up, leak, esccore_init, stop_engine, esccore_shutdown, esccore_subscribe,
  metrics_of, esccore_metrics, health_of, esccore_health,
}

pub data Call : Type 0 where
  inits : Wiring → Call
  shuts_down : Bool → Call
  subscribes : Option Bytes → Bool → Call

unfoldable pub call : Call → Globals → Globals
call (inits w) g = (esccore_init w g).0
call (shuts_down stops) g = (esccore_shutdown stops g).0
call (subscribes topic_prefix has_callback) g = (esccore_subscribe topic_prefix has_callback g).0

abbrev pub call_all : List Call → Globals → Globals
call_all [] g = g
call_all (c ∷ cs) g = call_all cs (call c g)

-- The flag is up only with an engine behind it.
abbrev pub HasEngine : Globals → Type 0
HasEngine g = g.initialised ≡ true → g.engine ≢ none

esccore_init-HasEngine : (w : Wiring) (g : Globals) → HasEngine g → HasEngine (esccore_init w g).0
unfolding esccore_init set_up leak
esccore_init-HasEngine w g h = ground arith

esccore_shutdown-HasEngine :
    (stops : Bool) (g : Globals) → HasEngine g → HasEngine (esccore_shutdown stops g).0
unfolding esccore_shutdown stop_engine
esccore_shutdown-HasEngine stops g h = ground arith

esccore_subscribe-HasEngine :
    (topic_prefix : Option Bytes) (has_callback : Bool) (g : Globals)
    → HasEngine g
    → HasEngine (esccore_subscribe topic_prefix has_callback g).0
unfolding esccore_subscribe
esccore_subscribe-HasEngine topic_prefix has_callback g h = ground arith

call-HasEngine : (c : Call) (g : Globals) → HasEngine g → HasEngine (call c g)
unfolding call
call-HasEngine (inits w) g h = esccore_init-HasEngine w g h
call-HasEngine (shuts_down stops) g h = esccore_shutdown-HasEngine stops g h
call-HasEngine (subscribes topic_prefix has_callback) g h =
    esccore_subscribe-HasEngine topic_prefix has_callback g h

call_all-HasEngine : (cs : List Call) (g : Globals) → HasEngine g → HasEngine (call_all cs g)
call_all-HasEngine [] g h = h
call_all-HasEngine (c ∷ cs) g h = call_all-HasEngine cs (call c g) (call-HasEngine c g h)

readers_answer :
    (snapshots : List (Bytes × BusMetrics)) (has_out : Bool) (g : Globals)
    → HasEngine g
    → (esccore_metrics snapshots has_out g ≢ none) × (esccore_health has_out g ≢ none)
unfolding esccore_metrics metrics_of esccore_health health_of
readers_answer snapshots has_out g h = ground arith

-- After any sequence of starts, whether they fail or not, shutdowns and subscriptions, from the
-- globals' first state or any other with an engine behind its flag, `esccore_metrics` and
-- `esccore_health` return a status and do not go through a null engine, if no start or shutdown overlaps
-- them. Of one that does, from another thread, nothing is said.
pub call_all_answers :
    (cs : List Call) (g : Globals) (snapshots : List (Bytes × BusMetrics)) (has_out : Bool)
    → HasEngine g
    → let g' = call_all cs g in
      (esccore_metrics snapshots has_out g' ≢ none) × (esccore_health has_out g' ≢ none)
call_all_answers cs g snapshots has_out h =
    readers_answer snapshots has_out (call_all cs g) (call_all-HasEngine cs g h)
