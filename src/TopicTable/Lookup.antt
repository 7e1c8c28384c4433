-- ===== src/TopicTable/Lookup.antt =====
-- The table as a map: an assignment is found at its topic and nowhere else.
use event_stream_core.Common.{
  ◌≡◌, refl, some, [], ◌∷◌, arith, if◌then◌else◌, Bytes, bytes_eq, bytes_eq_iff,
}
use event_stream_core.Event.{EventPriority}
use event_stream_core.TopicTable.{Table, find_topic, assign}

bytes_eq_sym : (xs ys : Bytes) → bytes_eq xs ys ≡ bytes_eq ys xs
bytes_eq_sym xs ys = ground (arith, bytes_eq_iff xs ys, bytes_eq_iff ys xs)

-- A topic has the priority last assigned to it, and an assignment changes no other topic.
pub find_topic-assign :
    (topic other : Bytes) (p : EventPriority) (table : Table)
    → find_topic other (assign topic p table)
      ≡ (if bytes_eq topic other then some p else find_topic other table)
unfolding find_topic assign
find_topic-assign topic other p [] = refl
find_topic-assign topic other p ((t, q) ∷ table) = ground (
  arith,
  bytes_eq_iff t topic,
  bytes_eq_iff t other,
  bytes_eq_iff topic other,
  find_topic-assign topic other p table,
)
