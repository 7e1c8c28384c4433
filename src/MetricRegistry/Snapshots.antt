-- ===== src/MetricRegistry/Snapshots.antt =====
-- What a snapshot says, for one name and for all at once.
use event_stream_core.Common.{
  ℕ, ◌+◌, ◌<◌, ◌≡◌, refl, ◌↔◌, ◌⊎◌, inl, inr, true, Option, none, some, List, [], ◌∷◌, Bool-cases,
  Bytes, u64, bytes_eq,
}
use event_stream_core.MetricRegistry.{
  unhealthy, Metrics, MetricSnapshot, Doubles, ControlThresholds, MetricRegistry, find, update,
}

abbrev pub apply {ℓ κ} : {A : Type ℓ} {B : Type κ} → (A → B) → Option A → Option B
apply f none = none
apply f (some a) = some (f a)

pub find-update_self :
    (name : Bytes) (f : Metrics → Metrics) (l : List (Bytes × Metrics))
    → find name (update name f l) ≡ apply f (find name l)
unfolding find update
find-update_self name f [] = refl
find-update_self name f ((n, m) ∷ rest) = elim (Bool-cases (bytes_eq n name)) [
  | inl same ↦ rw (same, same)
  | inr other ↦ rw (other, other) (find-update_self name f rest)
]

module _ {D : Type 0} (doubles : Doubles D) where
  open doubles use {zero_rate, percent, above}

  -- Too much waits, or too large a share of the events was dropped.
  abbrev pub IsOverloaded : ControlThresholds D → Metrics → Type 0
  IsOverloaded t m =
      let total = u64 (m.total_events_processed + m.total_events_dropped) in
      (t.max_queue_depth < m.current_queue_depth)
      ⊎ ((total ≡ 0) × (above zero_rate t.max_drop_rate ≡ true))
      ⊎ ((0 < total) × (above (percent m.total_events_dropped total) t.max_drop_rate ≡ true))

  -- The snapshot of the counters of a name, where there are such.
  abbrev pub Describes : ControlThresholds D → Option Metrics → Option MetricSnapshot → Type 0
  Describes t none o = o ≡ none
  Describes t (some m) o =
      (s : MetricSnapshot) × (o ≡ some s)
      × (s.total_events_processed ≡ m.total_events_processed)
      × (s.total_events_dropped ≡ m.total_events_dropped)
      × (s.current_queue_depth ≡ m.current_queue_depth)
      × ((s.health_status ≡ unhealthy) ↔ IsOverloaded t m)

module _ {D : Type 0} (doubles : Doubles D) (r : MetricRegistry D) (name : Bytes) where
  abbrev pub counters : Option Metrics → Option (ℕ × ℕ × ℕ)
  counters o =
      apply
        (λ (m : Metrics). (m.total_events_processed, m.total_events_dropped, m.current_queue_depth))
        o
