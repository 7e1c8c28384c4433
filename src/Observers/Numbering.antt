-- ===== src/Observers/Numbering.antt =====
-- Subscribers' numbers in the lists that pruning and subscribing make.
use event_stream_core.Common.{
  ℕ, sym, inl, inr, true, List, [], ◌∷◌, ◌++◌, Bool-cases, All, All-append, Bytes,
}
use event_stream_core.Observers.{
  Observer, realtime_alert, transactional_business, batch_analytics, dropped_event_monitor,
  esc_observer, is_active, prune_inactive,
}
use event_stream_core.Observers.Ended.{Differs, IsNew, IsNumbered}

pub prune-All {ℓ} :
    (P : Observer → Type ℓ) (os : List Observer) → All P os → All P (prune_inactive os)
unfolding prune_inactive
prune-All P [] h = tt
prune-All P (o ∷ os) (now, later) = elim (Bool-cases (is_active o)) [
  | inl a ↦ rw a (now, prune-All P os later)
  | inr a ↦ rw a (prune-All P os later)
]

pub prune-IsNew : (o : Observer) (os : List Observer) → IsNew o os → IsNew o (prune_inactive os)
prune-IsNew (esc_observer id p a) os n = prune-All (Differs id) os n
prune-IsNew realtime_alert os n = tt
prune-IsNew transactional_business os n = tt
prune-IsNew batch_analytics os n = tt
prune-IsNew (dropped_event_monitor k) os n = tt

pub prune-IsNumbered : (os : List Observer) → IsNumbered os → IsNumbered (prune_inactive os)
unfolding prune_inactive
prune-IsNumbered [] h = tt
prune-IsNumbered (o ∷ os) (now, later) = elim (Bool-cases (is_active o)) [
  | inl a ↦ rw a (prune-IsNew o os now, prune-IsNumbered os later)
  | inr a ↦ rw a (prune-IsNumbered os later)
]

IsNew-append : (o : Observer) (os ps : List Observer) → IsNew o os → IsNew o ps → IsNew o (os ++ ps)
IsNew-append (esc_observer id p a) os ps n m = All-append (Differs id) os ps n m
IsNew-append realtime_alert os ps n m = tt
IsNew-append transactional_business os ps n m = tt
IsNew-append batch_analytics os ps n m = tt
IsNew-append (dropped_event_monitor k) os ps n m = tt

pub IsNumbered-append :
    (os ps : List Observer)
    → IsNumbered os
    → IsNumbered ps
    → All (λ o. IsNew o ps) os
    → IsNumbered (os ++ ps)
IsNumbered-append [] ps h k apart = k
IsNumbered-append (o ∷ os) ps h k apart =
    (IsNew-append o os ps h.0 apart.0, IsNumbered-append os ps h.1 k apart.1)

-- A subscriber with a number that no other has.
pub apart_from :
    (id : ℕ) (prefix : Bytes) (os : List Observer)
    → All (Differs id) os
    → All (λ o. IsNew o (esc_observer id prefix true ∷ [])) os
apart_from id prefix [] h = tt
apart_from id prefix (esc_observer i p a ∷ os) (now, later) =
    (((λ e. now (sym e)), tt), apart_from id prefix os later)
apart_from id prefix (realtime_alert ∷ os) (now, later) = (tt, apart_from id prefix os later)
apart_from id prefix (transactional_business ∷ os) (now, later) =
    (tt, apart_from id prefix os later)
apart_from id prefix (batch_analytics ∷ os) (now, later) = (tt, apart_from id prefix os later)
apart_from id prefix (dropped_event_monitor k ∷ os) (now, later) =
    (tt, apart_from id prefix os later)

abbrev pub defaults : List Observer
defaults = realtime_alert ∷ transactional_business ∷ batch_analytics ∷ dropped_event_monitor 0 ∷ []

pub apart_from_defaults : (os : List Observer) → All (λ o. IsNew o defaults) os
apart_from_defaults [] = tt
apart_from_defaults (esc_observer i p a ∷ os) = ((tt, (tt, (tt, (tt, tt)))), apart_from_defaults os)
apart_from_defaults (realtime_alert ∷ os) = (tt, apart_from_defaults os)
apart_from_defaults (transactional_business ∷ os) = (tt, apart_from_defaults os)
apart_from_defaults (batch_analytics ∷ os) = (tt, apart_from_defaults os)
apart_from_defaults (dropped_event_monitor k ∷ os) = (tt, apart_from_defaults os)
