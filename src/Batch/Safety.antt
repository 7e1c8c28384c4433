-- ===== src/Batch/Safety.antt =====
-- The handlers of a registry, and the events that wait for them.
use event_stream_core.Common.{
  ℕ, sym, subst, ◌≢◌, inl, inr, Bool, true, false, ◌&&◌, Option, none, some, List, [], ◌∷◌, ltb,
  if◌then◌else◌, Bool-cases, length, All, Bytes, bytes_eq, bytes_eq→eq,
}
use event_stream_core.Event.{Event}
use event_stream_core.Handler.{
  EventHandler, Registry, find_handler, starts_with, best_handler, found_or, get_handler,
  or_default, get_or_default,
}
use event_stream_core.Handler.Safety.{IsSafe, handlers_IsSafe}
use event_stream_core.Batch.{TopicBucket, bucket_of, put_bucket}

-- Every handler of the registry is safe.
abbrev pub IsSafeRegistry : Registry → Type 0
IsSafeRegistry registry = All (λ p. IsSafe p.1) registry

abbrev IsSafeIfAny : Option EventHandler → Type 0
IsSafeIfAny none = Unit
IsSafeIfAny (some h) = IsSafe h

if-IsSafe :
    (b : Bool) (o o' : Option EventHandler)
    → IsSafeIfAny o
    → IsSafeIfAny o'
    → IsSafeIfAny (if b then o else o')
if-IsSafe true o o' s t = s
if-IsSafe false o o' s t = t

find_handler-IsSafe :
    (topic : Bytes) (registry : Registry)
    → IsSafeRegistry registry
    → IsSafeIfAny (find_handler topic registry)
unfolding find_handler
find_handler-IsSafe topic [] safe = tt
find_handler-IsSafe topic ((p, h) ∷ registry) safe =
    if-IsSafe (bytes_eq p topic) (some h) _ safe.0 (find_handler-IsSafe topic registry safe.1)

best_handler-IsSafe :
    (topic : Bytes) (registry : Registry) (best : Option EventHandler) (best_len : ℕ)
    → IsSafeRegistry registry
    → IsSafeIfAny best
    → IsSafeIfAny (best_handler topic registry best best_len)
unfolding best_handler
best_handler-IsSafe topic [] best best_len safe s = s
best_handler-IsSafe topic ((p, h) ∷ registry) best best_len safe s =
    if-IsSafe (starts_with p topic && ltb best_len (length p)) _ _
      (best_handler-IsSafe topic registry (some h) (length p) safe.1 safe.0)
      (best_handler-IsSafe topic registry best best_len safe.1 s)

-- The handler that a topic gets is one of the registry, or the default one.
pub get_or_default-IsSafe :
    (topic : Bytes) (registry : Registry)
    → IsSafeRegistry registry
    → IsSafe (get_or_default topic registry)
unfolding get_or_default get_handler
get_or_default-IsSafe topic registry safe =
    chosen (find_handler topic registry) (best_handler topic registry none 0)
      (find_handler-IsSafe topic registry safe) (best_handler-IsSafe topic registry none 0 safe tt)
  where
    chosen :
        (o o' : Option EventHandler)
        → IsSafeIfAny o
        → IsSafeIfAny o'
        → IsSafe (or_default (found_or o o'))
    chosen (some h) o' s t = s
    chosen none (some h) s t = t
    chosen none none s t = handlers_IsSafe.0

-- The handler of the bucket's topic has an answer to each of its events.
abbrev pub AllAnswered : Registry → Bytes → List Event → Type 0
AllAnswered registry topic es = All (λ e. (get_or_default topic registry).handle e ≢ none) es

abbrev pub AllFlushable : Registry → List (Bytes × TopicBucket) → Type 0
AllFlushable registry [] = Unit
AllFlushable registry ((topic, b) ∷ bs) =
    AllAnswered registry topic b.events × AllFlushable registry bs

pub bucket_of-AllAnswered :
    (registry : Registry) (topic : Bytes) (bs : List (Bytes × TopicBucket))
    → AllFlushable registry bs
    → AllAnswered registry topic (bucket_of topic bs).events
unfolding bucket_of
bucket_of-AllAnswered registry topic [] h = tt
bucket_of-AllAnswered registry topic ((t, b) ∷ bs) (now, later) =
    elim (Bool-cases (bytes_eq t topic)) [
      | inl e ↦ rw e (subst (λ x. AllAnswered registry x b.events) (bytes_eq→eq t topic e) now)
      | inr e ↦ rw e (bucket_of-AllAnswered registry topic bs later)
    ]

pub put_bucket-AllFlushable :
    (registry : Registry) (topic : Bytes) (b : TopicBucket) (bs : List (Bytes × TopicBucket))
    → AllFlushable registry bs
    → AllAnswered registry topic b.events
    → AllFlushable registry (put_bucket topic b bs)
unfolding put_bucket
put_bucket-AllFlushable registry topic b [] h a = (a, tt)
put_bucket-AllFlushable registry topic b ((t, c) ∷ bs) (now, later) a =
    elim (Bool-cases (bytes_eq t topic)) [
      | inl e ↦
          rw e (subst (λ x. AllAnswered registry x b.events) (sym (bytes_eq→eq t topic e)) a, later)
      | inr e ↦ rw e (now, put_bucket-AllFlushable registry topic b bs later a)
    ]
