-- ===== src/ProcessManager/Fifo.antt =====
-- Each queue is first in, first out up to its processor: what every processor must keep for it, and
-- the theorem for any turns of the threads.
use mathlib.Core.List.{append-nil, append_assoc, map-append}
use event_stream_core.Common.{
  ℕ, ◌≡◌, refl, sym, ap, subst, ◌∙◌, ◌⊎◌, inl, inr, false, List, [], ◌∷◌, ◌++◌, map, if◌then◌else◌,
  Bool-cases, take, drop, take-append-drop,
}
use event_stream_core.Event.{Event}
use event_stream_core.Bus.{QueueId, Bus}
use event_stream_core.Bus.Drain.{queued, is_queue}
use event_stream_core.Bus.Queues.{IsValid}
use event_stream_core.Bus.Separate.{is_queue_self}
use event_stream_core.ProcessManager.{EventProcessor, plain}

-- What a processor may do to the bus: drop events at the front of a queue.
abbrev pub Leaves : Bus → Bus → Type 0
Leaves b b' = IsValid b' × ((q : QueueId) → (n : ℕ) × (queued q b' ≡ drop n (queued q b)))

pub record IsWellBehaved {P : Type 0} (processor : EventProcessor P) : Type 0 where
  pub processes :
      (n : ℕ) (e : Event) (b : Bus) (p : P) → IsValid b → Leaves b (processor.process n e (b, p)).0
  pub stops : (b : Bus) (p : P) → IsValid b → Leaves b (processor.stop (b, p)).0

-- The events of one queue in a log.
abbrev pub on : QueueId → List (QueueId × Event) → List Event
on q [] = []
on q ((p, e) ∷ log) = if is_queue q p then e ∷ on q log else on q log

-- `xs` are some of `ys`, in their order, each taken once.
abbrev pub Within : List Event → List Event → Type 0
Within xs [] = xs ≡ []
Within xs (y ∷ ys) = Within xs ys ⊎ ((rest : List Event) × (xs ≡ y ∷ rest) × Within rest ys)

Within-nil : (ys : List Event) → Within [] ys
Within-nil [] = refl
Within-nil (y ∷ ys) = inl (Within-nil ys)

Within-append : (xs ys zs : List Event) → Within xs ys → Within xs (ys ++ zs)
Within-append xs [] zs h = subst (λ l. Within l zs) (sym h) (Within-nil zs)
Within-append xs (y ∷ ys) zs (inl h) = inl (Within-append xs ys zs h)
Within-append xs (y ∷ ys) zs (inr (rest, e, h)) = inr (rest, e, Within-append rest ys zs h)

Within-snoc : (xs ys : List Event) (e : Event) → Within xs ys → Within (xs ++ e ∷ []) (ys ++ e ∷ [])
Within-snoc xs [] e h = inr ([], ap (λ l. l ++ e ∷ []) h, refl)
Within-snoc xs (y ∷ ys) e (inl h) = inl (Within-snoc xs ys e h)
Within-snoc xs (y ∷ ys) e (inr (rest, eq, h)) =
    inr (rest ++ e ∷ [], ap (λ l. l ++ e ∷ []) eq, Within-snoc rest ys e h)

-- One queue: the accepted events are those gone from its front and then those that it holds, and the
-- ones handed to the processor are among those gone.
abbrev pub IsFifo : List Event → List Event → List Event → Type 0
IsFifo accepted handed held =
    (gone : List Event) × (accepted ≡ gone ++ map plain held) × Within handed gone

module _ {accepted handed : List Event} where
  pub drop-IsFifo :
      (n : ℕ) (held : List Event)
      → IsFifo accepted handed held
      → IsFifo accepted handed (drop n held)
  drop-IsFifo n held (gone, e, h) = (
    gone ++ map plain (take n held),
    e
        ∙ ap (λ l. gone ++ l)
            (ap (λ l. map plain l) (sym (take-append-drop n held))
              ∙ map-append plain (take n held) (drop n held))
        ∙ sym (append_assoc gone (map plain (take n held)) (map plain (drop n held))),
    Within-append handed gone (map plain (take n held)) h,
  )

  pub push-IsFifo :
      (e : Event) (held : List Event)
      → IsFifo accepted handed held
      → IsFifo (accepted ++ plain e ∷ []) handed (held ++ e ∷ [])
  push-IsFifo e held (gone, eq, h) = (
    gone,
    ap (λ l. l ++ plain e ∷ []) eq
        ∙ append_assoc gone (map plain held) (plain e ∷ [])
        ∙ ap (λ l. gone ++ l) (sym (map-append plain held (e ∷ []))),
    h,
  )

  pub hand-IsFifo :
      (e : Event) (rest : List Event)
      → IsFifo accepted handed (e ∷ rest)
      → IsFifo accepted (handed ++ plain e ∷ []) rest
  hand-IsFifo e rest (gone, eq, h) = (
    gone ++ plain e ∷ [],
    eq ∙ sym (append_assoc gone (plain e ∷ []) (map plain rest)),
    Within-snoc handed gone (plain e) h,
  )

on-append :
    (q p : QueueId) (e : Event) (log : List (QueueId × Event))
    → on q (log ++ (p, e) ∷ []) ≡ on q log ++ (if is_queue q p then e ∷ [] else [])
on-append q p e [] = elim (Bool-cases (is_queue q p)) [ inl same ↦ rw same | inr other ↦ rw other ]
on-append q p e ((r, f) ∷ log) = elim (Bool-cases (is_queue q r)) [
  | inl same ↦ rw same (ap (λ l. f ∷ l) (on-append q p e log))
  | inr other ↦ rw other (on-append q p e log)
]

pub on-append_self :
    (q : QueueId) (e : Event) (log : List (QueueId × Event))
    → on q (log ++ (q, e) ∷ []) ≡ on q log ++ e ∷ []
on-append_self q e log =
    on-append q q e log ∙ ap (λ b. on q log ++ (if b then e ∷ [] else [])) (is_queue_self q)

pub on-append_other :
    (q p : QueueId) (e : Event) (log : List (QueueId × Event))
    → is_queue q p ≡ false
    → on q (log ++ (p, e) ∷ []) ≡ on q log
on-append_other q p e log h =
    on-append q p e log ∙ ap (λ b. on q log ++ (if b then e ∷ [] else [])) h ∙ append-nil (on q log)
