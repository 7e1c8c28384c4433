-- ===== src/Storage/Flush.antt =====
-- What is in the file after a run of calls, and how much of it is durable.
use event_stream_core.Common.{
  ℕ, ◌+◌, ◌≤◌, ◌<◌, ◌≡◌, refl, sym, ap, ◌∙◌, inl, inr, some, List, [], ◌∷◌, ◌++◌, map, arith, leb,
  Bool-cases, length, All, length-append, Bytes,
}
use mathlib.Core.List.{append-nil, append_assoc}
use event_stream_core.Event.{Event}
use event_stream_core.Storage.{
  whole, StorageEngine, flush_batch_size, serialize, flush, store_event,
}
use event_stream_core.Storage.Format.{
  stored_of, read_records, IsStorable, serialize_all, read_records-serialize_all,
}

-- The calls that the processors make, and the event each stores, if its write does not fail.
pub data Call : Type 0 where
  store_event_of : Event → Call
  flush_now : Call

unfoldable pub call : Call → StorageEngine → StorageEngine
call (store_event_of e) s = (store_event whole s e).0
call flush_now s = flush s

abbrev pub call_all : List Call → StorageEngine → StorageEngine
call_all [] s = s
call_all (c ∷ cs) s = call_all cs (call c s)

abbrev pub events_of : List Call → List Event
events_of [] = []
events_of (store_event_of e ∷ cs) = e ∷ events_of cs
events_of (flush_now ∷ cs) = events_of cs

call_file :
    (c : Call) (s : StorageEngine)
    → (call c s).storage_file ≡ s.storage_file ++ serialize_all (events_of (c ∷ []))
unfolding call store_event flush
call_file (store_event_of e) s = ground (arith, append-nil (serialize e))
call_file flush_now s = sym (append-nil s.storage_file)

serialize_all-append :
    (es fs : List Event) → serialize_all (es ++ fs) ≡ serialize_all es ++ serialize_all fs
serialize_all-append [] fs = refl
serialize_all-append (e ∷ es) fs =
    ap (λ b. serialize e ++ b) (serialize_all-append es fs)
    ∙ sym (append_assoc (serialize e) (serialize_all es) (serialize_all fs))

events_of-cons :
    (c : Call) (cs : List Call) → events_of (c ∷ cs) ≡ events_of (c ∷ []) ++ events_of cs
events_of-cons (store_event_of e) cs = refl
events_of-cons flush_now cs = refl

pub call_all_file :
    (cs : List Call) (s : StorageEngine)
    → (call_all cs s).storage_file ≡ s.storage_file ++ serialize_all (events_of cs)
call_all_file [] s = sym (append-nil s.storage_file)
call_all_file (c ∷ cs) s =
    call_all_file cs (call c s)
    ∙ ap (λ b. b ++ serialize_all (events_of cs)) (call_file c s)
    ∙ append_assoc s.storage_file (serialize_all (events_of (c ∷ [])))
        (serialize_all (events_of cs))
    ∙ ap (λ b. s.storage_file ++ b)
        (sym (serialize_all-append (events_of (c ∷ [])) (events_of cs))
          ∙ ap serialize_all (sym (events_of-cons c cs)))

-- A file that was empty holds, after any calls none of whose writes fails, the records of exactly
-- the events stored, in order: its reader gets their time, source, id, topic and body back, and
-- comes to the end of the file.
pub read_records-call_all :
    (fuel : ℕ) (cs : List Call) (s : StorageEngine)
    → s.storage_file ≡ []
    → All IsStorable (events_of cs)
    → length (events_of cs) < fuel
    → read_records fuel (call_all cs s).storage_file ≡ some (map stored_of (events_of cs))
read_records-call_all fuel cs s nothing fits enough =
    ap (read_records fuel)
      (call_all_file cs s ∙ ap (λ b. b ++ serialize_all (events_of cs)) nothing)
    ∙ read_records-serialize_all fuel (events_of cs) fits enough

-- A durable front, and behind it the records that a crash would lose.
pub record Pending (s : StorageEngine) : Type 0 where
  pub durable : Bytes
  pub waiting : List Event
  pub file_parts : s.storage_file ≡ durable ++ serialize_all waiting
  pub up_to : s.flushed ≡ length durable
  pub few : length waiting ≤ s.event_count
  pub below : s.event_count < flush_batch_size

flush-Pending : (s : StorageEngine) → s.event_count < flush_batch_size → Pending (flush s)
unfolding flush
flush-Pending s h = record {
  durable = s.storage_file;
  waiting = [];
  file_parts = sym (append-nil s.storage_file);
  up_to = refl;
  few = omega arith;
  below = h;
}

call-Pending : (c : Call) (s : StorageEngine) → Pending s → Pending (call c s)
unfolding call store_event flush
call-Pending flush_now s h = flush-Pending s h.below
call-Pending (store_event_of e) s h = elim (Bool-cases (leb flush_batch_size (s.event_count + 1))) [
  | inl full ↦ rw full record {
    durable = s.storage_file ++ serialize e;
    waiting = [];
    file_parts = sym (append-nil _);
    up_to = refl;
    few = omega arith;
    below = omega arith;
  }
  | inr room ↦ rw room record {
    durable = h.durable;
    waiting = h.waiting ++ e ∷ [];
    file_parts =
        ap (λ b. b ++ serialize e) h.file_parts
        ∙ append_assoc h.durable (serialize_all h.waiting) (serialize e)
        ∙ ap (λ b. h.durable ++ b)
            (ap (λ b. serialize_all h.waiting ++ b) (sym (append-nil (serialize e)))
              ∙ sym (serialize_all-append h.waiting (e ∷ [])));
    up_to = h.up_to;
    few = omega (arith, h.few, length-append h.waiting (e ∷ []));
    below = ground arith;
  }
]

-- After any calls none of whose writes fails, what the file holds behind its last flush are at most
-- 99 whole records.
pub call_all-Pending : (cs : List Call) (s : StorageEngine) → Pending s → Pending (call_all cs s)
call_all-Pending [] s h = h
call_all-Pending (c ∷ cs) s h = call_all-Pending cs (call c s) (call-Pending c s h)
