-- ===== src/Dedup/Window.antt =====
-- An id that is inserted is refused again for the length of the window.
use event_stream_core.Common.{
  ℕ, zero, suc, ◌+◌, ◌%◌, ◌≤◌, ◌<◌, ◌≡◌, refl, sym, subst, ◌∙◌, inl, Bool, true, false, List, [],
  ◌∷◌, ◌++◌, arith, if◌then◌else◌, length, get_or, set, All, length-set, get_or-set_self,
}
use event_stream_core.Dedup.{
  idempotent_window_ms, Entry, Deduplicator, in_chain, bucket_of, chain_at, set_chain, is_duplicate,
  compare_exchange, insert_attempts, insert, cleanup,
}
use event_stream_core.Dedup.Holding.{
  Seen, Stands, in_chain-Seen, bucket_of-lt, insert_attempts-Stands, cleanup-Stands,
}

-- The calls that the processor makes.
pub data Call : Type 0 where
  inserts : (ℕ → List Entry) → ℕ → ℕ → Call
  cleans : ℕ → Call

unfoldable pub run : List Call → Deduplicator → Deduplicator
run [] d = d
run (inserts races id now ∷ calls) d = run calls (insert races id now d).0
run (cleans now ∷ calls) d = run calls (cleanup now d).0

abbrev pub IsWithin : ℕ → Call → Type 0
IsWithin until (inserts races id now) = Unit {0}
IsWithin until (cleans now) = now ≤ until

run-Stands :
    (calls : List Call) (n id t : ℕ) (d : Deduplicator)
    → 0 < n
    → All (IsWithin (t + idempotent_window_ms)) calls
    → Stands n id t d
    → Stands n id t (run calls d)
unfolding run insert
run-Stands [] n id t d positive within s = s
run-Stands (inserts races id' now ∷ calls) n id t d positive within s =
    run-Stands calls n id t _ positive within.1
      (insert_attempts-Stands 3 races _ n id t d positive s)
run-Stands (cleans now ∷ calls) n id t d positive within s =
    run-Stands calls n id t _ positive within.1 (cleanup-Stands now n id t d within.0 s)

compare_exchange-done :
    (xs : List Entry) (d : Deduplicator) (retry : Deduplicator × Bool) (P : Deduplicator → Type 0)
    → P d
    → (retry.1 ≡ true → P retry.0)
    → (compare_exchange xs (d, true) retry).1 ≡ true
    → P (compare_exchange xs (d, true) retry).0
unfolding compare_exchange
compare_exchange-done [] d retry P p q h = p
compare_exchange-done (x ∷ xs) d retry P p q h = q h

front-Stands :
    (n : ℕ) (entry : Entry) (d : Deduplicator)
    → 0 < n
    → length d.buckets ≡ n
    → Stands n entry.id entry.timestamp_ms
        (set_chain d (bucket_of d entry.id) (entry ∷ chain_at d (bucket_of d entry.id)))
front-Stands n entry d positive len =
    let i = bucket_of d entry.id in
    let chain = entry ∷ chain_at d i in
    let same_length = length-set d.buckets i chain in
    (
      same_length ∙ len,
      subst
          (λ k. Seen entry.id entry.timestamp_ms (get_or (set d.buckets i chain) (entry.id % k) []))
          (sym same_length)
          (subst (Seen entry.id entry.timestamp_ms)
            (sym (get_or-set_self d.buckets i chain [] (bucket_of-lt d entry.id (omega arith))))
            (inl (refl, refl))),
    )

if-done :
    (b : Bool) (d : Deduplicator) (r : Deduplicator × Bool) (P : Deduplicator → Type 0)
    → (r.1 ≡ true → P r.0)
    → (if b then (d, false) else r).1 ≡ true
    → P (if b then (d, false) else r).0
if-done true d r P p h = absurd cc
if-done false d r P p h = p h

-- An accepted insert leaves its entry in the bucket.
accepted-Stands :
    (left : ℕ) (races : ℕ → List Entry) (entry : Entry) (n : ℕ) (d : Deduplicator)
    → 0 < n
    → length d.buckets ≡ n
    → (insert_attempts left races entry d).1 ≡ true
    → Stands n entry.id entry.timestamp_ms (insert_attempts left races entry d).0
unfolding insert_attempts
accepted-Stands zero races entry n d positive len h = absurd cc
accepted-Stands (suc left) races entry n d positive len h =
    let i = bucket_of d entry.id in
    let head = chain_at d i in
    if-done (in_chain entry.id head) d _ (Stands n entry.id entry.timestamp_ms)
      (compare_exchange-done (races left) _ _ (Stands n entry.id entry.timestamp_ms)
        (front-Stands n entry d positive len)
        (accepted-Stands left races entry n _ positive
          (length-set d.buckets i (races left ++ head) ∙ len)))
      h

insert-refused :
    (races : ℕ → List Entry) (id now : ℕ) (d : Deduplicator)
    → is_duplicate d id now ≡ true
    → insert races id now d ≡ (d, false)
unfolding insert insert_attempts is_duplicate
insert-refused races id now d h = rw h

-- Once an insert of an id is accepted at time `t`, the id is a duplicate and every further insert of it
-- is refused and changes nothing, whatever inserts and cleanups come between, as long as no cleanup
-- comes later than an hour after `t`.
pub insert_once :
    (races : ℕ → List Entry) (id t : ℕ) (d : Deduplicator) (calls : List Call)
    (races' : ℕ → List Entry) (now : ℕ)
    → 0 < length d.buckets
    → (insert races id t d).1 ≡ true
    → All (IsWithin (t + idempotent_window_ms)) calls
    → let d' = run calls (insert races id t d).0 in
      (is_duplicate d' id now ≡ true) × (insert races' id now d' ≡ (d', false))
unfolding insert is_duplicate
insert_once races id t d calls races' now positive accepted within =
    let entry : Entry = record { id = id; timestamp_ms = t } in
    let there = accepted-Stands 3 races entry (length d.buckets) d positive refl accepted in
    let stands = run-Stands calls (length d.buckets) id t _ positive within there in
    let dup = in_chain-Seen id t _ stands.1 in
    (dup, insert-refused races' id now (run calls (insert races id t d).0) dup)
