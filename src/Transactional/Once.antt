-- ===== src/Transactional/Once.antt =====
-- An event that succeeded is not processed again.
use event_stream_core.Common.{
  ℕ, ◌+◌, ◌-◌, ◌%◌, ◌^◌, ◌<◌, ◌≡◌, refl, ap, ◌∙◌, inl, inr, Bool, true, false, ◌||◌, some, List, [],
  ◌∷◌, arith, ltb, ◌==◌, if◌then◌else◌, Bool-cases, length, get_or, u64,
}
use event_stream_core.Event.{Event}
use event_stream_core.Dedup
use event_stream_core.Dedup.{
  Deduplicator, Entry, in_chain, bucket_of, is_duplicate, insert, insert_attempts, compare_exchange,
  cleanup, is_expired, clean_chains, idempotent_window_ms,
}
use event_stream_core.Dedup.Chains.{live, clean_chain-live}
use event_stream_core.Dedup.Holding.{get_or-clean_chains, length-clean_chains}
use event_stream_core.Dedup.Window.{insert_once}
use event_stream_core.Handler.{valid_ok}
use event_stream_core.Realtime.{store_throws}
use event_stream_core.Transactional.{
  Processor, Call, clean_up, attempts, record_latency, no_races, store_and_notify, succeed, settle,
  checked, validated, process,
}

in_chain-live :
    (now id : ℕ) (es : List Entry) → in_chain id es ≡ false → in_chain id (live now es) ≡ false
unfolding in_chain
in_chain-live now id [] h = refl
in_chain-live now id (e ∷ es) h = ground (arith, in_chain-live now id es)

-- A cleanup makes no id a duplicate.
is_duplicate-cleanup :
    (now id t : ℕ) (d : Deduplicator)
    → is_duplicate d id t ≡ false
    → is_duplicate (cleanup now d).0 id t ≡ false
unfolding is_duplicate cleanup
is_duplicate-cleanup now id t d h =
    let chain = get_or d.buckets (bucket_of d id) [] in
    ap (λ n. in_chain id (get_or (clean_chains now d.buckets).0 (id % n) []))
      (length-clean_chains now d.buckets)
    ∙ ap (in_chain id)
        (get_or-clean_chains now d.buckets (bucket_of d id) ∙ clean_chain-live now chain)
    ∙ in_chain-live now id chain h

new_inserted :
    (id now : ℕ) (d : Deduplicator)
    → is_duplicate d id now ≡ false
    → (insert no_races id now d).1 ≡ true
unfolding is_duplicate insert insert_attempts compare_exchange
new_inserted id now d h = rw h

abbrev size_of : Processor → ℕ
size_of p = length p.dedup_table.buckets

clean_up_kept :
    (now id : ℕ) (p : Processor)
    → is_duplicate p.dedup_table id now ≡ false
    → (is_duplicate (clean_up now p).dedup_table id now ≡ false)
      × (size_of (clean_up now p) ≡ size_of p)
      × ((clean_up now p).paused ≡ p.paused)
      × ((clean_up now p).max_retries ≡ p.max_retries)
unfolding clean_up cleanup
clean_up_kept now id p h =
    elim (Bool-cases
      (p.last_cleanup_ms == 0 || ltb 10000 (u64 (now + 2 ^ 64 - p.last_cleanup_ms)))) [
        | inl due ↦ rw due (
          is_duplicate-cleanup now id now p.dedup_table h,
          length-clean_chains now p.dedup_table.buckets,
          refl,
          refl,
        )
        | inr early ↦ rw early (h, refl, refl, refl)
      ]

if_first {ℓ} : {A : Type ℓ} (b : Bool) (x y : A) → b ≡ true → (if b then x else y) ≡ x
if_first true x y h = refl
if_first false x y h = absurd cc

if_second {ℓ} : {A : Type ℓ} (b : Bool) (x y : A) → b ≡ false → (if b then x else y) ≡ y
if_second true x y h = absurd cc
if_second false x y h = refl

duplicate_skipped :
    (c : Call) (e : Event) (p : Processor)
    → p.paused ≡ false
    → is_duplicate p.dedup_table e.header.id c.now_ms ≡ true
    → process c e p ≡ some p
unfolding process
duplicate_skipped c e p running dup =
    if_second p.paused _ _ running
    ∙ if_first (is_duplicate p.dedup_table e.header.id c.now_ms) _ _ dup

store_fields :
    (c : Call) (e : Event) (p : Processor)
    → ((store_and_notify c e p).dedup_table ≡ p.dedup_table)
      × ((store_and_notify c e p).paused ≡ p.paused)
unfolding store_and_notify record_latency
store_fields c e p = elim (Bool-cases (store_throws c.write_fails p.storage)) [
  | inl throws ↦ rw throws (refl, refl)
  | inr stores ↦ rw stores (elim (Bool-cases (ltb 0 e.dequeue_time_ns)) [
    | inl some_time ↦ rw some_time (refl, refl)
    | inr no_time ↦ rw no_time (refl, refl)
  ])
]

succeed_fields :
    (c : Call) (e : Event) (p : Processor)
    → ((succeed c e p).dedup_table ≡ (insert no_races e.header.id c.now_ms p.dedup_table).0)
      × ((succeed c e p).paused ≡ p.paused)
unfolding succeed
succeed_fields c e p = store_fields c e _

validated_success :
    (c : Call) (e : Event) (p : Processor)
    → (c.handler.validate e).valid ≡ true
    → c.handler.check_rules e ≡ some valid_ok
    → attempts c.answers 1 p.max_retries ≡ some true
    → validated c e p ≡ some (succeed c e p)
unfolding validated checked settle
validated_success c e p accepted rules answered =
    if_first (c.handler.validate e).valid _ _ accepted
    ∙ ap (checked c e p) rules
    ∙ ap (settle c e p) answered

-- An event that is new, and that its handler accepts and handles within the attempts, is processed;
-- the next event, if it has the same id, is skipped: it changes nothing, whatever it holds.
pub process_once :
    (c c' : Call) (e e' : Event) (p : Processor)
    → 0 < length p.dedup_table.buckets
    → p.paused ≡ false
    → is_duplicate p.dedup_table e.header.id c.now_ms ≡ false
    → (c.handler.validate e).valid ≡ true
    → c.handler.check_rules e ≡ some valid_ok
    → attempts c.answers 1 p.max_retries ≡ some true
    → e'.header.id ≡ e.header.id
    → let p' = succeed c e (clean_up c.now_ms p) in
      (process c e p ≡ some p') × (process c' e' p' ≡ some p')
unfolding process Dedup.Window.run
process_once c c' e e' p positive running new accepted rules handled same =
    let q = clean_up c.now_ms p in
    let (fresh, size, still, tries) = clean_up_kept c.now_ms e.header.id p new in
    let (table, paused) = succeed_fields c e q in
    let first =
      if_second p.paused _ _ running
      ∙ if_second (is_duplicate p.dedup_table e.header.id c.now_ms) _ _ new
      ∙ validated_success c e q accepted rules (ap (attempts c.answers 1) tries ∙ handled) in
    let inserted = new_inserted e.header.id c.now_ms q.dedup_table fresh in
    let (dup, _) =
      insert_once no_races e.header.id c.now_ms q.dedup_table [] no_races c'.now_ms
        (omega (arith, size)) inserted tt in
    (
      first,
      duplicate_skipped c' e' (succeed c e q) (paused ∙ still ∙ running) (
          ap (λ d. is_duplicate d e'.header.id c'.now_ms) table
          ∙ ap
              (λ i. is_duplicate (insert no_races e.header.id c.now_ms q.dedup_table).0 i c'.now_ms)
              same
          ∙ dup),
    )
