-- ===== src/MetricRegistry/Stamps.antt =====
-- How often `updateEventTimestamp` takes the lock, and how old the written time can be.
use event_stream_core.Common.{
  ℕ, ◌+◌, ◌-◌, ◌*◌, ◌^◌, ◌≤◌, ◌<◌, ◌≡◌, refl, sym, ap, ap₂, subst, ◌∙◌, inl, inr, true, false, ◌&&◌,
  some, List, [], ◌∷◌, arith, ltb, if◌then◌else◌, ltb→lt, Bool-cases, Bytes, u64, bytes_eq,
  bytes_eq_self,
}
use event_stream_core.MetricRegistry.{
  Metrics, MetricRegistry, find, update, StampBuffer, update_interval_ns, is_recent,
  update_event_timestamp,
}
use event_stream_core.MetricRegistry.Snapshots.{apply, find-update_self}

-- Readings of the clock, none before the last.
abbrev pub Ascends : ℕ → List ℕ → Type 0
Ascends t [] = Unit
Ascends t (u ∷ us) = (t ≤ u) × (u < 2 ^ 64) × Ascends u us

abbrev pub last_of : ℕ → List ℕ → ℕ
last_of t [] = t
last_of t (u ∷ us) = last_of u us

gap :
    (name : Bytes) (u : ℕ) (b : StampBuffer)
    → b.last_name ≡ name
    → b.last_update_ns ≤ u
    → u < 2 ^ 64
    → is_recent name u b ≡ ltb (u - b.last_update_ns) update_interval_ns
unfolding is_recent
gap name u b same before bound =
    let known = ap (λ n. bytes_eq n name) same ∙ bytes_eq_self name in
    let exact : u64 (u + 2 ^ 64 - b.last_update_ns) ≡ u - b.last_update_ns = omega arith in
    ap₂ (λ c n. c && ltb n update_interval_ns) known exact

module _ {D : Type 0} (name : Bytes) (now_ms : ℕ → ℕ) where
  -- The calls of one thread for a name, at the times given.
  unfoldable pub update_all :
      List ℕ → StampBuffer × MetricRegistry D → StampBuffer × MetricRegistry D
  update_all [] s = s
  update_all (t ∷ ts) s = update_all ts (update_event_timestamp name t (now_ms t) s)

  -- How many of them take the lock.
  unfoldable pub writes : List ℕ → StampBuffer × MetricRegistry D → ℕ
  writes [] s = 0
  writes (t ∷ ts) s =
      (if is_recent name t s.0 then 0 else 1)
      + writes ts (update_event_timestamp name t (now_ms t) s)

  -- The registry has the time of the call that filled the buffer.
  abbrev pub Holds : StampBuffer × MetricRegistry D → Type 0
  Holds (b, r) =
      (m : Metrics) × (find name r.metrics_map ≡ some m)
      × (m.last_event_timestamp_ms ≡ now_ms b.last_update_ns)

  -- After a call at `t`, with the last write `w` at most a millisecond before it.
  abbrev Paced : ℕ → List ℕ → StampBuffer × MetricRegistry D → Type 0
  Paced t ts s =
      (update_interval_ns * writes ts s + s.0.last_update_ns ≤ last_of t ts)
      × (last_of t ts < (update_all ts s).0.last_update_ns + update_interval_ns)
      × Holds (update_all ts s)

  recent_update :
      (u ms : ℕ) (b : StampBuffer) (r : MetricRegistry D)
      → is_recent name u b ≡ true
      → update_event_timestamp name u ms (b, r) ≡ (b, r)
  unfolding update_event_timestamp
  recent_update u ms b r h = rw h

  -- A call that takes the lock fills the buffer, and writes the time for a registered name.
  old_update :
      (u : ℕ) (b : StampBuffer) (r : MetricRegistry D) (m : Metrics)
      → find name r.metrics_map ≡ some m
      → is_recent name u b ≡ false
      → let b' : StampBuffer = record { last_name = name; last_update_ns = u } in
        (r' : MetricRegistry D) × (update_event_timestamp name u (now_ms u) (b, r) ≡ (b', r'))
        × Holds (b', r')
  unfolding update_event_timestamp
  old_update u b r m e h = (
    record r { metrics_map = update name stamped r.metrics_map },
    rw h,
    (stamped m, find-update_self name stamped r.metrics_map ∙ ap (apply stamped) e, refl),
  )
    where
      stamped : Metrics → Metrics
      stamped m' = record m' { last_event_timestamp_ms = now_ms u }

  paced :
      (t : ℕ) (ts : List ℕ) (b : StampBuffer) (r : MetricRegistry D)
      → b.last_name ≡ name
      → b.last_update_ns ≤ t
      → t < b.last_update_ns + update_interval_ns
      → Holds (b, r)
      → Ascends t ts
      → Paced t ts (b, r)
  unfolding update_all writes
  paced t [] b r same before near held h = (omega arith, near, held)
  paced t (u ∷ us) b r same before near held (up, bound, later) =
      elim (Bool-cases (is_recent name u b)) [
        | inl recent ↦
            let close = ltb→lt _ _ (sym test ∙ recent) in
            let (w, l, kept) =
              paced u us b r same (omega arith) (omega (arith, close)) held later in
            let none_now : ◌≡◌ {A = ℕ} (if is_recent name u b then 0 else 1) 0 =
              ap (λ c. let n : ℕ = if c then 0 else 1 in n) recent in
            subst After (sym (recent_update u (now_ms u) b r recent))
              (omega (arith, w, none_now), l, kept)
        | inr old ↦
            let (m, found, _) = held in
            let (r', stamped, written) = old_update u b r m found old in
            let far : update_interval_ns ≤ u - b.last_update_ns = ground (arith, sym test ∙ old) in
            let (w, l, kept) =
              paced u us (record { last_name = name; last_update_ns = u }) r' refl (omega arith)
                (omega arith) written later in
            let one_now : ◌≡◌ {A = ℕ} (if is_recent name u b then 0 else 1) 1 =
              ap (λ c. let n : ℕ = if c then 0 else 1 in n) old in
            subst After (sym stamped) (omega (arith, w, one_now, far), l, kept)
      ]
    where
      test : is_recent name u b ≡ ltb (u - b.last_update_ns) update_interval_ns
      test = gap name u b same (omega arith) bound

      After : StampBuffer × MetricRegistry D → Type 0
      After s =
          (update_interval_ns * ((if is_recent name u b then 0 else 1) + writes us s)
              + b.last_update_ns
            ≤ last_of u us)
          × (last_of u us < (update_all us s).0.last_update_ns + update_interval_ns)
          × Holds (update_all us s)

  -- After a call at `t` that takes the lock, for a registered name, the calls of the same thread for
  -- the same name, the clock not going back, take it at most once a millisecond; the time that the
  -- registry then has for the name is the clock's at the last call that took it, and the last of the
  -- calls comes less than a millisecond after that one.
  pub update_all_lem :
      (t : ℕ) (ts : List ℕ) (b : StampBuffer) (r : MetricRegistry D) (m : Metrics)
      → find name r.metrics_map ≡ some m
      → is_recent name t b ≡ false
      → Ascends t ts
      → let s = update_event_timestamp name t (now_ms t) (b, r) in
        let s' = update_all ts s in
        (update_interval_ns * writes ts s + t ≤ last_of t ts)
        × (last_of t ts < s'.0.last_update_ns + update_interval_ns)
        × Holds s'
  update_all_lem t ts b r m found old h =
      let (r', stamped, written) = old_update t b r m found old in
      subst
        (λ s.
          (update_interval_ns * writes ts s + t ≤ last_of t ts)
          × (last_of t ts < (update_all ts s).0.last_update_ns + update_interval_ns)
          × Holds (update_all ts s))
        (sym stamped)
        (paced t ts (record { last_name = name; last_update_ns = t }) r' refl (omega arith)
          (omega arith) written h)
