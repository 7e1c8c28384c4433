-- ===== src/Observers/Round.antt =====
-- A round over all observers, when each of them respects the ends of the others.
use event_stream_core.Common.{
  ℕ, ◌≡◌, refl, sym, ◌∙◌, Bool, true, false, List, [], ◌∷◌, if◌then◌else◌, All, Bytes,
}
use event_stream_core.Observers.{
  Observer, realtime_alert, transactional_business, batch_analytics, dropped_event_monitor,
  esc_observer, Entry, is_active, Answers, notify_each,
}
use event_stream_core.Observers.Ended.{
  ended, IsRespectful, IsCurrent, Differs, IsNew, IsNumbered, Steps, Steps-same,
}

module _ (answers : Answers) where
  Differs-new :
      (o : Observer) (id : ℕ) (prefix : Bytes) (active : Bool) (os : List Observer)
      → IsNew o (esc_observer id prefix active ∷ os)
      → Differs id o
  Differs-new (esc_observer i p a) id prefix active os n = λ e. n.0 (sym e)
  Differs-new realtime_alert id prefix active os n = tt
  Differs-new transactional_business id prefix active os n = tt
  Differs-new batch_analytics id prefix active os n = tt
  Differs-new (dropped_event_monitor k) id prefix active os n = tt

  IsNew-tail : (o p : Observer) (os : List Observer) → IsNew o (p ∷ os) → IsNew o os
  IsNew-tail (esc_observer i q a) p os n = n.1
  IsNew-tail realtime_alert p os n = tt
  IsNew-tail transactional_business p os n = tt
  IsNew-tail batch_analytics p os n = tt
  IsNew-tail (dropped_event_monitor k) p os n = tt

  -- What an observer does to the log leaves the others current.
  IsCurrent-others :
      (o : Observer) (os : List Observer) (log log' : List Entry)
      → IsNew o os
      → ((id : ℕ) → Differs id o → ended answers id log' ≡ ended answers id log)
      → All (IsCurrent answers log) os
      → All (IsCurrent answers log') os
  IsCurrent-others o [] log log' n same all = tt
  IsCurrent-others o (esc_observer id prefix true ∷ os) log log' n same (now, later) = (
    same id (Differs-new o id prefix true os n) ∙ now,
    IsCurrent-others o os log log' (IsNew-tail o _ os n) same later,
  )
  IsCurrent-others o (esc_observer id prefix false ∷ os) log log' n same (now, later) =
      (tt, IsCurrent-others o os log log' (IsNew-tail o _ os n) same later)
  IsCurrent-others o (realtime_alert ∷ os) log log' n same (now, later) =
      (tt, IsCurrent-others o os log log' (IsNew-tail o _ os n) same later)
  IsCurrent-others o (transactional_business ∷ os) log log' n same (now, later) =
      (tt, IsCurrent-others o os log log' (IsNew-tail o _ os n) same later)
  IsCurrent-others o (batch_analytics ∷ os) log log' n same (now, later) =
      (tt, IsCurrent-others o os log log' (IsNew-tail o _ os n) same later)
  IsCurrent-others o (dropped_event_monitor k ∷ os) log log' n same (now, later) =
      (tt, IsCurrent-others o os log log' (IsNew-tail o _ os n) same later)

  -- And what the others do leaves it current and new.
  IsCurrent-stays :
      (o : Observer) (os os' : List Observer) (log log' : List Entry)
      → IsNew o os
      → ((id : ℕ)
          → All (Differs id) os
          → (ended answers id log' ≡ ended answers id log) × All (Differs id) os')
      → IsCurrent answers log o
      → IsCurrent answers log' o × IsNew o os'
  IsCurrent-stays (esc_observer id p true) os os' log log' n same c =
      ((same id n).0 ∙ c, (same id n).1)
  IsCurrent-stays (esc_observer id p false) os os' log log' n same c = (tt, (same id n).1)
  IsCurrent-stays realtime_alert os os' log log' n same c = (tt, tt)
  IsCurrent-stays transactional_business os os' log log' n same c = (tt, tt)
  IsCurrent-stays batch_analytics os os' log log' n same c = (tt, tt)
  IsCurrent-stays (dropped_event_monitor k) os os' log log' n same c = (tt, tt)

  -- What a round over all observers keeps.
  abbrev pub Keeps : List Observer → List Entry → List Observer × List Entry → Type 0
  Keeps os log (os', log') =
      IsRespectful answers log'
      × All (IsCurrent answers log') os'
      × IsNumbered os'
      × ((id : ℕ)
          → All (Differs id) os
          → (ended answers id log' ≡ ended answers id log) × All (Differs id) os')

  pub notify_each-Keeps :
      (on_event : Observer → List Entry → Observer × List Entry) (os : List Observer)
      (log : List Entry)
      → ((o : Observer) (log : List Entry) → Steps answers o log (on_event o log))
      → IsRespectful answers log
      → All (IsCurrent answers log) os
      → IsNumbered os
      → Keeps os log (notify_each on_event os log)
  unfolding notify_each
  notify_each-Keeps on_event [] log steps good current numbered = (good, tt, tt, λ id d. (refl, tt))
  notify_each-Keeps on_event (o ∷ os) log steps good (now, later) (new, rest) =
      after (if is_active o then on_event o log else (o, log)) (either (is_active o))
        (λ l. notify_each-Keeps on_event os l steps)
    where
      either : (b : Bool) → Steps answers o log (if b then on_event o log else (o, log))
      either true = steps o log
      either false = Steps-same answers o log

      after :
          (p : Observer × List Entry)
          → Steps answers o log p
          → ((l : List Entry)
              → IsRespectful answers l
              → All (IsCurrent answers l) os
              → IsNumbered os
              → Keeps os l (notify_each on_event os l))
          → Keeps
              (o ∷ os)
              log
              (p.0 ∷ (notify_each on_event os p.1).0, (notify_each on_event os p.1).1)
      after (o', log') (respects, stays, others, differs, newer) ih =
          let (good', all', numbered', same') =
            ih log' (respects good now) (IsCurrent-others o os log log' new others later) rest in
          let (os', log'') = notify_each on_event os log' in
          let (cur, new') = IsCurrent-stays o' os os' log' log'' (newer os new) same' (stays now) in
          (
            good',
            (cur, all'),
            (new', numbered'),
            λ id d. ((same' id d.1).0 ∙ others id d.0, (differs id d.0, (same' id d.1).1)),
          )
