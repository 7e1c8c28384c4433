-- ===== src/Handler/Lookup.antt =====
-- Which handler a topic has.
use event_stream_core.Common.{
  ℕ, ◌≤◌, ◌<◌, ◌≡◌, refl, ap, subst, ◌⊎◌, inl, inr, Bool, true, false, ◌&&◌, Option, none, some, [],
  ◌∷◌, arith, ltb, if◌then◌else◌, ==_self, Bool-cases, Option-cases, length, Bytes, bytes_eq,
  bytes_eq→eq,
}
use event_stream_core.Handler.{
  EventHandler, Registry, find_handler, starts_with, best_handler, found_or, get_handler,
}

abbrev pub In : Bytes → EventHandler → Registry → Type 0
In p h [] = ⊥
In p h ((q, g) ∷ registry) = ((q ≡ p) × (g ≡ h)) ⊎ In p h registry

-- No prefix of the topic that is registered is longer than `n`.
abbrev pub Bounded : Bytes → ℕ → Registry → Type 0
Bounded topic n [] = Unit {0}
Bounded topic n ((p, g) ∷ registry) =
    (starts_with p topic ≡ true → length p ≤ n) × Bounded topic n registry

abbrev pub Better : Bytes → ℕ → Registry → Option EventHandler → Type 0
Better topic n registry out =
    (p : Bytes) × (h : EventHandler) × (out ≡ some h)
    × In p h registry
    × (starts_with p topic ≡ true)
    × (n < length p)
    × Bounded topic (length p) registry

abbrev Kept : Bytes → Option EventHandler → ℕ → Registry → Option EventHandler → Type 0
Kept topic best n registry out = (out ≡ best) × Bounded topic n registry

split-and : (a : Bool) (n m : ℕ) → (a && ltb n m) ≡ true → (a ≡ true) × (n < m)
split-and a n m h = ground arith

no-and : (a : Bool) (n m : ℕ) → (a && ltb n m) ≡ false → a ≡ true → m ≤ n
no-and a n m h e = ground arith

best_handler_lem :
    (topic : Bytes) (registry : Registry) (best : Option EventHandler) (n : ℕ)
    → let out = best_handler topic registry best n in
      Kept topic best n registry out ⊎ Better topic n registry out
unfolding best_handler
best_handler_lem topic [] best n = inl (refl, tt)
best_handler_lem topic ((q, g) ∷ registry) best n =
    elim (Bool-cases (starts_with q topic && ltb n (length q))) [
      | inl test ↦ rw test (
          let (starts, longer) = split-and (starts_with q topic) n (length q) test in
          elim (best_handler_lem topic registry (some g) (length q)) [
            | inl (e, bound) ↦
                inr (q, g, e, inl (refl, refl), starts, longer, ((λ s. omega arith), bound))
            | inr (p, h, e, there, s, lt, bound) ↦
                inr (p, h, e, inr there, s, omega arith, ((λ s'. omega arith), bound))
          ])
      | inr test ↦ rw test (
          let short = no-and (starts_with q topic) n (length q) test in
          elim (best_handler_lem topic registry best n) [
            | inl (e, bound) ↦ inl (e, (short, bound))
            | inr (p, h, e, there, s, lt, bound) ↦
                inr (p, h, e, inr there, s, lt, ((λ s'. let le = short s' in omega arith), bound))
          ])
    ]

starts_with_self : (topic : Bytes) → starts_with topic topic ≡ true
unfolding starts_with
starts_with_self [] = refl
starts_with_self (x ∷ topic) = ground (arith, ==_self x, starts_with_self topic)

starts_with-le : (p topic : Bytes) → starts_with p topic ≡ true → length p ≤ length topic
unfolding starts_with
starts_with-le [] topic h = omega arith
starts_with-le (x ∷ p) [] h = absurd cc
starts_with-le (x ∷ p) (y ∷ topic) h = ground (arith, starts_with-le p topic)

all-Bounded : (topic : Bytes) (registry : Registry) → Bounded topic (length topic) registry
all-Bounded topic [] = tt
all-Bounded topic ((p, g) ∷ registry) = (starts_with-le p topic, all-Bounded topic registry)

handler_in : EventHandler → Option EventHandler → EventHandler
handler_in g none = g
handler_in g (some h) = h

find_handler_lem :
    (topic : Bytes) (registry : Registry) (h : EventHandler)
    → find_handler topic registry ≡ some h
    → In topic h registry
unfolding find_handler handler_in
find_handler_lem topic [] h e = absurd cc
find_handler_lem topic ((q, g) ∷ registry) h e =
    let found = λ (b : Bool). (if b then some g else find_handler topic registry) ≡ some h in
    elim (Bool-cases (bytes_eq q topic)) [
      | inl same ↦ inl (bytes_eq→eq q topic same, ap (handler_in g) (subst found same e))
      | inr other ↦ inr (find_handler_lem topic registry h (subst found other e))
    ]

-- The handler of a topic is registered for a prefix of that topic, and no longer prefix of it is
-- registered; a topic without a handler has no registered prefix but the empty one.
pub get_handler_lem :
    (topic : Bytes) (registry : Registry)
    → let out = get_handler topic registry in
      ((out ≡ none) × Bounded topic 0 registry)
      ⊎ ((p : Bytes) × (h : EventHandler) × (out ≡ some h)
          × In p h registry
          × (starts_with p topic ≡ true)
          × Bounded topic (length p) registry)
unfolding get_handler found_or
get_handler_lem topic registry = elim (Option-cases (find_handler topic registry)) [
  | inr (h, e) ↦ rw e (
      inr (
        topic,
        h,
        refl,
        find_handler_lem topic registry h e,
        starts_with_self topic,
        all-Bounded topic registry,
      ))
  | inl e ↦ rw e (elim (best_handler_lem topic registry none 0) [
    | inl (e', bound) ↦ inl (e', bound)
    | inr (p, h, e', there, s, lt, bound) ↦ inr (p, h, e', there, s, bound)
  ])
]
