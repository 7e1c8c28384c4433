-- ===== src/Epoll/Lookup.antt =====
-- The operations on the map from descriptors to connections.
use event_stream_core.Common.{
  ℕ, suc, ◌≡◌, refl, subst, ◌≢◌, inl, inr, none, some, List, [], ◌∷◌, arith, ◌==◌, if◌then◌else◌,
  Bool-cases, length,
}
use event_stream_core.Epoll.{find, erase, assign}

module _ {ℓ} {A : Type ℓ} where
  -- No descriptor stands twice.
  abbrev pub IsDistinct : List (ℕ × A) → Type ℓ
  IsDistinct [] = Unit
  IsDistinct ((k, a) ∷ cs) = (find k cs ≡ none) × IsDistinct cs

  pub find-erase_ne :
      (fd other : ℕ) (cs : List (ℕ × A)) → other ≢ fd → find other (erase fd cs) ≡ find other cs
  unfolding find erase
  find-erase_ne fd other [] ne = refl
  find-erase_ne fd other ((k, a) ∷ cs) ne = ground (arith, find-erase_ne fd other cs ne)

  pub find-erase : (fd : ℕ) (cs : List (ℕ × A)) → IsDistinct cs → find fd (erase fd cs) ≡ none
  unfolding find erase
  find-erase fd [] d = refl
  find-erase fd ((k, a) ∷ cs) (fresh, d) = ground (arith, find-erase fd cs d)

  pub find-assign_ne :
      (fd other : ℕ) (a : A) (cs : List (ℕ × A))
      → other ≢ fd
      → find other (assign fd a cs) ≡ find other cs
  unfolding find assign
  find-assign_ne fd other a [] ne = refl
  find-assign_ne fd other a ((k, b) ∷ cs) ne = ground (arith, find-assign_ne fd other a cs ne)

  -- A write changes no descriptor, so it makes none known.
  pub find-assign-none :
      (fd other : ℕ) (a : A) (cs : List (ℕ × A))
      → find other cs ≡ none
      → find other (assign fd a cs) ≡ none
  unfolding find assign
  find-assign-none fd other a [] h = refl
  find-assign-none fd other a ((k, b) ∷ cs) h = ground (arith, find-assign-none fd other a cs)

  -- ... nor unknown.
  pub find-assign_known :
      (fd other : ℕ) (a : A) (cs : List (ℕ × A))
      → find other cs ≢ none
      → find other (assign fd a cs) ≢ none
  unfolding find assign
  find-assign_known fd other a [] h = h
  find-assign_known fd other a ((k, b) ∷ cs) h = ground (arith, find-assign_known fd other a cs)

  pub find-erase-none :
      (fd other : ℕ) (cs : List (ℕ × A)) → find other cs ≡ none → find other (erase fd cs) ≡ none
  unfolding find erase
  find-erase-none fd other [] h = refl
  find-erase-none fd other ((k, b) ∷ cs) h = ground (arith, find-erase-none fd other cs)

  pub erase-IsDistinct : (fd : ℕ) (cs : List (ℕ × A)) → IsDistinct cs → IsDistinct (erase fd cs)
  unfolding erase
  erase-IsDistinct fd [] d = d
  erase-IsDistinct fd ((k, a) ∷ cs) (fresh, d) = elim (Bool-cases (k == fd)) [
    | inl e ↦ rw e d
    | inr e ↦ rw e (find-erase-none fd k cs fresh, erase-IsDistinct fd cs d)
  ]

  pub assign-IsDistinct :
      (fd : ℕ) (a : A) (cs : List (ℕ × A)) → IsDistinct cs → IsDistinct (assign fd a cs)
  unfolding assign
  assign-IsDistinct fd a [] d = d
  assign-IsDistinct fd a ((k, b) ∷ cs) (fresh, d) = elim (Bool-cases (k == fd)) [
    | inl e ↦ rw e (fresh, d)
    | inr e ↦ rw e (find-assign-none fd k a cs fresh, assign-IsDistinct fd a cs d)
  ]

  pub length-assign : (fd : ℕ) (a : A) (cs : List (ℕ × A)) → length (assign fd a cs) ≡ length cs
  unfolding assign
  length-assign fd a [] = refl
  length-assign fd a ((k, b) ∷ cs) = ground (arith, length-assign fd a cs)

  pub length-erase :
      (fd : ℕ) (cs : List (ℕ × A)) → find fd cs ≢ none → suc (length (erase fd cs)) ≡ length cs
  unfolding find erase
  length-erase fd [] h = absurd (h refl)
  length-erase fd ((k, a) ∷ cs) h = ground (arith, length-erase fd cs)

pub find-assign {ℓ} :
    {A : Type ℓ} (fd : ℕ) (a b : A) (cs : List (ℕ × A))
    → find fd cs ≡ some b
    → find fd (assign fd a cs) ≡ some a
unfolding find assign
find-assign fd a b [] h = cc
find-assign fd a b ((k, c) ∷ cs) h = elim (Bool-cases (k == fd)) [
  | inl same ↦ rw (same, same)
  | inr other ↦
      rw (other, other)
        (find-assign fd a b cs (subst (λ t. (if t then some c else find fd cs) ≡ some b) other h))
]
