-- ===== src/Ring/Overwrite.antt =====
-- Case lemmas for a client of the ring, and the making of room by a pop.
use event_stream_core.Common.{
  ℕ, ◌+◌, ◌<◌, ◌≡◌, refl, ap, ◌⊎◌, inl, inr, true, false, none, some, List, [], ◌∷◌, ◌++◌, arith,
  length,
}
use event_stream_core.Ring.{Ring, push, pop}
use event_stream_core.Ring.Bounds.{IsValid, push-IsValid, pop-IsValid, size-push, size-pop}
use event_stream_core.Ring.Contents.{
  fifo_push, fifo_pop, contents, length-contents, push_refines, pop_refines,
}

module _ {A : Type 0} (capacity : ℕ) where
  pub push_cases :
      {r : Ring A} (e : A)
      → IsValid capacity r
      → ((length (contents capacity r) + 1 < capacity)
          × (r' : Ring A) × (push capacity r e ≡ (r', true))
          × (contents capacity r' ≡ contents capacity r ++ e ∷ [])
          × IsValid capacity r')
        ⊎ ((length (contents capacity r) + 1 ≡ capacity) × (push capacity r e ≡ (r, false)))
  unfolding fifo_push
  push_cases {r} e v = elim (size-push capacity e v) [
    | inl (full, same) ↦ inr (omega (arith, length-contents capacity v), same)
    | inr (room, done, grown) ↦ inl (
      omega (arith, length-contents capacity v),
      (push capacity r e).0,
      ground arith,
      ground (arith, push_refines capacity e v, length-contents capacity v),
      push-IsValid capacity e v,
    )
  ]

  pub pop_cases :
      {r : Ring A}
      → IsValid capacity r
      → ((contents capacity r ≡ []) × (pop capacity r ≡ (none, r)))
        ⊎ ((x : A) × (r' : Ring A) × (pop capacity r ≡ (some x, r'))
            × (contents capacity r ≡ x ∷ contents capacity r')
            × IsValid capacity r')
  unfolding fifo_pop
  pop_cases {r} v = go (contents capacity r) refl
    where
      go :
          (q : List A)
          → contents capacity r ≡ q
          → ((contents capacity r ≡ []) × (pop capacity r ≡ (none, r)))
            ⊎ ((x : A) × (r' : Ring A) × (pop capacity r ≡ (some x, r'))
                × (contents capacity r ≡ x ∷ contents capacity r')
                × IsValid capacity r')
      go [] e = elim (size-pop capacity v) [
        | inl (z, same) ↦ inl (e, same)
        | inr (pos, _) ↦ absurd (omega (arith, length-contents capacity v, ap length e))
      ]
      go (x ∷ q) e = inr (
        x,
        (pop capacity r).1,
        ground (arith, pop_refines capacity v),
        ground (arith, pop_refines capacity v),
        pop-IsValid capacity v,
      )
