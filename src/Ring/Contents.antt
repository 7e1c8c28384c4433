-- ===== src/Ring/Contents.antt =====
-- A valid ring behaves as the queue of the elements that it holds, of at most `capacity - 1`.
use native.Mathlib.Decide.{dec_lt}
use native.Mathlib.Numerals.{add-one}
use native.Mathlib.Nat.{mod-add-mod, mod-eq_of_lt, mod-eq-sub-mod, add-zero}
use event_stream_core.Common.{
  ℕ, zero, suc, ◌+◌, ◌-◌, ◌%◌, ◌<◌, ◌≡◌, refl, sym, ap, ◌∙◌, ◌≢◌, inl, inr, Bool, true, false,
  Option, none, some, List, [], ◌∷◌, ◌++◌, arith, leb, if◌then◌else◌, length, get_elem?, set,
  get_elem?-set_self, get_elem?-set_ne, get_elem?_in,
}
use event_stream_core.Ring.{Ring, push, pop, size}
use event_stream_core.Ring.Bounds.{IsValid, size-lt-capacity, size-push, size-pop}

-- The specification: a queue, oldest first, that refuses what does not fit.
module _ {A : Type 0} where
  unfoldable pub fifo_push : ℕ → List A → A → List A × Bool
  fifo_push limit q item = if leb limit (length q) then (q, false) else (q ++ item ∷ [], true)

  unfoldable pub fifo_pop : List A → Option A × List A
  fifo_pop [] = (none, [])
  fifo_pop (x ∷ q) = (some x, q)

  abbrev cons? : Option A → List A → List A
  cons? none q = q
  cons? (some a) q = a ∷ q

  cons?-append : (o : Option A) (p q : List A) → cons? o p ++ q ≡ cons? o (p ++ q)
  cons?-append none p q = refl
  cons?-append (some a) p q = refl

-- Fewer than `capacity` steps round the ring do not come back to the start.
round-ne : {capacity h k : ℕ} → h < capacity → suc k < capacity → (h + suc k) % capacity ≢ h
round-ne {capacity} {h} {k} hh hk = elim (dec_lt (h + suc k) capacity) [
  | yes p ↦ omega (arith, mod-eq_of_lt p)
  | no p ↦ omega (
    arith,
    mod-eq-sub-mod {n = h + suc k} {m = capacity} (omega arith),
    mod-eq_of_lt {n = h + suc k - capacity} {m = capacity} (omega arith),
  )
]

module _ {A : Type 0} (capacity : ℕ) where
  -- The `n` elements from index `i` on, going round at `capacity`.
  abbrev slots : List A → ℕ → ℕ → List A
  slots buffer i zero = []
  slots buffer i (suc n) = cons? (get_elem? buffer i) (slots buffer ((i + 1) % capacity) n)

  abbrev pub contents : Ring A → List A
  contents r = slots r.buffer r.tail (size capacity r)

  length-slots :
      (buffer : List A) (i n : ℕ)
      → length buffer ≡ capacity
      → i < capacity
      → length (slots buffer i n) ≡ n
  length-slots buffer i zero h hi = refl
  length-slots buffer i (suc n) h hi =
      let (a, e) = get_elem?_in buffer i (omega arith) in
      rw e (ap suc (length-slots buffer ((i + 1) % capacity) n h (omega arith)))

  pub length-contents : {r : Ring A} → IsValid capacity r → length (contents r) ≡ size capacity r
  length-contents {r} v = length-slots r.buffer r.tail (size capacity r) v.storage v.tail_in

  -- Writing just past the occupied slots appends the element.
  slots-set :
      (buffer : List A) (x : A) (n i j : ℕ)
      → length buffer ≡ capacity
      → i < capacity
      → n < capacity
      → j ≡ (i + n) % capacity
      → slots (set buffer j x) i (suc n) ≡ slots buffer i n ++ x ∷ []
  slots-set buffer x zero i j s hi hn e =
      rw (e, add-zero, mod-eq_of_lt hi, get_elem?-set_self buffer i x (omega arith))
  slots-set buffer x (suc n) i j s hi hn e =
      rw (get_elem?-set_ne buffer {i = j} {j = i} x (λ back. round-ne hi hn (sym e ∙ back))) (
        ap (cons? (get_elem? buffer i))
          (slots-set buffer x n ((i + 1) % capacity) j s (omega arith) (omega arith) (e ∙ shift))
        ∙ sym (cons?-append (get_elem? buffer i) (slots buffer ((i + 1) % capacity) n) (x ∷ [])))
    where
      shift : (i + suc n) % capacity ≡ ((i + 1) % capacity + n) % capacity
      shift = rw mod-add-mod (ap (λ k. k % capacity) (omega arith))

  head-of-size : {r : Ring A} → IsValid capacity r → r.head ≡ (r.tail + size capacity r) % capacity
  unfolding size
  head-of-size {r} v = elim (dec_lt r.head r.tail) [
    | yes p ↦
        let wrapped : (if leb r.tail r.head then r.head - r.tail else capacity + r.head - r.tail)
            ≡ capacity + r.head - r.tail =
          ground arith in
        rw wrapped (
          omega (
            arith,
            mod-eq-sub-mod {n = capacity + r.head} {m = capacity} (omega arith),
            mod-eq_of_lt v.head_in,
            ap (λ k. k % capacity) (split_wrapped p),
            ap (λ k. k % capacity) unwrapped,
          ))
    | no p ↦
        let plain : (if leb r.tail r.head then r.head - r.tail else capacity + r.head - r.tail)
            ≡ r.head - r.tail =
          ground arith in
        rw plain (omega (arith, mod-eq_of_lt v.head_in, ap (λ k. k % capacity) (split_plain p)))
  ]
    where
      split_wrapped : r.head < r.tail → r.tail + (capacity + r.head - r.tail) ≡ capacity + r.head
      split_wrapped p = omega (arith, v.tail_in)

      unwrapped : capacity + r.head - capacity ≡ r.head
      unwrapped = omega arith

      split_plain : ¬ (r.head < r.tail) → r.tail + (r.head - r.tail) ≡ r.head
      split_plain p = omega arith

  -- The ring after a push that is not refused.
  abbrev pushed : Ring A → A → Ring A
  pushed r item = record r { buffer = set r.buffer r.head item; head = (r.head + 1) % capacity }

  push_room :
      (r : Ring A) (item : A)
      → (push capacity r item).1 ≡ true
      → push capacity r item ≡ (pushed r item, true)
  unfolding push
  push_room r item h = ground arith

  contents-pushed :
      {r : Ring A} (item : A)
      → IsValid capacity r
      → size capacity (pushed r item) ≡ size capacity r + 1
      → contents (pushed r item) ≡ contents r ++ item ∷ []
  contents-pushed {r} item v e =
      rw (e, add-one)
        (slots-set r.buffer item (size capacity r) r.tail r.head v.storage v.tail_in
          (size-lt-capacity capacity v) (head-of-size v))

  -- A push returns what a queue of at most `capacity - 1` elements would, and leaves the ring
  -- holding what that queue would.
  pub push_refines :
      {r : Ring A} (item : A)
      → IsValid capacity r
      → let (r', done) = push capacity r item in
        (contents r', done) ≡ fifo_push (capacity - 1) (contents r) item
  unfolding fifo_push
  push_refines {r} item v = elim (size-push capacity item v) [
    | inl (full, e) ↦ rw e (ground (arith, length-contents v))
    | inr (room, done, grown) ↦
        let e = push_room r item done in
        rw e (
          ground (
            arith,
            length-contents v,
            contents-pushed item v (ap (λ p. size capacity p.0) (sym e) ∙ grown),
          ))
  ]

  abbrev popped : Ring A → Ring A
  popped r = record r { tail = (r.tail + 1) % capacity }

  pop_room : (r : Ring A) → r.tail ≢ r.head → pop capacity r ≡ (get_elem? r.buffer r.tail, popped r)
  unfolding pop
  pop_room r h = ground arith

  pub size-empty : (r : Ring A) → r.tail ≡ r.head → size capacity r ≡ 0
  unfolding size
  size-empty r h = ground arith

  pub contents-empty : (r : Ring A) → size capacity r ≡ 0 → contents r ≡ []
  contents-empty r h = rw h

  contents-popped :
      (r : Ring A) (a : A)
      → get_elem? r.buffer r.tail ≡ some a
      → size capacity (popped r) + 1 ≡ size capacity r
      → contents r ≡ a ∷ contents (popped r)
  contents-popped r a e h =
      let h' : size capacity r ≡ suc (size capacity (popped r)) = omega arith in rw (h', e)

  -- A pop returns the oldest element and leaves the others in order; on an empty ring it returns
  -- nothing and changes nothing.
  pub pop_refines :
      {r : Ring A}
      → IsValid capacity r
      → let (out, r') = pop capacity r in (out, contents r') ≡ fifo_pop (contents r)
  unfolding fifo_pop
  pop_refines {r} v = elim (size-pop capacity v) [
    | inl (z, e) ↦ rw (e, contents-empty r z)
    | inr (pos, shrunk) ↦
        let ne : r.tail ≢ r.head = λ same. omega (arith, size-empty r same) in
        let (a, read) = get_elem?_in r.buffer r.tail (omega arith) in
        let e = pop_room r ne in
        rw (e, contents-popped r a read (ap (λ p. size capacity p.1 + 1) (sym e) ∙ shrunk))
          (ap (λ o. (o, contents (popped r))) read)
  ]
