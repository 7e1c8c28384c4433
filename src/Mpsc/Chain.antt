-- ===== src/Mpsc/Chain.antt =====
-- Between calls the nodes from the head on are a chain in the order of allocation, and the queue is
-- a bounded FIFO of their items.
use event_stream_core.Common.{
  ℕ, zero, suc, ◌+◌, ◌^◌, ◌≤◌, ◌<◌, ◌≡◌, refl, sym, ap, subst, ◌∙◌, Option, none, some, List, [],
  ◌∷◌, ◌++◌, arith, length, get_or, set, drop, length-drop,
}
use event_stream_core.Mpsc.{Node, Queue, empty}

module _ {A : Type 0} where
  -- Node `i` and the nodes behind it: all but the last point to their neighbour.
  abbrev pub IsChain : ℕ → List (Node A) → Type 0
  IsChain i [] = Unit {0}
  IsChain i (n ∷ []) = n.next ≡ none
  IsChain i (n ∷ m ∷ ns) = (n.next ≡ some (i + 1)) × IsChain (i + 1) (m ∷ ns)

  abbrev pub cons? : Option A → List A → List A
  cons? none xs = xs
  cons? (some a) xs = a ∷ xs

  -- The items behind the dummy.
  abbrev pub items : List (Node A) → List A
  items [] = []
  items (n ∷ ns) = cons? n.item (items ns)

  abbrev pub contents : Queue A → List A
  contents q = items (drop (q.head + 1) q.nodes)

  abbrev pub IsFilled : Option A → Type 0
  IsFilled none = ⊥
  IsFilled (some a) = Unit {0}

  abbrev pub AllFilled : List (Node A) → Type 0
  AllFilled [] = Unit {0}
  AllFilled (n ∷ ns) = IsFilled n.item × AllFilled ns

  pub record IsValid (q : Queue A) : Type 0 where
    pub head_in : q.head < length q.nodes
    pub tail_last : q.tail + 1 ≡ length q.nodes
    pub chain : IsChain q.head (drop q.head q.nodes)
    pub filled : AllFilled (drop (q.head + 1) q.nodes)
    pub fits : q.size < 2 ^ 64
    pub counted : q.size ≡ length (contents q)

  abbrev pub dummy : Node A
  dummy = record { item = none; next = none }

  -- The new tail, and the write that links the old tail to it.
  abbrev pub linked : List (Node A) → ℕ → A → ℕ → List (Node A)
  linked ns prev a next =
      let ns' = ns ++ record { item = some a; next = none } ∷ [] in
      set ns' prev (record (get_or ns' prev dummy) { next = some next })

  linked-IsChain :
      (i : ℕ) (n : Node A) (ns : List (Node A)) (a : A) (next : ℕ)
      → next ≡ i + length ns + 1
      → IsChain i (n ∷ ns)
      → IsChain i (linked (n ∷ ns) (length ns) a next)
  linked-IsChain i n [] a next e c = (ap some (omega arith), refl)
  linked-IsChain i n (m ∷ []) a next e c =
      (c.0, linked-IsChain (i + 1) m [] a next (omega arith) c.1)
  linked-IsChain i n (m ∷ k ∷ ns) a next e c =
      (c.0, linked-IsChain (i + 1) m (k ∷ ns) a next (omega arith) c.1)

  pub cons-drop :
      (h : ℕ) (ns : List (Node A)) → h < length ns → drop h ns ≡ get_or ns h dummy ∷ drop (suc h) ns
  cons-drop h [] l = absurd (omega arith)
  cons-drop zero (n ∷ ns) l = refl
  cons-drop (suc h) (n ∷ ns) l = cons-drop h ns (omega arith)

  drop-linked :
      (h k : ℕ) (ns : List (Node A)) (a : A) (next : ℕ)
      → h ≤ length ns
      → drop h (linked ns (h + k) a next) ≡ linked (drop h ns) k a next
  drop-linked zero k ns a next l = ap (λ j. linked ns j a next) (omega arith)
  drop-linked (suc h) k [] a next l = absurd (omega arith)
  drop-linked (suc h) k (n ∷ ns) a next l =
      let e : suc h + k ≡ suc (h + k) = omega arith in
      rw e (drop-linked h k ns a next (omega arith))

  -- Linking changes no item.
  pub items-set-next :
      (h i : ℕ) (ns : List (Node A)) (z : Option ℕ)
      → items (drop h (set ns i (record (get_or ns i dummy) { next = z }))) ≡ items (drop h ns)
  items-set-next zero i [] z = refl
  items-set-next zero zero (n ∷ ns) z = refl
  items-set-next zero (suc i) (n ∷ ns) z = ap (cons? n.item) (items-set-next zero i ns z)
  items-set-next (suc h) i [] z = refl
  items-set-next (suc h) zero (n ∷ ns) z = refl
  items-set-next (suc h) (suc i) (n ∷ ns) z = items-set-next h i ns z

  pub filled-set-next :
      (h i : ℕ) (ns : List (Node A)) (z : Option ℕ)
      → AllFilled (drop h ns)
      → AllFilled (drop h (set ns i (record (get_or ns i dummy) { next = z })))
  filled-set-next zero i [] z f = tt
  filled-set-next zero zero (n ∷ ns) z f = f
  filled-set-next zero (suc i) (n ∷ ns) z f = (f.0, filled-set-next zero i ns z f.1)
  filled-set-next (suc h) i [] z f = tt
  filled-set-next (suc h) zero (n ∷ ns) z f = f
  filled-set-next (suc h) (suc i) (n ∷ ns) z f = filled-set-next h i ns z f

  pub items-append :
      (ns : List (Node A)) (a : A)
      → items (ns ++ record { item = some a; next = none } ∷ []) ≡ items ns ++ a ∷ []
  items-append [] a = refl
  items-append (n ∷ ns) a = go n.item (items-append ns a)
    where
      go :
          (o : Option A)
          → items (ns ++ record { item = some a; next = none } ∷ []) ≡ items ns ++ a ∷ []
          → cons? o (items (ns ++ record { item = some a; next = none } ∷ []))
            ≡ cons? o (items ns) ++ a ∷ []
      go none e = e
      go (some x) e = ap (◌∷◌ x) e

  pub filled-append :
      (ns : List (Node A)) (a : A)
      → AllFilled ns
      → AllFilled (ns ++ record { item = some a; next = none } ∷ [])
  filled-append [] a f = (tt, tt)
  filled-append (n ∷ ns) a f = (f.0, filled-append ns a f.1)

  pub empty-IsValid : IsValid empty
  unfolding empty
  empty-IsValid = record {
    head_in = omega arith;
    tail_last = refl;
    chain = refl;
    filled = tt;
    fits = omega arith;
    counted = refl;
  }

  pub IsChain-linked :
      (h k : ℕ) (ns : List (Node A)) (a : A) (next : ℕ)
      → h + k + 1 ≡ length ns
      → next ≡ length ns
      → IsChain h (drop h ns)
      → IsChain h (drop h (linked ns (h + k) a next))
  IsChain-linked h k ns a next last e c =
      let front : h < length ns = omega arith in
      let split = cons-drop h ns front in
      let behind : length (drop (suc h) ns) ≡ k = omega (arith, length-drop (suc h) ns) in
      let c' = subst (IsChain h) split c in
      let here = linked-IsChain h (get_or ns h dummy) (drop (suc h) ns) a next (omega arith) c' in
      let at_k =
        subst (λ j. IsChain h (linked (get_or ns h dummy ∷ drop (suc h) ns) j a next)) behind
          here in
      subst (IsChain h)
        (sym (drop-linked h k ns a next (omega arith) ∙ ap (λ xs. linked xs k a next) split)) at_k
