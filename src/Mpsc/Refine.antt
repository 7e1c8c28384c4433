-- ===== src/Mpsc/Refine.antt =====
-- Run one call after the other, the linked queue behaves as a bounded queue of its items.
use event_stream_core.Common.{
  ℕ, suc, ◌+◌, ◌-◌, ◌^◌, ◌<◌, ◌≡◌, refl, sym, ap, ap₂, subst, ◌∙◌, true, false, Option, none, some,
  List, [], ◌∷◌, ◌++◌, arith, leb, length, get_or, drop, length-append, length-set, length-drop,
  drop-append, drop-drop, get_or-drop, u64,
}
use native.Mathlib.Decide.{dec_le}
use event_stream_core.Ring.Contents.{fifo_push, fifo_pop}
use event_stream_core.Mpsc.{
  Node, Queue, node_at, exchange, link, count_in, count_out, push, take_next, pop,
}
use event_stream_core.Mpsc.Chain.{
  IsChain, cons?, items, contents, IsFilled, AllFilled, IsValid, dummy, linked, cons-drop,
  items-set-next, filled-set-next, items-append, filled-append, IsChain-linked,
}

module _ {A : Type 0} where
  -- The fields of a queue after a push.
  push_contents :
      (q : Queue A) (a : A)
      → IsValid q
      → items (drop (q.head + 1) (linked q.nodes q.tail a (length q.nodes))) ≡ contents q ++ a ∷ []
  push_contents q a v =
      let inside = v.head_in in
      items-set-next (q.head + 1) q.tail _ (some (length q.nodes))
      ∙ ap items (drop-append (q.head + 1) q.nodes _ (omega arith))
      ∙ items-append (drop (q.head + 1) q.nodes) a

  push_filled :
      (q : Queue A) (a : A)
      → IsValid q
      → AllFilled (drop (q.head + 1) (linked q.nodes q.tail a (length q.nodes)))
  push_filled q a v =
      let inside = v.head_in in
      filled-set-next (q.head + 1) q.tail _ (some (length q.nodes)) (
        subst AllFilled (sym (drop-append (q.head + 1) q.nodes _ (omega arith)))
          (filled-append (drop (q.head + 1) q.nodes) a v.filled))

  push-IsChain :
      (q : Queue A) (a : A)
      → IsValid q
      → IsChain q.head (drop q.head (linked q.nodes q.tail a (length q.nodes)))
  push-IsChain q a v =
      let inside = v.head_in in
      let last = v.tail_last in
      let reach : q.head + (q.tail - q.head) ≡ q.tail = omega arith in
      subst (λ t. IsChain q.head (drop q.head (linked q.nodes t a (length q.nodes)))) reach
        (IsChain-linked q.head (q.tail - q.head) q.nodes a (length q.nodes) (omega arith) refl
          v.chain)

  length-linked : (ns : List (Node A)) (a : A) (i z : ℕ) → length (linked ns i a z) ≡ length ns + 1
  length-linked ns a i z = length-set _ i _ ∙ length-append ns _

  push_IsValid :
      (q : Queue A) (a : A)
      → q.size + 1 < 2 ^ 64
      → IsValid q
      → IsValid (count_in (link (exchange q a).0 q.tail (length q.nodes)))
  unfolding exchange link count_in
  push_IsValid q a room v =
      let n = length-linked q.nodes a q.tail (length q.nodes) in
      let inside = v.head_in in
      let counted = v.counted in
      let held = push_contents q a v in
      let grown = ap length held ∙ length-append (contents q) (a ∷ []) in
      record {
        head_in = omega (arith, n);
        tail_last = omega (arith, n);
        chain = push-IsChain q a v;
        filled = push_filled q a v;
        fits = omega arith;
        counted = omega (arith, grown);
      }

  -- A push appends the item and keeps the queue valid, and it is refused exactly when the queue
  -- holds as many items as its capacity.
  pub push_refines_fifo :
      (capacity : ℕ) (q : Queue A) (a : A)
      → capacity < 2 ^ 64
      → IsValid q
      → let (q', done) = push capacity q a in
        ((contents q', done) ≡ fifo_push capacity (contents q) a) × IsValid q'
  unfolding push exchange link count_in fifo_push
  push_refines_fifo capacity q a small v = elim (dec_le capacity q.size) [
    | yes full ↦
        let counted = v.counted in
        let test : leb capacity q.size ≡ true = ground arith in
        let test' : leb capacity (length (contents q)) ≡ true = ground arith in
        rw test (rw test' refl, v)
    | no room ↦
        let counted = v.counted in
        let test : leb capacity q.size ≡ false = ground arith in
        let test' : leb capacity (length (contents q)) ≡ false = ground arith in
        rw test
          (rw test' (ap (λ xs. (xs, true)) (push_contents q a v)), push_IsValid q a (omega arith) v)
  ]

  -- What follows the head of a chain.
  next_of_last : (i : ℕ) (n : Node A) → IsChain i (n ∷ []) → n.next ≡ none
  next_of_last i n c = c

  item_of_filled : (o : Option A) → IsFilled o → (a : A) × (o ≡ some a)
  item_of_filled none f = absurd f
  item_of_filled (some a) f = (a, refl)

  abbrev PoppedTo : Queue A → Type 0
  PoppedTo q = let (q', out) = pop q in ((out, contents q') ≡ fifo_pop (contents q)) × IsValid q'

  pop_last : (q : Queue A) → IsValid q → drop (suc q.head) q.nodes ≡ [] → PoppedTo q
  unfolding pop take_next count_out fifo_pop
  pop_last q v e =
      let split = cons-drop q.head q.nodes v.head_in in
      let c = subst (IsChain q.head) (split ∙ ap (◌∷◌ (node_at q q.head)) e) v.chain in
      let one : q.head + 1 ≡ suc q.head = omega arith in
      let none_held : contents q ≡ [] = ap (λ k. items (drop k q.nodes)) one ∙ ap items e in
      rw (next_of_last q.head (node_at q q.head) c)
        (ap (λ xs. (none, xs)) none_held ∙ ap fifo_pop (sym none_held), v)

  pop_next :
      (q : Queue A) (m : Node A) (ns : List (Node A))
      → IsValid q
      → drop (suc q.head) q.nodes ≡ m ∷ ns
      → PoppedTo q
  unfolding pop take_next count_out fifo_pop
  pop_next q m ns v e =
      let split = cons-drop q.head q.nodes v.head_in in
      let c = subst (IsChain q.head) (split ∙ ap (◌∷◌ (node_at q q.head)) e) v.chain in
      let one : q.head + 1 ≡ suc q.head = omega arith in
      let e' : drop (q.head + 1) q.nodes ≡ m ∷ ns = ap (λ k. drop k q.nodes) one ∙ e in
      let filled = subst AllFilled e' v.filled in
      let (a, some_a) = item_of_filled m.item filled.0 in
      let rest : drop (q.head + 1 + 1) q.nodes ≡ ns =
        sym (drop-drop (q.head + 1) 1 q.nodes) ∙ ap (drop 1) e' in
      let same : q.head + 1 ≡ q.head + 1 + 0 = omega arith in
      let first : node_at q (q.head + 1) ≡ m =
        ap (λ i. get_or q.nodes i dummy) same
        ∙ sym (get_or-drop (q.head + 1) 0 q.nodes dummy)
        ∙ ap (λ xs. get_or xs 0 dummy) e' in
      let held : contents q ≡ a ∷ items ns = ap items e' ∙ ap (λ o. cons? o (items ns)) some_a in
      let count : q.size ≡ suc (length (items ns)) = v.counted ∙ ap length held in
      let left : length (items (drop (q.head + 1 + 1) q.nodes)) ≡ length (items ns) =
        ap (λ xs. length (items xs)) rest in
      let fits = v.fits in
      let long : length (drop (q.head + 1) q.nodes) ≡ suc (length ns) = ap length e' in
      let counted : u64 (q.size + 2 ^ 64 - 1) ≡ length (items (drop (q.head + 1 + 1) q.nodes)) =
        omega arith in
      rw c.0 (
        ap₂ (λ o xs. (o, xs)) (ap (λ n. n.item) first ∙ some_a) (ap items rest)
            ∙ ap fifo_pop (sym held),
        record {
          head_in = omega (arith, long, length-drop (q.head + 1) q.nodes);
          tail_last = v.tail_last;
          chain = subst (IsChain (q.head + 1)) (sym e') c.1;
          filled = subst AllFilled (sym rest) filled.1;
          fits = omega arith;
          counted = counted;
        },
      )

  -- A pop returns the oldest item and leaves the others in order, on an empty queue it returns
  -- nothing, and it keeps the queue valid.
  pub pop_refines_fifo :
      (q : Queue A)
      → IsValid q
      → let (q', out) = pop q in ((out, contents q') ≡ fifo_pop (contents q)) × IsValid q'
  pop_refines_fifo q v = by_rest (drop (suc q.head) q.nodes) refl
    where
      by_rest : (rest : List (Node A)) → drop (suc q.head) q.nodes ≡ rest → PoppedTo q
      by_rest [] e = pop_last q v e
      by_rest (m ∷ ns) e = pop_next q m ns v e
