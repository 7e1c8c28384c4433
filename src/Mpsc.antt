-- ===== src/Mpsc.antt =====
-- include/eventstream/core/queues/mpsc.hpp: the linked queue between the ingest threads and the
-- dispatch thread. Nodes stand on a heap in the order of their allocation, and a pointer is an
-- index; `delete` of a node that nothing reaches any more leaves it where it is, and so does the
-- move out of an item that nothing reads again. The steps of `push`
-- and `pop` are functions of their own, and here one call runs them without a pause.
pub mod Chain
pub mod Refine
mod Tests
use event_stream_core.Common.{
  ℕ, ◌+◌, ◌-◌, ◌^◌, Bool, true, false, Option, none, some, List, [], ◌∷◌, ◌++◌, leb, if◌then◌else◌,
  length, get_or, set, u64,
}

pub record Node {ℓ} (A : Type ℓ) : Type ℓ where
  -- `none` is the default value of the dummy.
  pub item : Option A
  pub next : Option ℕ

pub record Queue {ℓ} (A : Type ℓ) : Type ℓ where
  pub nodes : List (Node A)
  pub head : ℕ
  pub tail : ℕ
  pub size : ℕ

module _ {ℓ} {A : Type ℓ} where
  abbrev pub node_at : Queue A → ℕ → Node A
  node_at q i = get_or q.nodes i (record { item = none; next = none })

  -- A dummy node, and nothing else.
  unfoldable pub empty : Queue A
  empty = record { nodes = record { item = none; next = none } ∷ []; head = 0; tail = 0; size = 0 }

  -- `new Node(item)` and `tail_.exchange(node)`: the new tail, and the node that was it before.
  unfoldable pub exchange : Queue A → A → Queue A × ℕ
  exchange q a = (
    record q {
      nodes = q.nodes ++ record { item = some a; next = none } ∷ [];
      tail = length q.nodes;
    },
    q.tail,
  )

  -- `prev->next.store(node)`.
  unfoldable pub link : Queue A → ℕ → ℕ → Queue A
  link q prev node = record q {
    nodes = set q.nodes prev (record (node_at q prev) { next = some node });
  }

  unfoldable pub count_in : Queue A → Queue A
  count_in q = record q { size = u64 (q.size + 1) }

  unfoldable pub count_out : Queue A → Queue A
  count_out q = record q { size = u64 (q.size + 2 ^ 64 - 1) }

  -- `push`, for a queue of the given capacity.
  unfoldable pub push : ℕ → Queue A → A → Queue A × Bool
  unfolding exchange link count_in
  push capacity q a =
      let (q', prev) = exchange q a in
      if leb capacity q.size then (q, false) else (count_in (link q' prev q'.tail), true)

  unfoldable pub take_next : Queue A → Option ℕ → Queue A × Option A
  unfolding count_out
  take_next q none = (q, none)
  take_next q (some next) = (count_out (record q { head = next }), (node_at q next).item)

  unfoldable pub pop : Queue A → Queue A × Option A
  unfolding take_next
  pop q = take_next q (node_at q q.head).next

  unfoldable pub is_empty : Queue A → Bool
  is_empty q = elim (node_at q q.head).next [ none ↦ true | some next ↦ false ]
