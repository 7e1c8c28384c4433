-- ===== src/Dedup/Chains.antt =====
-- One bucket: the cleanup keeps the live entries, and says how many it took from behind the head.
use event_stream_core.Common.{ℕ, ◌+◌, ◌≡◌, refl, List, [], ◌∷◌, arith, if◌then◌else◌, length}
use event_stream_core.Dedup.{
  Entry, is_expired, remove_heads, remove_behind, clean_behind, clean_chain,
}

abbrev pub live : ℕ → List Entry → List Entry
live now_ms [] = []
live now_ms (e ∷ es) = if is_expired now_ms e then live now_ms es else e ∷ live now_ms es

remove_behind-live : (now_ms : ℕ) (es : List Entry) → (remove_behind now_ms es).0 ≡ live now_ms es
unfolding remove_behind
remove_behind-live now_ms [] = refl
remove_behind-live now_ms (e ∷ es) = ground (arith, remove_behind-live now_ms es)

remove_behind-count :
    (now_ms : ℕ) (es : List Entry)
    → length (remove_behind now_ms es).0 + (remove_behind now_ms es).1 ≡ length es
unfolding remove_behind
remove_behind-count now_ms [] = refl
remove_behind-count now_ms (e ∷ es) = ground (arith, remove_behind-count now_ms es)

-- The cleanup of a chain leaves its live entries in their order.
pub clean_chain-live : (now_ms : ℕ) (es : List Entry) → (clean_chain now_ms es).0 ≡ live now_ms es
unfolding clean_chain remove_heads clean_behind
clean_chain-live now_ms [] = refl
clean_chain-live now_ms (e ∷ es) =
    ground (arith, clean_chain-live now_ms es, remove_behind-live now_ms es)

-- What the count leaves out: the expired entries at the head.
pub clean_chain-count :
    (now_ms : ℕ) (es : List Entry)
    → length (clean_chain now_ms es).0 + (clean_chain now_ms es).1 ≡ length (remove_heads now_ms es)
unfolding clean_chain remove_heads clean_behind
clean_chain-count now_ms [] = refl
clean_chain-count now_ms (e ∷ es) =
    ground (arith, clean_chain-count now_ms es, remove_behind-count now_ms es)
