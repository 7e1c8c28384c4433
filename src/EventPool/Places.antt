-- ===== src/EventPool/Places.antt =====
-- Places of the pool in lists, counted.
use event_stream_core.Common.{
  ℕ, zero, suc, ◌+◌, ◌<◌, ◌≡◌, refl, ap, ◌&&◌, none, some, List, [], ◌∷◌, arith, ltb, leb, ◌==◌,
  if◌then◌else◌, length, get_elem?, get_or, set, take,
}
use event_stream_core.EventPool.{Pointer, pooled, heap, indices_from}

abbrev pub hit : ℕ → ℕ → ℕ
hit x i = if x == i then 1 else 0

abbrev pub count : ℕ → List ℕ → ℕ
count i [] = 0
count i (x ∷ xs) = hit x i + count i xs

-- The places of the pool among the objects that are held.
abbrev pub places : List Pointer → List ℕ
places [] = []
places (pooled i ∷ ps) = i ∷ places ps
places (heap n ∷ ps) = places ps

abbrev pub remove_at : ℕ → List Pointer → List Pointer
remove_at n [] = []
remove_at zero (p ∷ ps) = ps
remove_at (suc n) (p ∷ ps) = p ∷ remove_at n ps

pub count-take-suc :
    (k i : ℕ) (xs : List ℕ)
    → k < length xs
    → count i (take (suc k) xs) ≡ count i (take k xs) + (if get_or xs k 0 == i then 1 else 0)
count-take-suc k i [] h = absurd (omega arith)
count-take-suc zero i (x ∷ xs) h = omega arith
count-take-suc (suc k) i (x ∷ xs) h = omega (arith, count-take-suc k i xs (omega arith))

pub take-set : (k v : ℕ) (xs : List ℕ) → take k (set xs k v) ≡ take k xs
take-set zero v xs = refl
take-set (suc k) v [] = refl
take-set (suc k) v (x ∷ xs) = ap (λ l. x ∷ l) (take-set k v xs)

pub count-indices_from :
    (n i j : ℕ) → count j (indices_from n i) ≡ (if leb i j && ltb j (i + n) then 1 else 0)
count-indices_from zero i j = ground arith
count-indices_from (suc n) i j = ground (arith, count-indices_from n (i + 1) j)

pub length-indices_from : (n i : ℕ) → length (indices_from n i) ≡ n
length-indices_from zero i = refl
length-indices_from (suc n) i = ap suc (length-indices_from n (i + 1))

pub remove_at-pooled :
    (n i j : ℕ) (ps : List Pointer)
    → get_elem? ps n ≡ some (pooled i)
    → (count j (places ps) ≡ count j (places (remove_at n ps)) + (if i == j then 1 else 0))
      × (length (places ps) ≡ suc (length (places (remove_at n ps))))
remove_at-pooled n i j [] h = cc
remove_at-pooled zero i j (pooled k ∷ ps) h = ground arith
remove_at-pooled zero i j (heap k ∷ ps) h = cc
remove_at-pooled (suc n) i j (pooled k ∷ ps) h = ground (arith, remove_at-pooled n i j ps h)
remove_at-pooled (suc n) i j (heap k ∷ ps) h = remove_at-pooled n i j ps h

pub remove_at-heap :
    (n m : ℕ) (ps : List Pointer)
    → get_elem? ps n ≡ some (heap m)
    → places (remove_at n ps) ≡ places ps
remove_at-heap n m [] h = cc
remove_at-heap zero m (pooled k ∷ ps) h = cc
remove_at-heap zero m (heap k ∷ ps) h = refl
remove_at-heap (suc n) m (pooled k ∷ ps) h = ap (λ l. k ∷ l) (remove_at-heap n m ps h)
remove_at-heap (suc n) m (heap k ∷ ps) h = remove_at-heap n m ps h

pub remove_at-none : (n : ℕ) (ps : List Pointer) → get_elem? ps n ≡ none → remove_at n ps ≡ ps
remove_at-none n [] h = refl
remove_at-none zero (p ∷ ps) h = cc
remove_at-none (suc n) (p ∷ ps) h = ap (λ l. p ∷ l) (remove_at-none n ps h)
