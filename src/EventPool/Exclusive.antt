-- ===== src/EventPool/Exclusive.antt =====
-- Every object of the pool has at most one holder.
use event_stream_core.Common.{
  ℕ, suc, ◌+◌, ◌-◌, ◌<◌, ◌≡◌, refl, sym, ap, subst, ◌∙◌, Bool, true, false, Option, none, some,
  List, [], ◌∷◌, arith, ltb, leb, ◌==◌, if◌then◌else◌, length, get_elem?, get_or, set, take,
  length-set, take_all, get_or-set_self,
}
use event_stream_core.EventPool.{
  Pointer, pooled, heap, EventPool, indices_from, new_pool, acquire, delete, give_back, release,
  available,
}
use event_stream_core.EventPool.Places.{
  hit, count, places, remove_at, count-take-suc, take-set, count-indices_from, length-indices_from,
  remove_at-pooled, remove_at-heap, remove_at-none,
}

-- What the owner of the pool does: take an object, or release one of those it holds.
pub data Use : Type 0 where
  acquires : Use
  releases : ℕ → Use

module _ (capacity : ℕ) where
  -- Each place is free or held, and once.
  pub record IsValid (p : EventPool) (held : List Pointer) : Type 0 where
    pub whole : length p.free_list ≡ capacity
    pub accounted : p.available_count + length (places held) ≡ capacity
    pub once :
        (i : ℕ)
        → count i (take p.available_count p.free_list) + count i (places held)
          ≡ (if ltb i capacity then 1 else 0)
    pub none_deleted : places p.deleted ≡ []

  new_pool-IsValid : IsValid (new_pool capacity) []
  unfolding new_pool
  new_pool-IsValid = record {
    whole = length-indices_from capacity 0;
    accounted = omega arith;
    once = λ i. omega (
      arith,
      ap (λ l. count i l)
          (take_all capacity (indices_from capacity 0)
            (omega (arith, length-indices_from capacity 0))),
      all_once i,
    );
    none_deleted = refl;
  }
    where
      all_once : (i : ℕ) → count i (indices_from capacity 0) ≡ (if ltb i capacity then 1 else 0)
      all_once i = ground (arith, count-indices_from capacity 0 i)

  unfoldable pub use_pool : Use → EventPool → List Pointer → EventPool × List Pointer
  use_pool acquires p held = let (p', obj) = acquire capacity p in (p', obj ∷ held)
  use_pool (releases n) p held = (release capacity (get_elem? held n) p, remove_at n held)

  -- After an `acquire`, its object is held too.
  abbrev Holds : List Pointer → EventPool × Pointer → Type 0
  Holds held (p, obj) = IsValid p (obj ∷ held)

  acquire-IsValid :
      (p : EventPool) (held : List Pointer) → IsValid p held → Holds held (acquire capacity p)
  unfolding acquire
  acquire-IsValid p held v = either (p.available_count == 0) refl
    where
      k : ℕ
      k = p.available_count - 1

      fewer :
          p.available_count ≡ suc k
          → IsValid (record p { available_count = k }) (pooled (get_or p.free_list k 0) ∷ held)
      fewer e = record {
        whole = v.whole;
        accounted = omega (arith, v.accounted);
        once = λ i. omega (
          arith,
          v.once i,
          ap (λ n. count i (take n p.free_list)) e,
          count-take-suc k i p.free_list (omega (arith, v.whole, v.accounted)),
        );
        none_deleted = v.none_deleted;
      }

      either :
          (b : Bool)
          → (p.available_count == 0) ≡ b
          → Holds held (
              if b
              then (record p { next_heap = p.next_heap + 1 }, heap p.next_heap)
              else (record p { available_count = k }, pooled (get_or p.free_list k 0)))
      either true e = record {
        whole = v.whole;
        accounted = v.accounted;
        once = v.once;
        none_deleted = v.none_deleted;
      }
      either false e = fewer (ground arith)

  give_back-IsValid :
      (i n : ℕ) (p : EventPool) (held : List Pointer)
      → get_elem? held n ≡ some (pooled i)
      → IsValid p held
      → p.available_count < capacity
      → i < capacity
      → IsValid
          (record p {
            free_list = set p.free_list p.available_count i;
            available_count = p.available_count + 1;
          })
          (remove_at n held)
  give_back-IsValid i n p held h v room in_ = record {
    whole = length-set p.free_list p.available_count i ∙ v.whole;
    accounted = omega (arith, v.accounted, (remove_at-pooled n i i held h).1);
    once = λ j.
        let list = set p.free_list p.available_count i in
        let added =
          count-take-suc p.available_count j list
            (omega (arith, length-set p.free_list p.available_count i, v.whole)) in
        let last = get_or-set_self p.free_list p.available_count i 0 (omega (arith, v.whole)) in
        let back : hit (get_or list p.available_count 0) j ≡ hit i j = ap (λ x. hit x j) last in
        omega (
          arith,
          v.once j,
          (remove_at-pooled n i j held h).0,
          added,
          back,
          ap (count j) (take-set p.available_count i p.free_list),
          ap (λ m. count j (take m list)) (add-one p.available_count),
        );
    none_deleted = v.none_deleted;
  }
    where
      add-one : (m : ℕ) → m + 1 ≡ suc m
      add-one m = omega arith

  count_held :
      (n i : ℕ) (held : List Pointer)
      → get_elem? held n ≡ some (pooled i)
      → 0 < count i (places held)
  count_held n i held h = ground (arith, (remove_at-pooled n i i held h).0)

  give_back_held :
      (i n : ℕ) (p : EventPool) (held : List Pointer)
      → get_elem? held n ≡ some (pooled i)
      → IsValid p held
      → IsValid (release capacity (some (pooled i)) p) (remove_at n held)
  unfolding release
  give_back_held i n p held h v =
      let in_ : i < capacity = ground (arith, v.once i, count_held n i held h) in
      let room : p.available_count < capacity =
        omega (arith, v.accounted, (remove_at-pooled n i i held h).1) in
      let spare : leb capacity p.available_count ≡ false = ground arith in
      let inside : leb capacity i ≡ false = ground arith in
      subst
        (λ b.
          IsValid (if b then delete capacity (pooled i) p else give_back capacity (pooled i) p)
            (remove_at n held))
        (sym spare)
        (subst
          (λ b.
            IsValid
              (if b then delete capacity (pooled i) p else record p {
                free_list = set p.free_list p.available_count i;
                available_count = p.available_count + 1;
              })
              (remove_at n held))
          (sym inside) (give_back-IsValid i n p held h v room in_))

  heap_deleted :
      (n m : ℕ) (p : EventPool) (held : List Pointer)
      → get_elem? held n ≡ some (heap m)
      → IsValid p held
      → IsValid (release capacity (some (heap m)) p) (remove_at n held)
  unfolding release
  heap_deleted n m p held h v = either (leb capacity p.available_count)
    where
      gone : IsValid (delete capacity (heap m) p) (remove_at n held)
      gone =
          let same = remove_at-heap n m held h in
          record {
            whole = v.whole;
            accounted = omega (arith, v.accounted, ap (λ (l : List ℕ). length l) same);
            once = λ i. omega (arith, v.once i, ap (count i) same);
            none_deleted = v.none_deleted;
          }

      either :
          (b : Bool)
          → IsValid
              (if b then delete capacity (heap m) p else delete capacity (heap m) p)
              (remove_at n held)
      either true = gone
      either false = gone

  release-IsValid :
      (n : ℕ) (o : Option Pointer) (p : EventPool) (held : List Pointer)
      → get_elem? held n ≡ o
      → IsValid p held
      → IsValid (release capacity o p) (remove_at n held)
  unfolding release
  release-IsValid n (some (pooled i)) p held h v = give_back_held i n p held h v
  release-IsValid n (some (heap m)) p held h v = heap_deleted n m p held h v
  release-IsValid n none p held h v = subst (IsValid p) (sym (remove_at-none n held h)) v

  use_pool-IsValid :
      (u : Use) (p : EventPool) (held : List Pointer)
      → IsValid p held
      → let (p', held') = use_pool u p held in IsValid p' held'
  unfolding use_pool
  use_pool-IsValid acquires p held v = acquire-IsValid p held v
  use_pool-IsValid (releases n) p held v = release-IsValid n (get_elem? held n) p held refl v

  abbrev pub run : List Use → EventPool → List Pointer → EventPool × List Pointer
  run [] p held = (p, held)
  run (u ∷ us) p held = let (p', held') = use_pool u p held in run us p' held'

  run-IsValid :
      (us : List Use) (p : EventPool) (held : List Pointer)
      → IsValid p held
      → let (p', held') = run us p held in IsValid p' held'
  run-IsValid [] p held v = v
  run-IsValid (u ∷ us) p held v =
      let (p', held') = use_pool u p held in run-IsValid us p' held' (use_pool-IsValid u p held v)

  -- After any sequence of acquisitions and of releases of objects that are held, each place of the
  -- pool is either free or held, exactly once: no object has two holders, none is lost, and
  -- `available` counts the free ones. No object of the pool was given to `delete`.
  pub run_lem :
      (us : List Use)
      → let (p, held) = run us (new_pool capacity) [] in
        (available capacity p + length (places held) ≡ capacity)
        × ((i : ℕ)
            → count i (take (available capacity p) p.free_list) + count i (places held)
              ≡ (if ltb i capacity then 1 else 0))
        × (places p.deleted ≡ [])
  unfolding available
  run_lem us =
      let v = run-IsValid us (new_pool capacity) [] new_pool-IsValid in
      (v.accounted, v.once, v.none_deleted)
