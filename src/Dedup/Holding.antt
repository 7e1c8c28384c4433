-- ===== src/Dedup/Holding.antt =====
-- An entry stays in its bucket while entries are added at the front and old ones are removed.
use event_stream_core.Common.{
  ℕ, zero, suc, ◌+◌, ◌%◌, ◌≤◌, ◌<◌, ◌≡◌, refl, sym, ap, subst, ◌∙◌, ◌≢◌, ◌⊎◌, inl, inr, Bool, true,
  List, [], ◌∷◌, ◌++◌, arith, ◌==◌, ==→eq, ==_self, Bool-cases, length, get_or, set, length-set,
  get_or-set_self, get_or-set_ne,
}
use event_stream_core.Dedup.{
  idempotent_window_ms, Entry, Deduplicator, in_chain, bucket_of, chain_at, set_chain,
  compare_exchange, insert_attempts, is_expired, clean_chain, clean_chains, cleanup,
}
use event_stream_core.Dedup.Chains.{live, clean_chain-live}

abbrev pub Seen : ℕ → ℕ → List Entry → Type 0
Seen id t [] = ⊥
Seen id t (e ∷ es) = ((e.id ≡ id) × (e.timestamp_ms ≡ t)) ⊎ Seen id t es

-- The id stands in its bucket, with its time.
abbrev pub Holds : ℕ → ℕ → Deduplicator → Type 0
Holds id t d = Seen id t (chain_at d (bucket_of d id))

pub in_chain-Seen : (id t : ℕ) (es : List Entry) → Seen id t es → in_chain id es ≡ true
unfolding in_chain
in_chain-Seen id t [] s = absurd s
in_chain-Seen id t (e ∷ es) (inl (same, _)) = ground (arith, ==_self id)
in_chain-Seen id t (e ∷ es) (inr s) = ground (arith, in_chain-Seen id t es s)

Seen-append : (id t : ℕ) (xs es : List Entry) → Seen id t es → Seen id t (xs ++ es)
Seen-append id t [] es s = s
Seen-append id t (x ∷ xs) es s = inr (Seen-append id t xs es s)

live-Seen :
    (now id t : ℕ) (es : List Entry)
    → now ≤ t + idempotent_window_ms
    → Seen id t es
    → Seen id t (live now es)
live-Seen now id t [] within s = absurd s
live-Seen now id t (e ∷ es) within s = elim (Bool-cases (is_expired now e)) [
  | inl gone ↦ rw gone (elim s [
    | inl (_, at) ↦ absurd (ground arith)
    | inr later ↦ live-Seen now id t es within later
  ])
  | inr kept ↦
      rw kept
        (elim s [ inl here ↦ inl here | inr later ↦ inr (live-Seen now id t es within later) ])
]

eq_cases : (i j : ℕ) → (i ≡ j) ⊎ (i ≢ j)
eq_cases i j = elim (Bool-cases (i == j)) [
  | inl e ↦ inl (==→eq i j e)
  | inr e ↦ inr (λ h. let same = ==_self i in cc)
]

-- A bucket that grows at its head.
grow-Holds :
    (id t j : ℕ) (xs : List Entry) (d : Deduplicator)
    → j < length d.buckets
    → Holds id t d
    → Holds id t (set_chain d j (xs ++ chain_at d j))
grow-Holds id t j xs d inside s =
    let same_length = length-set d.buckets j (xs ++ chain_at d j) in
    let i = bucket_of d id in
    subst (λ n. Seen id t (get_or (set d.buckets j (xs ++ chain_at d j)) (id % n) []))
      (sym same_length)
      (elim (eq_cases j i) [
        | inl e ↦
            subst (λ k. Seen id t (get_or (set d.buckets j (xs ++ chain_at d j)) k [])) e
              (subst (Seen id t) (sym (get_or-set_self d.buckets j _ [] inside)) (
                Seen-append id t xs (chain_at d j)
                  (subst (λ k. Seen id t (chain_at d k)) (sym e) s)))
        | inr ne ↦ subst (Seen id t) (sym (get_or-set_ne d.buckets _ [] ne)) s
      ])

pub bucket_of-lt :
    (d : Deduplicator) (id : ℕ) → 0 < length d.buckets → bucket_of d id < length d.buckets
bucket_of-lt d id positive = omega arith

-- Buckets of a fixed number, and the entry still there.
abbrev pub Stands : ℕ → ℕ → ℕ → Deduplicator → Type 0
Stands n id t d = (length d.buckets ≡ n) × Holds id t d

compare_exchange-Stands :
    (n id t : ℕ) (xs : List Entry) (done retry : Deduplicator × Bool)
    → Stands n id t done.0
    → Stands n id t retry.0
    → Stands n id t (compare_exchange xs done retry).0
unfolding compare_exchange
compare_exchange-Stands n id t [] done retry a b = a
compare_exchange-Stands n id t (x ∷ xs) done retry a b = b

pub insert_attempts-Stands :
    (left : ℕ) (races : ℕ → List Entry) (entry : Entry) (n id t : ℕ) (d : Deduplicator)
    → 0 < n
    → Stands n id t d
    → Stands n id t (insert_attempts left races entry d).0
unfolding insert_attempts
insert_attempts-Stands zero races entry n id t d positive (len, s) = (len, s)
insert_attempts-Stands (suc left) races entry n id t d positive (len, s) =
    let i = bucket_of d entry.id in
    let head = chain_at d i in
    let inside : i < length d.buckets = bucket_of-lt d entry.id (omega arith) in
    let grown : (xs : List Entry) → Stands n id t (set_chain d i (xs ++ head)) =
      λ xs. (length-set d.buckets i (xs ++ head) ∙ len, grow-Holds id t i xs d inside s) in
    elim (Bool-cases (in_chain entry.id head)) [
      | inl dup ↦ rw dup (len, s)
      | inr new ↦ rw new (
          compare_exchange-Stands n id t (races left) _ _ (grown (entry ∷ []))
            (insert_attempts-Stands left races entry n id t _ positive (grown (races left))))
    ]

pub get_or-clean_chains :
    (now : ℕ) (chains : List (List Entry)) (i : ℕ)
    → get_or (clean_chains now chains).0 i [] ≡ (clean_chain now (get_or chains i [])).0
unfolding clean_chains
get_or-clean_chains now [] i = sym (clean_chain-live now [])
get_or-clean_chains now (chain ∷ chains) zero = refl
get_or-clean_chains now (chain ∷ chains) (suc i) = get_or-clean_chains now chains i

pub length-clean_chains :
    (now : ℕ) (chains : List (List Entry)) → length (clean_chains now chains).0 ≡ length chains
unfolding clean_chains
length-clean_chains now [] = refl
length-clean_chains now (chain ∷ chains) = ap suc (length-clean_chains now chains)

pub cleanup-Stands :
    (now n id t : ℕ) (d : Deduplicator)
    → now ≤ t + idempotent_window_ms
    → Stands n id t d
    → Stands n id t (cleanup now d).0
unfolding cleanup
cleanup-Stands now n id t d within (len, s) =
    let same_length = length-clean_chains now d.buckets in
    (
      same_length ∙ len,
      subst (λ k. Seen id t (get_or (clean_chains now d.buckets).0 (id % k) [])) (sym same_length)
          (subst (Seen id t)
            (sym (
              get_or-clean_chains now d.buckets (bucket_of d id)
              ∙ clean_chain-live now (chain_at d (bucket_of d id))))
            (live-Seen now id t (chain_at d (bucket_of d id)) within s)),
    )
