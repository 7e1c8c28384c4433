-- ===== src/Storage/Format.antt =====
-- The file of events read back: a reader of its records, which the program does not have.
use event_stream_core.Common.{
  ℕ, zero, suc, ◌+◌, ◌*◌, ◌/◌, ◌^◌, ◌≤◌, ◌<◌, ◌≡◌, refl, sym, ap, Option, none, some, List, [], ◌∷◌,
  ◌++◌, map, arith, ltb, if◌then◌else◌, length, take, drop, All, length-append, take-length,
  drop-length, Bytes, u32, u64,
}
use mathlib.Core.List.{append_assoc}
use event_stream_core.Event.{EventSourceType, source_value, Event}
use event_stream_core.Storage.{le_bytes, serialize}

-- What a record holds of an event.
pub record Stored : Type 0 where
  pub timestamp : ℕ
  pub source : ℕ
  pub id : ℕ
  pub topic : Bytes
  pub body : Bytes

unfoldable pub stored_of : Event → Stored
stored_of e = record {
  timestamp = e.header.timestamp;
  source = source_value e.header.source_type;
  id = e.header.id;
  topic = e.topic;
  body = e.body;
}

infixl 5 ◌>>=◌
abbrev ◌>>=◌ {ℓ κ} : {A : Type ℓ} {B : Type κ} → Option A → (A → Option B) → Option B
none >>= f = none
some a >>= f = f a

unfoldable pub le_value : Bytes → ℕ
le_value [] = 0
le_value (x ∷ xs) = x + 256 * le_value xs

unfoldable pub read_n : ℕ → Bytes → Option (Bytes × Bytes)
read_n n bytes = if ltb (length bytes) n then none else some (take n bytes, drop n bytes)

abbrev valued : Bytes × Bytes → ℕ × Bytes
valued (x, rest) = (le_value x, rest)

unfoldable pub read_le : ℕ → Bytes → Option (ℕ × Bytes)
read_le k bytes = read_n k bytes >>= λ p. some (valued p)

abbrev read_body : ℕ → ℕ → ℕ → Bytes × Bytes → Option (Stored × Bytes)
read_body timestamp source id (topic, bytes) = read_le 8 bytes >>= λ s. read_n s.0 s.1 >>= λ b.
    some
      (record { timestamp = timestamp; source = source; id = id; topic = topic; body = b.0 }, b.1)

unfoldable pub read_record : Bytes → Option (Stored × Bytes)
read_record bytes = read_le 8 bytes >>= λ t. read_le 1 t.1 >>= λ s.
    read_le 4 s.1 >>= λ i. read_le 4 i.1 >>= λ l. read_n l.0 l.1 >>= λ p. read_body t.0 s.0 i.0 p

-- The records up to the end of the file, on fuel; `none` if the last is cut short.
unfoldable pub read_records : ℕ → Bytes → Option (List Stored)
read_records zero bytes = none
read_records (suc fuel) [] = some []
read_records (suc fuel) (x ∷ bytes) =
    read_record (x ∷ bytes) >>= λ r. read_records fuel r.1 >>= λ rest. some (r.0 ∷ rest)

-- What the fields of an event are in memory.
pub record IsStorable (e : Event) : Type 0 where
  pub timestamp_fits : e.header.timestamp < 2 ^ 64
  pub id_fits : e.header.id < 2 ^ 32
  pub topic_fits : length e.topic < 2 ^ 32
  pub body_fits : length e.body < 2 ^ 64

abbrev bound : ℕ → ℕ
bound zero = 1
bound (suc k) = 256 * bound k

length-le_bytes : (k n : ℕ) → length (le_bytes k n) ≡ k
unfolding le_bytes
length-le_bytes zero n = refl
length-le_bytes (suc k) n = ap suc (length-le_bytes k (n / 256))

le_value-le_bytes : (k n : ℕ) → n < bound k → le_value (le_bytes k n) ≡ n
unfolding le_value le_bytes
le_value-le_bytes zero n h = omega arith
le_value-le_bytes (suc k) n h = omega (arith, le_value-le_bytes k (n / 256) (omega arith))

read_n-append : (n : ℕ) (xs ys : Bytes) → n ≡ length xs → read_n n (xs ++ ys) ≡ some (xs, ys)
unfolding read_n
read_n-append n xs ys h =
    ground (arith, length-append xs ys, take-length n xs ys h, drop-length n xs ys h)

read_le-le_bytes :
    (k n : ℕ) (ys : Bytes) → n < bound k → read_le k (le_bytes k n ++ ys) ≡ some (n, ys)
unfolding read_le
read_le-le_bytes k n ys h =
    rw (read_n-append k (le_bytes k n) ys (sym (length-le_bytes k n)))
      (ap (λ m. some (m, ys)) (le_value-le_bytes k n h))

source_value-lt : (s : EventSourceType) → source_value s < 256
source_value-lt EventSourceType.tcp = omega arith
source_value-lt EventSourceType.udp = omega arith
source_value-lt EventSourceType.file = omega arith
source_value-lt EventSourceType.internal = omega arith
source_value-lt EventSourceType.plugin = omega arith
source_value-lt EventSourceType.python = omega arith

read_le-one : (x : ℕ) (ys : Bytes) → read_le 1 (x ∷ ys) ≡ some (x, ys)
unfolding read_le read_n le_value
read_le-one x ys = ground arith

written_topic :
    (topic : Bytes)
    → length topic < 2 ^ 32
    → (if ltb 0 (u32 (length topic)) then topic else []) ≡ topic
written_topic [] h = refl
written_topic (c ∷ cs) h = ground arith

abbrev laid_out : Event → Bytes → Bytes
laid_out e rest =
    le_bytes 8 e.header.timestamp
    ++ (source_value e.header.source_type
        ∷ (le_bytes 4 e.header.id
            ++ (le_bytes 4 (length e.topic)
                ++ (e.topic ++ (le_bytes 8 (length e.body) ++ (e.body ++ rest))))))

serialize-append : (e : Event) (rest : Bytes) → IsStorable e → serialize e ++ rest ≡ laid_out e rest
unfolding serialize
serialize-append e rest h =
    let short : u32 (length e.topic) ≡ length e.topic = omega (arith, h.topic_fits) in
    let small : u64 (length e.body) ≡ length e.body = omega (arith, h.body_fits) in
    rw (written_topic e.topic h.topic_fits, short, small) (simp append_assoc)

read_record-serialize :
    (e : Event) (rest : Bytes)
    → IsStorable e
    → read_record (serialize e ++ rest) ≡ some (stored_of e, rest)
unfolding read_record stored_of
read_record-serialize e rest h = rw (
  serialize-append e rest h,
  read_le-le_bytes 8 e.header.timestamp _ h.timestamp_fits,
  read_le-one (source_value e.header.source_type) _,
  read_le-le_bytes 4 e.header.id _ h.id_fits,
  read_le-le_bytes 4 (length e.topic) _ h.topic_fits,
  read_n-append (length e.topic) e.topic _ refl,
  read_le-le_bytes 8 (length e.body) _ h.body_fits,
  read_n-append (length e.body) e.body rest refl,
)

-- The bytes of a list of records.
abbrev pub serialize_all : List Event → Bytes
serialize_all [] = []
serialize_all (e ∷ es) = serialize e ++ serialize_all es

some_length : (e : Event) (rest : Bytes) → suc (length rest) ≤ length (serialize e ++ rest)
unfolding serialize
some_length e rest = omega (
  arith,
  length-append (serialize e) rest,
  length-append (le_bytes 8 e.header.timestamp) _,
  length-le_bytes 8 e.header.timestamp,
)

read_records-cons :
    (fuel : ℕ) (bytes rest : Bytes) (s : Stored) (ss : List Stored)
    → read_record bytes ≡ some (s, rest)
    → length rest < length bytes
    → read_records fuel rest ≡ some ss
    → read_records (suc fuel) bytes ≡ some (s ∷ ss)
unfolding read_records
read_records-cons fuel [] rest s ss h l r = absurd (omega arith)
read_records-cons fuel (x ∷ bytes) rest s ss h l r = rw (h, r)

pub read_records-serialize_all :
    (fuel : ℕ) (es : List Event)
    → All IsStorable es
    → length es < fuel
    → read_records fuel (serialize_all es) ≡ some (map stored_of es)
unfolding read_records
read_records-serialize_all zero es h l = absurd (omega arith)
read_records-serialize_all (suc fuel) [] h l = refl
read_records-serialize_all (suc fuel) (e ∷ es) h l =
    read_records-cons fuel _ (serialize_all es) _ _ (read_record-serialize e (serialize_all es) h.0)
      (some_length e (serialize_all es)) (read_records-serialize_all fuel es h.1 (omega arith))
