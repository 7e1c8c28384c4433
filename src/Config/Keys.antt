-- ===== src/Config/Keys.antt =====
-- The value at one key of the YAML file.
use event_stream_core.Common.{◌≡◌, refl, Bool, true, false, not, Option, none, some, Bytes}
use event_stream_core.Config.{
  ℤ, negsuc, missing_key, Loading, thrown, loaded, or_throw, throw_if, ◌>>=◌, Yaml,
}
use event_stream_core.Config.Load.{string_at, int_at, flag_at, node_number_at, validate_node_exists}

-- A step that did not throw, and what follows it.
pub bound :
    {A B : Type 0} (m : Loading A) (rest : A → Loading B) {b : B}
    → (m >>= rest) ≡ loaded b
    → (a : A) × (m ≡ loaded a) × (rest a ≡ loaded b)
bound (thrown e) rest h = cc
bound (loaded a) rest h = (a, refl, h)

pub loaded_same : {A : Type 0} {a b : A} → loaded a ≡ loaded b → a ≡ b
loaded_same h = cc

pub not_thrown : {A : Type 0} (o : Option A) {a : A} → or_throw o ≡ loaded a → o ≡ some a
not_thrown none h = cc
not_thrown (some a) h = cc

module _ {N : Type 0} (y : Yaml N) where
  open y use {child, is_defined, as_string, as_int, as_bool_or, as_int_or, elements}

  -- The value at a key of a node: a text and a number that must be there, a flag that is false and a
  -- number that is -1 where the value cannot be read.
  abbrev pub StringAt : N → Bytes → Bytes → Type 0
  StringAt node key s = (n : N) × (child node key ≡ some n) × (as_string n ≡ some s)

  abbrev pub IntAt : N → Bytes → ℤ → Type 0
  IntAt node key i = (n : N) × (child node key ≡ some n) × (as_int n ≡ some i)

  abbrev pub FlagAt : N → Bytes → Bool → Type 0
  FlagAt node key b = (n : N) × (child node key ≡ some n) × (as_bool_or n false ≡ b)

  abbrev pub NodeNumberAt : N → Bytes → ℤ → Type 0
  NodeNumberAt node key i = (n : N) × (child node key ≡ some n) × (as_int_or n (negsuc 0) ≡ i)

  -- A key that must be defined.
  abbrev pub IsThere : N → Bytes → Type 0
  IsThere node key = (n : N) × (child node key ≡ some n) × (is_defined n ≡ true)

  pub string_at-StringAt :
      (node : N) (key s : Bytes) → string_at y node key ≡ loaded s → StringAt node key s
  unfolding string_at
  string_at-StringAt node key s h =
      let (n, there, read) = bound (or_throw (child node key)) _ h in
      (n, not_thrown _ there, not_thrown _ read)

  pub int_at-IntAt :
      (node : N) (key : Bytes) (i : ℤ) → int_at y node key ≡ loaded i → IntAt node key i
  unfolding int_at
  int_at-IntAt node key i h =
      let (n, there, read) = bound (or_throw (child node key)) _ h in
      (n, not_thrown _ there, not_thrown _ read)

  pub flag_at-FlagAt :
      (node : N) (key : Bytes) (b : Bool) → flag_at y node key ≡ loaded b → FlagAt node key b
  unfolding flag_at
  flag_at-FlagAt node key b h =
      let (n, there, read) = bound (or_throw (child node key)) _ h in
      (n, not_thrown _ there, loaded_same read)

  pub node_number_at-NodeNumberAt :
      (node : N) (key : Bytes) (i : ℤ)
      → node_number_at y node key ≡ loaded i
      → NodeNumberAt node key i
  unfolding node_number_at
  node_number_at-NodeNumberAt node key i h =
      let (n, there, read) = bound (or_throw (child node key)) _ h in
      (n, not_thrown _ there, loaded_same read)

  pub validate_node_exists-IsThere :
      (node : N) (key : Bytes) (u : Unit)
      → validate_node_exists y node key ≡ loaded u
      → IsThere node key
  unfolding validate_node_exists
  validate_node_exists-IsThere node key u h =
      let (n, there, checked) = bound (or_throw (child node key)) _ h in
      (n, not_thrown _ there, defined (is_defined n) checked)
    where
      defined : (b : Bool) → throw_if (not b) (missing_key key) ≡ loaded u → b ≡ true
      defined true e = refl
      defined false e = cc
