-- ===== src/Config/Checked.antt =====
-- Which configurations `loadConfig` returns.
use event_stream_core.Common.{
  ◌≤◌, ◌<◌, ◌≡◌, refl, ap, ap₂, subst, ◌∙◌, ◌↔◌, ◌⊎◌, inl, inr, Bool, true, false, not, ◌&&◌, ◌||◌,
  Option, none, some, arith, leb, Bool-cases, length, Bytes, codes, bytes_eq, bytes_eq_self,
  bytes_eq→eq,
}
use event_stream_core.Config.{
  ℤ, pos, negsuc, is_positive, is_negative, AppConfiguration, LoadError, invalid_port_number,
  invalid_file_ingestion, invalid_info_router, invalid_rule_engine, unsupported_storage,
  invalid_python, Loading, loaded, thrown, ◌>>=◌, ◌>>◌, throw_if, Yaml, bad_port, unsupported,
  validate,
}
use event_stream_core.Config.Load.{read_config, load_config}
use event_stream_core.Config.Reading.{ConfigAt, read_config-ConfigAt}

abbrev pub IsPort : ℤ → Type 0
IsPort (pos n) = (0 < n) × (n ≤ 65535)
IsPort (negsuc n) = ⊥

abbrev pub IsPositive : ℤ → Type 0
IsPositive (pos n) = 0 < n
IsPositive (negsuc n) = ⊥

abbrev pub IsNatural : ℤ → Type 0
IsNatural (pos n) = Unit
IsNatural (negsuc n) = ⊥

-- What the rest of the program may rely on.
pub record IsChecked (c : AppConfiguration) : Type 0 where
  pub tcp_port : IsPort c.tcp_config.port
  pub udp_port : IsPort c.udp_config.port
  pub file_path : c.file_config.enable ≡ true → 0 < length c.file_config.path
  pub shards : IsPositive c.router.shards
  pub router_buffer : IsPositive c.router.buffer_size
  pub threads : IsPositive c.rule_engine.threads
  pub cache : IsNatural c.rule_engine.cache_size
  pub backend : (c.storage.backend ≡ codes "sqlite") ⊎ (c.storage.backend ≡ codes "filesystem")
  pub script : c.python.enable ≡ true → 0 < length c.python.script_path

passes :
    (b : Bool) (e : LoadError) {A : Type 0} (k : Loading A) {a : A}
    → (throw_if b e >> k) ≡ loaded a
    → (b ≡ false) × (k ≡ loaded a)
passes true e k h = cc
passes false e k h = (refl, h)

bad_port-IsPort : (p : ℤ) → bad_port p ≡ false → IsPort p
bad_port-IsPort (pos n) h = ground arith
bad_port-IsPort (negsuc n) h = cc

IsPort-bad_port : (p : ℤ) → IsPort p → bad_port p ≡ false
IsPort-bad_port (pos n) h = ground arith
IsPort-bad_port (negsuc n) h = absurd h

is_positive-IsPositive : (n : ℤ) → not (is_positive n) ≡ false → IsPositive n
is_positive-IsPositive (pos n) h = ground arith
is_positive-IsPositive (negsuc n) h = cc

IsPositive-is_positive : (n : ℤ) → IsPositive n → not (is_positive n) ≡ false
IsPositive-is_positive (pos n) h = ground arith
IsPositive-is_positive (negsuc n) h = absurd h

is_negative-IsNatural : (n : ℤ) → is_negative n ≡ false → IsNatural n
is_negative-IsNatural (pos n) h = tt
is_negative-IsNatural (negsuc n) h = cc

IsNatural-is_negative : (n : ℤ) → IsNatural n → is_negative n ≡ false
IsNatural-is_negative (pos n) h = refl
IsNatural-is_negative (negsuc n) h = absurd h

or_false : (a b : Bool) → (a || b) ≡ false → (a ≡ false) × (b ≡ false)
or_false false false h = (refl, refl)
or_false true b h = cc
or_false false true h = cc

false_or : (a b : Bool) → a ≡ false → b ≡ false → (a || b) ≡ false
false_or a b h k = ground arith

nonempty :
    (enable : Bool) (path : Bytes)
    → (enable && leb (length path) 0) ≡ false
    → enable ≡ true
    → 0 < length path
nonempty enable path h on = ground arith

nonempty_passes :
    (enable : Bool) (path : Bytes)
    → (enable ≡ true → 0 < length path)
    → (enable && leb (length path) 0) ≡ false
nonempty_passes true path h = let l = h refl in ground arith
nonempty_passes false path h = refl

supported :
    (backend : Bytes)
    → unsupported backend ≡ false
    → (backend ≡ codes "sqlite") ⊎ (backend ≡ codes "filesystem")
supported backend h = elim (Bool-cases (bytes_eq backend (codes "sqlite"))) [
  | inl e ↦ inl (bytes_eq→eq backend (codes "sqlite") e)
  | inr n ↦ inr (bytes_eq→eq backend (codes "filesystem") (ground arith))
]

supported_passes :
    (backend : Bytes)
    → (backend ≡ codes "sqlite") ⊎ (backend ≡ codes "filesystem")
    → unsupported backend ≡ false
supported_passes backend (inl e) =
    ap (λ b. not b && not (bytes_eq backend (codes "filesystem")))
      (ap (λ b. bytes_eq b (codes "sqlite")) e ∙ bytes_eq_self (codes "sqlite"))
supported_passes backend (inr e) =
    ground (arith, ap (λ b. bytes_eq b (codes "filesystem")) e, bytes_eq_self (codes "filesystem"))

validate-IsChecked :
    (c : AppConfiguration) {d : AppConfiguration} → validate c ≡ loaded d → (c ≡ d) × IsChecked c
unfolding validate
validate-IsChecked c h =
    let (tcp, h1) = passes (bad_port c.tcp_config.port) invalid_port_number _ h in
    let (udp, h2) = passes (bad_port c.udp_config.port) invalid_port_number _ h1 in
    let (file, h3) = passes _ invalid_file_ingestion _ h2 in
    let (router, h4) = passes _ invalid_info_router _ h3 in
    let (rules, h5) = passes _ invalid_rule_engine _ h4 in
    let (backend, h6) = passes (unsupported c.storage.backend) unsupported_storage _ h5 in
    let (python, h7) = passes _ invalid_python _ h6 in
    let (shards, buffers) =
      or_false (not (is_positive c.router.shards)) (not (is_positive c.router.buffer_size))
        router in
    let (threads, cache) =
      or_false (not (is_positive c.rule_engine.threads)) (is_negative c.rule_engine.cache_size)
        rules in
    (
      cc,
      record {
        tcp_port = bad_port-IsPort c.tcp_config.port tcp;
        udp_port = bad_port-IsPort c.udp_config.port udp;
        file_path = nonempty c.file_config.enable c.file_config.path file;
        shards = is_positive-IsPositive c.router.shards shards;
        router_buffer = is_positive-IsPositive c.router.buffer_size buffers;
        threads = is_positive-IsPositive c.rule_engine.threads threads;
        cache = is_negative-IsNatural c.rule_engine.cache_size cache;
        backend = supported c.storage.backend backend;
        script = nonempty c.python.enable c.python.script_path python;
      },
    )

skips :
    {b : Bool} (e : LoadError) {A : Type 0} (k : Loading A) → b ≡ false → (throw_if b e >> k) ≡ k
skips e k h = ap (λ b. throw_if b e >> k) h

IsChecked-validate : (c : AppConfiguration) → IsChecked c → validate c ≡ loaded c
unfolding validate
IsChecked-validate c h =
    skips invalid_port_number _ (IsPort-bad_port c.tcp_config.port h.tcp_port)
    ∙ skips invalid_port_number _ (IsPort-bad_port c.udp_config.port h.udp_port)
    ∙ skips invalid_file_ingestion _
        (nonempty_passes c.file_config.enable c.file_config.path h.file_path)
    ∙ skips invalid_info_router _ (
        false_or (not (is_positive c.router.shards)) (not (is_positive c.router.buffer_size))
          (IsPositive-is_positive c.router.shards h.shards)
          (IsPositive-is_positive c.router.buffer_size h.router_buffer))
    ∙ skips invalid_rule_engine _ (
        false_or (not (is_positive c.rule_engine.threads)) (is_negative c.rule_engine.cache_size)
          (IsPositive-is_positive c.rule_engine.threads h.threads)
          (IsNatural-is_negative c.rule_engine.cache_size h.cache))
    ∙ skips unsupported_storage _ (supported_passes c.storage.backend h.backend)
    ∙ skips invalid_python _ (nonempty_passes c.python.enable c.python.script_path h.script)

module _ {N : Type 0} (y : Yaml N) (exists : Bool) (root : Option N) (c : AppConfiguration) where
  -- What it takes for a configuration to be returned.
  abbrev pub IsLoaded : Type 0
  IsLoaded =
      (exists ≡ true)
      × (node : N) × (root ≡ some node)
      × (read_config y node ≡ loaded c)
      × ConfigAt y node c
      × IsChecked c

  after_validate :
      (node : N) (r : Loading AppConfiguration)
      → read_config y node ≡ r
      → (r >>= validate) ≡ loaded c
      → (read_config y node ≡ loaded c) × IsChecked c
  after_validate node (thrown e) read h = cc
  after_validate node (loaded d) read h =
      let (same, checked) = validate-IsChecked d h in
      (read ∙ ap (λ x. loaded x) same, subst IsChecked same checked)

  load-IsLoaded :
      (b : Bool) (r : Option N) → exists ≡ b → root ≡ r → load_config y b r ≡ loaded c → IsLoaded
  unfolding load_config
  load-IsLoaded true (some node) e f h =
      let (read, checked) = after_validate node (read_config y node) refl h in
      (e, node, f, read, read_config-ConfigAt y node c read, checked)
  load-IsLoaded true none e f h = cc
  load-IsLoaded false r e f h = cc

  IsLoaded-load : IsLoaded → load_config y exists root ≡ loaded c
  unfolding load_config
  IsLoaded-load (e, node, f, read, _, checked) =
      ap₂ (λ b r. load_config y b r) e f
      ∙ ap (λ r. r >>= validate) read
      ∙ IsChecked-validate c checked

  -- `loadConfig` returns a configuration exactly when the file is there and is YAML, reading its sections
  -- throws nothing, and the values are in order: ports from 1 to 65535, a path where reading files is
  -- enabled, at least one shard, thread and place in the router's buffer, a cache of no negative size,
  -- one of the two storage backends, and a script where Python is enabled. It returns what it read,
  -- unchanged: each value stands in the file at its own key, in a section that is there, or is the
  -- default of a part that is missing, and the keys that must be defined are.
  pub load_config_lem : (load_config y exists root ≡ loaded c) ↔ IsLoaded
  load_config_lem = (load-IsLoaded exists root refl refl, IsLoaded-load)
