-- ===== src/Config/Parts.antt =====
-- The sections that must be defined, the parts that may be missing, and the plugins.
use event_stream_core.Common.{
  ◌≡◌, refl, sym, subst, ◌∙◌, ◌⊎◌, inl, inr, Bool, true, false, some, List, [], ◌∷◌, if◌then◌else◌,
  Bytes, codes,
}
use event_stream_core.Config.{Loading, loaded, or_throw, ◌>>=◌, Yaml}
use event_stream_core.Config.Load.{
  validate_node_exists, section, plugin_names, when_defined, parse_plugins,
}
use event_stream_core.Config.Keys.{bound, loaded_same, not_thrown, validate_node_exists-IsThere}

module _ {N : Type 0} (y : Yaml N) where
  open y use {child, is_defined, as_string, elements}

  -- A section that must be defined.
  abbrev pub SectionAt : N → Bytes → N → Type 0
  SectionAt node key n = (child node key ≡ some n) × (is_defined n ≡ true)

  pub section-SectionAt :
      (node : N) (key : Bytes) (n : N) → section y node key ≡ loaded n → SectionAt node key n
  section-SectionAt node key n h =
      let (u, checked, read) = bound (validate_node_exists y node key) _ h in
      let (m, there, defined) = validate_node_exists-IsThere y node key u checked in
      let found = not_thrown (child node key) read in
      (found, subst (λ x. is_defined x ≡ true) (some_same (sym there ∙ found)) defined)
    where
      some_same : {a b : N} → some a ≡ some b → a ≡ b
      some_same e = cc

  -- A part that may be missing, with what stands for it.
  abbrev pub PartAt : {A : Type 0} → N → (N → A → Type 0) → A → A → Type 0
  PartAt node P default a =
      ((is_defined node ≡ true) × P node a) ⊎ ((is_defined node ≡ false) × (a ≡ default))

  pub when_defined-PartAt :
      {A : Type 0} (node : N) (P : N → A → Type 0) (default : A) (parse : N → Loading A) (a : A)
      → ((n : N) → parse n ≡ loaded a → P n a)
      → when_defined y node default parse ≡ loaded a
      → PartAt node P default a
  when_defined-PartAt node P default parse a reads h = chosen (is_defined node) refl h
    where
      chosen :
          (b : Bool)
          → is_defined node ≡ b
          → (if b then parse node else loaded default) ≡ loaded a
          → PartAt node P default a
      chosen true e k = inl (e, reads node k)
      chosen false e k = inr (e, sym (loaded_same k))

  abbrev pub NamesAt : List N → List Bytes → Type 0
  NamesAt [] names = names ≡ []
  NamesAt (n ∷ ns) names =
      (name : Bytes) × (rest : List Bytes) × (names ≡ name ∷ rest)
      × (as_string n ≡ some name)
      × NamesAt ns rest

  plugin_names-NamesAt :
      (ns : List N) (names : List Bytes) → plugin_names y ns ≡ loaded names → NamesAt ns names
  unfolding plugin_names
  plugin_names-NamesAt [] names h = sym (loaded_same h)
  plugin_names-NamesAt (n ∷ ns) names h =
      let (name, first, h1) = bound (or_throw (as_string n)) _ h in
      let (rest, others, h2) = bound (plugin_names y ns) _ h1 in
      (name, rest, sym (loaded_same h2), not_thrown _ first, plugin_names-NamesAt ns rest others)

  abbrev pub LoadAt : N → List Bytes → Type 0
  LoadAt node names =
      (l : N) × (child node (codes "load") ≡ some l)
      × PartAt l (λ n ns. NamesAt (elements n) ns) [] names

  abbrev pub PluginsAt : N → List Bytes → Type 0
  PluginsAt root names =
      (p : N) × (child root (codes "plugins") ≡ some p) × PartAt p LoadAt [] names

  pub parse_plugins-PluginsAt :
      (root : N) (names : List Bytes) → parse_plugins y root ≡ loaded names → PluginsAt root names
  unfolding parse_plugins
  parse_plugins-PluginsAt root names h =
      let (p, there, h1) = bound (or_throw (child root (codes "plugins"))) _ h in
      (
        p,
        not_thrown _ there,
        when_defined-PartAt p LoadAt []
            (λ n. or_throw (child n (codes "load")) >>= λ loads.
              when_defined y loads [] (λ l. plugin_names y (elements l)))
            names
            (λ n k.
              let (l, found, k1) =
                bound (or_throw (child n (codes "load")))
                  (λ loads. when_defined y loads [] (λ l. plugin_names y (elements l))) k in
              (
                l,
                not_thrown _ found,
                when_defined-PartAt l (λ m ns. NamesAt (elements m) ns) []
                    (λ m. plugin_names y (elements m)) names
                    (λ m. plugin_names-NamesAt (elements m) names) k1,
              ))
            h1,
      )
