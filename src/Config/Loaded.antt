-- ===== src/Config/Loaded.antt =====
-- What the rest of the program may rely on in a loaded Config.
use mathlib.Core.Path.{subst}
use binance_aggregator.Prelude.{
  ℕ, ◌≡◌, ◌≢◌, ◌≤◌, ◌<◌, refl, inl, inr, Bool, true, false, not, List, [], ◌∷◌, Option, none, some,
  Bytes, codes, arith, All, ltb, if◌then◌else◌, Bool-cases, Option-cases, ◌⊎◌,
}
use binance_aggregator.Json.{JsonLibrary}
use binance_aggregator.Config.{
  Result, ok, throws, ConfigError, ◌>>=◌, to_upper_ascii, all_valid, is_empty, Config,
  ReconnectConfig, require_field, parse_symbol, parse_items, nonempty_symbols, parse_symbols,
  parse_positive_u64, parse_required_string, optional_u64, parse_aggregator_threads, parse_jitter,
  parse_reconnect_object, parse_reconnect_config, parse_fields, parse_config_json, parse_document,
  load_from_file,
}

ok-bind :
    {A B : Type 0} (r : Result A) (f : A → Result B) (b : B)
    → (r >>= f) ≡ ok b
    → (a : A) × (r ≡ ok a) × (f a ≡ ok b)
ok-bind (ok a) f b h = (a, refl, h)
ok-bind (throws e) f b h = absurd (cc)

ok-throws_if :
    {A : Type 0} (c : Bool) (e : ConfigError) (r : Result A) (a : A)
    → (if c then throws e else r) ≡ ok a
    → (c ≡ false) × (r ≡ ok a)
ok-throws_if true e r a h = absurd (cc)
ok-throws_if false e r a h = (refl, h)

ok-injective : {A : Type 0} (a b : A) → ok a ≡ ok b → a ≡ b
ok-injective a b h = cc

-- A digit or a capital letter.
abbrev pub IsSymbolByte : ℕ → Type 0
IsSymbolByte c = ((b'0' ≤ c) × (c ≤ b'9')) ⊎ ((b'A' ≤ c) × (c ≤ b'Z'))

abbrev pub IsSymbol : Bytes → Type 0
IsSymbol s = (s ≢ []) × All IsSymbolByte s

module _ (lib : JsonLibrary) where
  -- What the stages of the program divide by, index with and wait for is there and positive, and
  -- the symbols are capitals and digits.
  pub record IsUsable (c : Config lib) : Type 0 where
    pub some_symbol : c.symbols ≢ []
    pub symbols_plain : All IsSymbol c.symbols
    pub window_positive : 0 < c.window_ms
    pub interval_positive : 0 < c.flush_interval_ms
    pub threads_positive : 0 < c.aggregator_threads
    pub output_named : c.output_file ≢ []
    pub host_named : c.ws_host ≢ []
    pub port_named : c.ws_port ≢ []
    pub backoff_positive : 0 < c.reconnect.initial_backoff_ms
    pub backoff_ordered : c.reconnect.initial_backoff_ms ≤ c.reconnect.max_backoff_ms
    pub jitter_low : lib.less_double c.reconnect.jitter_ratio lib.zero_point_zero ≡ false
    pub jitter_high : lib.less_double lib.one_point_zero c.reconnect.jitter_ratio ≡ false

  upper_bytes :
      (s : Bytes) → all_valid (to_upper_ascii s) ≡ true → All IsSymbolByte (to_upper_ascii s)
  unfolding all_valid to_upper_ascii
  upper_bytes [] h = tt
  upper_bytes (c ∷ s) h = (ground arith, upper_bytes s (ground arith))

  not_empty : (s : Bytes) → is_empty s ≡ false → s ≢ []
  not_empty [] h = absurd (cc)
  not_empty (c ∷ s) h = λ e. cc

  parse_symbol_ok : (item : lib.Json) (s : Bytes) → parse_symbol lib item ≡ ok s → IsSymbol s
  unfolding parse_symbol
  parse_symbol_ok item s h =
      let upper = to_upper_ascii (lib.get_string item) in
      let passed : (is_empty upper ≡ false) × (all_valid upper ≡ true) × (upper ≡ s) =
        ground arith in
      subst IsSymbol passed.2 (not_empty upper passed.0, upper_bytes (lib.get_string item) passed.1)

  positive_ok : (root : lib.Json) (f : Bytes) (n : ℕ) → parse_positive_u64 lib root f ≡ ok n → 0 < n
  unfolding parse_positive_u64
  positive_ok root f n h =
      let (value, _, checked) = ok-bind (require_field lib root f) _ n h in ground (arith, checked)

  optional_ok :
      (d : ℕ) (root : lib.Json) (f : Bytes) (n : ℕ)
      → 0 < d
      → optional_u64 lib d root f ≡ ok n
      → 0 < n
  unfolding optional_u64
  optional_ok d root f n p h = elim (Bool-cases (lib.contains root f)) [
    | inl there ↦ positive_ok root f n (rw there at h)
    | inr out ↦ subst (λ k. 0 < k) (ok-injective d n (rw out at h)) p
  ]

  string_ok : (root : lib.Json) (f s : Bytes) → parse_required_string lib root f ≡ ok s → s ≢ []
  unfolding parse_required_string
  string_ok root f s h =
      let (value, _, checked) = ok-bind (require_field lib root f) _ s h in
      let text = lib.get_string value in
      let passed : (is_empty text ≡ false) × (text ≡ s) = ground (arith, checked) in
      subst (λ x. x ≢ []) passed.1 (not_empty text passed.0)

  items_ok :
      (items : List lib.Json) (ss : List Bytes) → parse_items lib items ≡ ok ss → All IsSymbol ss
  unfolding parse_items
  items_ok [] ss h = subst (All IsSymbol) (ok-injective [] ss h) tt
  items_ok (item ∷ items) ss h =
      let (s, one, rest) = ok-bind (parse_symbol lib item) _ ss h in
      let (more, others, whole) = ok-bind (parse_items lib items) _ ss rest in
      subst (All IsSymbol) (ok-injective (s ∷ more) ss whole)
        (parse_symbol_ok item s one, items_ok items more others)

  nonempty_ok : (ss ts : List Bytes) → nonempty_symbols lib ss ≡ ok ts → (ss ≡ ts) × (ts ≢ [])
  unfolding nonempty_symbols
  nonempty_ok [] ts h = absurd (cc)
  nonempty_ok (s ∷ ss) ts h = let same_list = ok-injective (s ∷ ss) ts h in (same_list, λ e. cc)

  symbols_ok :
      (root : lib.Json) (ss : List Bytes)
      → parse_symbols lib root ≡ ok ss
      → (ss ≢ []) × All IsSymbol ss
  unfolding parse_symbols
  symbols_ok root ss h =
      let (value, _, checked) = ok-bind (require_field lib root (codes "symbols")) _ ss h in
      let (_, parsed) =
        ok-throws_if (not (lib.is_array value)) _
          (parse_items lib (lib.items value) >>= nonempty_symbols lib) ss checked in
      let (all, items, some_left) = ok-bind (parse_items lib (lib.items value)) _ ss parsed in
      let (same_list, filled) = nonempty_ok all ss some_left in
      (filled, subst (All IsSymbol) same_list (items_ok (lib.items value) all items))

  -- The default ratio 0.2 is between 0.0 and 1.0.
  pub record DefaultRatio : Type 0 where
    pub from_zero : lib.less_double lib.zero_point_two lib.zero_point_zero ≡ false
    pub to_one : lib.less_double lib.one_point_zero lib.zero_point_two ≡ false

  abbrev IsRatio : lib.Double → Type 0
  IsRatio r =
      (lib.less_double r lib.zero_point_zero ≡ false)
      × (lib.less_double lib.one_point_zero r ≡ false)

  abbrev IsBackoff : ReconnectConfig lib → Type 0
  IsBackoff r =
      (0 < r.initial_backoff_ms)
      × (r.initial_backoff_ms ≤ r.max_backoff_ms)
      × IsRatio r.jitter_ratio

  jitter_ok :
      DefaultRatio → (root : lib.Json) (r : lib.Double) → parse_jitter lib root ≡ ok r → IsRatio r
  unfolding parse_jitter
  jitter_ok d root r h = elim (Bool-cases (lib.contains root (codes "jitter_ratio"))) [
    | inr out ↦
        subst IsRatio (ok-injective lib.zero_point_two r (rw out at h)) (d.from_zero, d.to_one)
    | inl there ↦
        let value = lib.get_double (lib.at root (codes "jitter_ratio")) in
        let passed : (lib.less_double value lib.zero_point_zero ≡ false)
            × (lib.less_double lib.one_point_zero value ≡ false)
            × (value ≡ r) =
          ground (arith, rw there at h) in
        subst IsRatio passed.2 (passed.0, passed.1)
  ]

  reconnect_object_ok :
      DefaultRatio
      → (root : lib.Json) (r : ReconnectConfig lib) → parse_reconnect_object lib root ≡ ok r
      → IsBackoff r
  unfolding parse_reconnect_object
  reconnect_object_ok d root r h =
      let (initial, first, rest) =
        ok-bind (optional_u64 lib 500 root (codes "initial_backoff_ms")) _ r h in
      let (maximum, second, tested) =
        ok-bind (optional_u64 lib 30_000 root (codes "max_backoff_ms")) _ r rest in
      let (ordered, last) =
        ok-throws_if (ltb maximum initial) _ (parse_jitter lib root >>= _) r tested in
      let (jitter, third, whole) = ok-bind (parse_jitter lib root) _ r last in
      subst IsBackoff (ok-injective _ r whole) (
        optional_ok 500 root (codes "initial_backoff_ms") initial (omega arith) first,
        ground (arith, ordered),
        jitter_ok d root jitter third,
      )

  reconnect_ok :
      DefaultRatio
      → (root : lib.Json) (r : ReconnectConfig lib) → parse_reconnect_config lib root ≡ ok r
      → IsBackoff r
  unfolding parse_reconnect_config
  reconnect_ok d root r h = elim (Bool-cases (lib.contains root (codes "reconnect"))) [
    | inr out ↦
        subst IsBackoff (ok-injective _ r (rw out at h))
          (omega arith, omega arith, (d.from_zero, d.to_one))
    | inl there ↦
        let (_, parsed) =
          ok-throws_if (not (lib.is_object (lib.at root (codes "reconnect")))) _
            (parse_reconnect_object lib (lib.at root (codes "reconnect"))) r (rw there at h) in
        reconnect_object_ok d (lib.at root (codes "reconnect")) r parsed
  ]

  fields_ok :
      DefaultRatio → (root : lib.Json) (c : Config lib) → parse_fields lib root ≡ ok c → IsUsable c
  unfolding parse_fields parse_aggregator_threads
  fields_ok d root c h0 =
      let (symbols, e1, h1) = ok-bind (parse_symbols lib root) _ c h0 in
      let (window, e2, h2) = ok-bind (parse_positive_u64 lib root (codes "window_ms")) _ c h1 in
      let (interval, e3, h3) =
        ok-bind (parse_positive_u64 lib root (codes "flush_interval_ms")) _ c h2 in
      let (threads, e4, h4) =
        ok-bind (optional_u64 lib 1 root (codes "aggregator_threads")) _ c h3 in
      let (output, e5, h5) =
        ok-bind (parse_required_string lib root (codes "output_file")) _ c h4 in
      let (host, e6, h6) = ok-bind (parse_required_string lib root (codes "ws_host")) _ c h5 in
      let (port, e7, h7) = ok-bind (parse_required_string lib root (codes "ws_port")) _ c h6 in
      let (reconnect, e8, h8) = ok-bind (parse_reconnect_config lib root) _ c h7 in
      let listed = symbols_ok root symbols e1 in
      let backoff = reconnect_ok d root reconnect e8 in
      subst IsUsable (ok-injective _ c h8) (record {
        some_symbol = listed.0;
        symbols_plain = listed.1;
        window_positive = positive_ok root (codes "window_ms") window e2;
        interval_positive = positive_ok root (codes "flush_interval_ms") interval e3;
        threads_positive = optional_ok 1 root (codes "aggregator_threads") threads (omega arith) e4;
        output_named = string_ok root (codes "output_file") output e5;
        host_named = string_ok root (codes "ws_host") host e6;
        port_named = string_ok root (codes "ws_port") port e7;
        backoff_positive = backoff.0;
        backoff_ordered = backoff.1;
        jitter_low = backoff.2.0;
        jitter_high = backoff.2.1;
      })

  -- If the default ratio 0.2 is between 0.0 and 1.0, a Config that load_from_file returns has at
  -- least one symbol, each of capital letters and digits and not empty, positive window, interval
  -- and thread numbers, names for output, host and port, and a positive first backoff that is not
  -- above the last one, with a jitter ratio that is between 0.0 and 1.0.
  pub load_from_file-IsUsable :
      DefaultRatio
      → (file : Option Bytes) (c : Config lib) → load_from_file lib file ≡ ok c
      → IsUsable c
  unfolding load_from_file parse_document parse_config_json
  load_from_file-IsUsable d none c h = absurd (cc)
  load_from_file-IsUsable d (some text) c h = elim (Option-cases (lib.parse text)) [
    | inl bad ↦ absurd (cc (rw bad at h))
    | inr (root, found) ↦
        fields_ok d root c
          (ok-throws_if (not (lib.is_object root)) _ (parse_fields lib root) c (rw found at h)).1
  ]
