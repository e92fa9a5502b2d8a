-- ===== src/Config.antt =====
-- app/include/agg/config/Config.hpp and app/src/config/ConfigLoader.cpp, over the interface of the
-- JSON library. A std::runtime_error is a value of ConfigError; the texts of the messages are left
-- out. std::toupper and std::isalnum are those of the "C" locale, which the program does not leave.
pub mod Loaded
use binance_aggregator.Prelude.{
  ℕ, ◌-◌, Bool, true, false, not, ◌&&◌, ◌||◌, List, [], ◌∷◌, Option, none, some, Bytes, codes, ltb,
  leb, ◌==◌, if◌then◌else◌,
}
use binance_aggregator.Json.{JsonLibrary}

pub data ConfigError : Type 0 where
  missing_field : Bytes → ConfigError
  symbols_no_array symbol_no_string symbol_empty symbol_invalid symbols_empty : ConfigError
  no_positive_integer zero_value no_string empty_string : Bytes → ConfigError
  reconnect_no_object initial_above_max jitter_no_number jitter_out_of_range : ConfigError
  root_no_object cannot_open invalid_json : ConfigError

pub data Result {ℓ} (A : Type ℓ) : Type ℓ where
  ok : A → Result A
  throws : ConfigError → Result A

infixl 5 ◌>>=◌
abbrev pub ◌>>=◌ {ℓ κ} : {A : Type ℓ} {B : Type κ} → Result A → (A → Result B) → Result B
ok a >>= f = f a
throws e >>= f = throws e

-- std::toupper on a byte.
abbrev pub to_upper : ℕ → ℕ
to_upper c = if leb b'a' c && leb c b'z' then c - 32 else c

unfoldable pub to_upper_ascii : Bytes → Bytes
to_upper_ascii [] = []
to_upper_ascii (c ∷ s) = to_upper c ∷ to_upper_ascii s

abbrev pub is_valid_symbol_char : ℕ → Bool
is_valid_symbol_char c =
    (leb b'0' c && leb c b'9') || ((leb b'A' c && leb c b'Z') || (leb b'a' c && leb c b'z'))

-- std::all_of
unfoldable pub all_valid : Bytes → Bool
all_valid [] = true
all_valid (c ∷ s) = is_valid_symbol_char c && all_valid s

abbrev pub is_empty {ℓ} : {A : Type ℓ} → List A → Bool
is_empty [] = true
is_empty (x ∷ xs) = false

module _ (lib : JsonLibrary) where
  pub record ReconnectConfig : Type 0 where
    pub initial_backoff_ms : ℕ
    pub max_backoff_ms : ℕ
    pub jitter_ratio : lib.Double

  pub record Config : Type 0 where
    pub symbols : List Bytes
    pub window_ms : ℕ
    pub flush_interval_ms : ℕ
    pub aggregator_threads : ℕ
    pub output_file : Bytes
    pub ws_host : Bytes
    pub ws_port : Bytes
    pub reconnect : ReconnectConfig

  -- The value of operator[] behind require_field.
  unfoldable pub require_field : lib.Json → Bytes → Result lib.Json
  require_field root field =
      if lib.contains root field then ok (lib.at root field) else throws (missing_field field)

  unfoldable pub parse_symbol : lib.Json → Result Bytes
  parse_symbol item =
      let symbol = to_upper_ascii (lib.get_string item) in
      if not (lib.is_string item)
      then throws symbol_no_string
      else if is_empty symbol
      then throws symbol_empty
      else if not (all_valid symbol)
      then throws symbol_invalid
      else ok symbol

  -- The loop of parse_symbols.
  unfoldable pub parse_items : List lib.Json → Result (List Bytes)
  parse_items [] = ok []
  parse_items (item ∷ items) =
      parse_symbol item >>= λ symbol. parse_items items >>= λ symbols. ok (symbol ∷ symbols)

  unfoldable pub nonempty_symbols : List Bytes → Result (List Bytes)
  nonempty_symbols [] = throws symbols_empty
  nonempty_symbols (s ∷ ss) = ok (s ∷ ss)

  unfoldable pub parse_symbols : lib.Json → Result (List Bytes)
  parse_symbols root = require_field root (codes "symbols") >>= λ value.
      if not (lib.is_array value)
      then throws symbols_no_array
      else parse_items (lib.items value) >>= nonempty_symbols

  unfoldable pub parse_positive_u64 : lib.Json → Bytes → Result ℕ
  parse_positive_u64 root field = require_field root field >>= λ value.
      if not (lib.is_number_unsigned value)
      then throws (no_positive_integer field)
      else if lib.get_u64 value == 0
      then throws (zero_value field)
      else ok (lib.get_u64 value)

  unfoldable pub parse_required_string : lib.Json → Bytes → Result Bytes
  parse_required_string root field = require_field root field >>= λ value.
      if not (lib.is_string value)
      then throws (no_string field)
      else if is_empty (lib.get_string value)
      then throws (empty_string field)
      else ok (lib.get_string value)

  -- A positive integer, or a default where the field is missing.
  unfoldable pub optional_u64 : ℕ → lib.Json → Bytes → Result ℕ
  optional_u64 default root field =
      if lib.contains root field then parse_positive_u64 root field else ok default

  unfoldable pub parse_aggregator_threads : lib.Json → Result ℕ
  parse_aggregator_threads root = optional_u64 1 root (codes "aggregator_threads")

  -- The part of parse_reconnect_config about jitter_ratio.
  unfoldable pub parse_jitter : lib.Json → Result lib.Double
  parse_jitter root =
      let value = lib.at root (codes "jitter_ratio") in
      if not (lib.contains root (codes "jitter_ratio"))
      then ok lib.zero_point_two
      else if not (lib.is_number value)
      then throws jitter_no_number
      else if lib.less_double (lib.get_double value) lib.zero_point_zero
          || lib.less_double lib.one_point_zero (lib.get_double value)
      then throws jitter_out_of_range
      else ok (lib.get_double value)

  unfoldable pub parse_reconnect_object : lib.Json → Result ReconnectConfig
  parse_reconnect_object root = optional_u64 500 root (codes "initial_backoff_ms") >>= λ initial.
      optional_u64 30_000 root (codes "max_backoff_ms") >>= λ maximum.
      if ltb maximum initial
      then throws initial_above_max
      else parse_jitter root >>= λ jitter.
          ok (record {
            initial_backoff_ms = initial;
            max_backoff_ms = maximum;
            jitter_ratio = jitter;
          })

  unfoldable pub parse_reconnect_config : lib.Json → Result ReconnectConfig
  parse_reconnect_config root =
      let value = lib.at root (codes "reconnect") in
      if not (lib.contains root (codes "reconnect"))
      then ok (record {
        initial_backoff_ms = 500;
        max_backoff_ms = 30_000;
        jitter_ratio = lib.zero_point_two;
      })
      else if not (lib.is_object value)
      then throws reconnect_no_object
      else parse_reconnect_object value

  unfoldable pub parse_fields : lib.Json → Result Config
  parse_fields root = parse_symbols root >>= λ symbols.
      parse_positive_u64 root (codes "window_ms") >>= λ window_ms.
      parse_positive_u64 root (codes "flush_interval_ms") >>= λ flush_interval_ms.
      parse_aggregator_threads root >>= λ threads.
      parse_required_string root (codes "output_file") >>= λ output_file.
      parse_required_string root (codes "ws_host") >>= λ ws_host.
      parse_required_string root (codes "ws_port") >>= λ ws_port.
      parse_reconnect_config root >>= λ reconnect. ok (record {
        symbols = symbols;
        window_ms = window_ms;
        flush_interval_ms = flush_interval_ms;
        aggregator_threads = threads;
        output_file = output_file;
        ws_host = ws_host;
        ws_port = ws_port;
        reconnect = reconnect;
      })

  unfoldable pub parse_config_json : lib.Json → Result Config
  parse_config_json root =
      if not (lib.is_object root) then throws root_no_object else parse_fields root

  unfoldable pub parse_document : Option lib.Json → Result Config
  parse_document none = throws invalid_json
  parse_document (some root) = parse_config_json root

  -- The text of the file, or none if it cannot be opened.
  unfoldable pub load_from_file : Option Bytes → Result Config
  load_from_file none = throws cannot_open
  load_from_file (some text) = parse_document (lib.parse text)
