-- ===== src/Tests/Messages.antt =====
-- Runs of app/src/parse/BinanceTradeParser.cpp and app/src/config/ConfigLoader.cpp, with JSON
-- documents as data and a JSON parser that knows three of them.
use binance_aggregator.Prelude.{
  ℕ, ◌≡◌, ◌↔◌, refl, Bool, true, false, [], ◌∷◌, Option, none, some, Bytes, codes, ltb,
  if◌then◌else◌, ◌==◌, ◌&&◌,
}
use binance_aggregator.Prelude.Int.{pos}
use binance_aggregator.Decimal.{from_raw}
use binance_aggregator.Decimal
use binance_aggregator.Aggregation.{TradeEvent}
use binance_aggregator.StrictOrder.{same, text_order, text_lt}
use binance_aggregator.Json.{JsonLibrary}
use binance_aggregator.TradeParser
use binance_aggregator.TradeParser.Meaning.{Announces, parse_iff}
use binance_aggregator.Config
use binance_aggregator.Config.{Config, ReconnectConfig, load_from_file, ok}
use binance_aggregator.Config.Loaded.{IsUsable, load_from_file-IsUsable}

mutual
  pub data Value : Type 0 where
    text : Bytes → Value
    number : ℕ → Value
    flag : Bool → Value
    array : Bytes → Value
    object : Members → Value

  pub data Members : Type 0 where
    end : Members
    member : Bytes → Value → Members → Members

abbrev pub equals : Bytes → Bytes → Bool
equals [] [] = true
equals [] (d ∷ t) = false
equals (c ∷ s) [] = false
equals (c ∷ s) (d ∷ t) = c == d && equals s t

abbrev pub has : Members → Bytes → Bool
has end key = false
has (member k v rest) key = if equals k key then true else has rest key

abbrev pub value_of : Members → Bytes → Value
value_of end key = flag false
value_of (member k v rest) key = if equals k key then v else value_of rest key

abbrev pub trade_members : Members
trade_members = member (codes "e") (text (codes "trade")) (
    member (codes "s") (text (codes "BTCUSDT")) (
      member (codes "t") (number 7) (
        member (codes "p") (text (codes "43012.10")) (
          member (codes "q") (text (codes "0.5"))
            (member (codes "T") (number 1200) (member (codes "m") (flag true) end))))))

abbrev pub config_members : Members
config_members = member (codes "symbols") (array (codes "btcusdt")) (
    member (codes "window_ms") (number 1000) (
      member (codes "flush_interval_ms") (number 5000) (
        member (codes "output_file") (text (codes "stats.log")) (
          member (codes "ws_host") (text (codes "stream.binance.com"))
            (member (codes "ws_port") (text (codes "9443")) end)))))

-- The parser of the runs: three documents by the length of their text.
abbrev pub documents : Bytes → Option Value
documents [] = none
documents (c ∷ []) = some (object trade_members)
documents (c ∷ d ∷ []) = some (object (member (codes "data") (object trade_members) end))
documents (c ∷ d ∷ e ∷ _) = some (object config_members)

abbrev pub contains : Value → Bytes → Bool
contains (object members) key = has members key
contains _ key = false

abbrev pub at : Value → Bytes → Value
at (object members) key = value_of members key
at _ key = flag false

abbrev pub library : JsonLibrary
library = record {
  Json = Value;
  Double = ℕ;
  parse = documents;
  contains = contains;
  at = at;
  is_object = λ v. elim v [ object m ↦ true | _ ↦ false ];
  is_array = λ v. elim v [ array s ↦ true | _ ↦ false ];
  is_string = λ v. elim v [ text s ↦ true | _ ↦ false ];
  is_boolean = λ v. elim v [ flag b ↦ true | _ ↦ false ];
  is_number = λ v. elim v [ number n ↦ true | _ ↦ false ];
  is_number_unsigned = λ v. elim v [ number n ↦ true | _ ↦ false ];
  items = λ v. elim v [ array s ↦ text s ∷ [] | _ ↦ [] ];
  get_string = λ v. elim v [ text s ↦ s | _ ↦ [] ];
  get_bool = λ v. elim v [ flag b ↦ b | _ ↦ false ];
  get_u64 = λ v. elim v [ number n ↦ n | _ ↦ 0 ];
  get_double = λ v. elim v [ number n ↦ n | _ ↦ 0 ];
  less_double = ltb;
  zero_point_zero = 0;
  zero_point_two = 2;
  one_point_zero = 10;
}

abbrev pub trade : TradeEvent
trade = record {
  symbol = codes "BTCUSDT";
  trade_id = 7;
  price = from_raw (pos 4_301_210_000_000);
  quantity = from_raw (pos 50_000_000);
  trade_time_ms = 1200;
  buyer_is_maker = true;
}

reads_trade : TradeParser.parse library (codes "t") ≡ some trade
unfolding TradeParser.parse TradeParser.parse_document TradeParser.parse_root
    TradeParser.parse_payload TradeParser.unwrap_payload TradeParser.has_required_fields
    TradeParser.is_unsupported_event_type TradeParser.with_numbers Decimal.parse same text_lt
reads_trade = refl

parse_iff_example : (TradeParser.parse library (codes "t") ≡ some trade) ↔ (
    (root : Value) × (documents (codes "t") ≡ some root)
    × (library.is_object root ≡ true)
    × Announces library (TradeParser.unwrap_payload library root) trade)
parse_iff_example = parse_iff library (codes "t") trade

abbrev config : Config library
config = record {
  symbols = codes "BTCUSDT" ∷ [];
  window_ms = 1000;
  flush_interval_ms = 5000;
  aggregator_threads = 1;
  output_file = codes "stats.log";
  ws_host = codes "stream.binance.com";
  ws_port = codes "9443";
  reconnect = record { initial_backoff_ms = 500; max_backoff_ms = 30_000; jitter_ratio = 2 };
}

loads_config : load_from_file library (some (codes "ccc")) ≡ ok config
unfolding load_from_file Config.to_upper_ascii Config.all_valid Config.require_field
    Config.parse_symbol Config.parse_items Config.nonempty_symbols Config.parse_symbols
    Config.parse_positive_u64 Config.parse_required_string Config.optional_u64
    Config.parse_aggregator_threads Config.parse_jitter Config.parse_reconnect_object
    Config.parse_reconnect_config Config.parse_fields Config.parse_config_json Config.parse_document
loads_config = refl

load_from_file-IsUsable_example : IsUsable library config
load_from_file-IsUsable_example =
    load_from_file-IsUsable library (record { from_zero = refl; to_one = refl })
      (some (codes "ccc")) config loads_config
