-- ===== src/TradeParser.antt =====
-- app/src/parse/BinanceTradeParser.cpp, over the interface of the JSON library.
pub mod Meaning
use binance_aggregator.Prelude.{
  Bool, true, false, not, ◌&&◌, ◌||◌, Option, none, some, Bytes, codes, if◌then◌else◌,
}
use binance_aggregator.StrictOrder.{same, text_order}
use binance_aggregator.Decimal
use binance_aggregator.Decimal.{Decimal, Result, ok, throws}
use binance_aggregator.Aggregation.{TradeEvent}
use binance_aggregator.Json.{JsonLibrary}

module _ (lib : JsonLibrary) where
  unfoldable pub unwrap_payload : lib.Json → lib.Json
  unwrap_payload root =
      if lib.contains root (codes "data") then lib.at root (codes "data") else root

  abbrev pub has_string : lib.Json → Bytes → Bool
  has_string payload key = lib.contains payload key && lib.is_string (lib.at payload key)

  abbrev pub has_unsigned : lib.Json → Bytes → Bool
  has_unsigned payload key = lib.contains payload key && lib.is_number_unsigned (lib.at payload key)

  abbrev pub has_boolean : lib.Json → Bytes → Bool
  has_boolean payload key = lib.contains payload key && lib.is_boolean (lib.at payload key)

  unfoldable pub has_required_fields : lib.Json → Bool
  has_required_fields payload =
      has_string payload (codes "s")
      && (has_unsigned payload (codes "t")
          && (has_string payload (codes "p")
              && (has_string payload (codes "q")
                  && (has_unsigned payload (codes "T") && has_boolean payload (codes "m")))))

  unfoldable pub is_unsupported_event_type : lib.Json → Bool
  is_unsupported_event_type payload =
      has_string payload (codes "e")
      && not (same (lib.get_string (lib.at payload (codes "e"))) (codes "trade"))

  -- The two calls of Decimal::parse in the try block.
  unfoldable pub with_numbers : lib.Json → Result Decimal → Result Decimal → Option TradeEvent
  with_numbers payload (throws _) quantity = none
  with_numbers payload (ok price) (throws _) = none
  with_numbers payload (ok price) (ok quantity) = some (record {
    symbol = lib.get_string (lib.at payload (codes "s"));
    trade_id = lib.get_u64 (lib.at payload (codes "t"));
    price = price;
    quantity = quantity;
    trade_time_ms = lib.get_u64 (lib.at payload (codes "T"));
    buyer_is_maker = lib.get_bool (lib.at payload (codes "m"));
  })

  unfoldable pub parse_payload : lib.Json → Option TradeEvent
  parse_payload payload =
      if not (lib.is_object payload)
        || (is_unsupported_event_type payload || not (has_required_fields payload))
      then none
      else with_numbers payload (Decimal.parse (lib.get_string (lib.at payload (codes "p"))))
          (Decimal.parse (lib.get_string (lib.at payload (codes "q"))))

  unfoldable pub parse_root : lib.Json → Option TradeEvent
  parse_root root = if not (lib.is_object root) then none else parse_payload (unwrap_payload root)

  unfoldable pub parse_document : Option lib.Json → Option TradeEvent
  parse_document none = none
  parse_document (some root) = parse_root root

  unfoldable pub parse : Bytes → Option TradeEvent
  parse raw_message = parse_document (lib.parse raw_message)
