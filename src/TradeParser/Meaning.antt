-- ===== src/TradeParser/Meaning.antt =====
-- Which messages BinanceTradeParser::parse accepts, and what it reads from them.
use binance_aggregator.Prelude.{
  ◌≡◌, ◌↔◌, refl, sym, ◌∙◌, Bool, inl, inr, true, false, not, ◌||◌, Option, some, Bytes, codes,
  arith, Bool-cases, Option-cases,
}
use binance_aggregator.StrictOrder.{same, text_order, eq_of_same, same_refl}
use binance_aggregator.Decimal
use binance_aggregator.Decimal.{Decimal, Result, ok, throws}
use binance_aggregator.Aggregation.{TradeEvent}
use binance_aggregator.Json.{JsonLibrary}
use binance_aggregator.TradeParser.{
  unwrap_payload, has_required_fields, is_unsupported_event_type, with_numbers, parse_payload,
  parse_root, parse_document, parse,
}

module _ (lib : JsonLibrary) where
  -- Under `key` stands the string `text`.
  abbrev pub HasText : lib.Json → Bytes → Bytes → Type 0
  HasText j key text =
      (lib.contains j key ≡ true)
      × (lib.is_string (lib.at j key) ≡ true)
      × (lib.get_string (lib.at j key) ≡ text)

  -- A payload that announces the trade: its fields are there, each of its type, prices and
  -- quantities are decimal texts, and the event type, where it is a string, is "trade".
  pub record Announces (j : lib.Json) (e : TradeEvent) : Type 0 where
    pub object : lib.is_object j ≡ true
    pub trade_type : (text : Bytes) → HasText j (codes "e") text → text ≡ codes "trade"
    pub symbol_field : HasText j (codes "s") e.symbol
    pub id_there : lib.contains j (codes "t") ≡ true
    pub id_unsigned : lib.is_number_unsigned (lib.at j (codes "t")) ≡ true
    pub id_value : lib.get_u64 (lib.at j (codes "t")) ≡ e.trade_id
    pub price_text : Bytes
    pub price_field : HasText j (codes "p") price_text
    pub price_value : Decimal.parse price_text ≡ ok e.price
    pub quantity_text : Bytes
    pub quantity_field : HasText j (codes "q") quantity_text
    pub quantity_value : Decimal.parse quantity_text ≡ ok e.quantity
    pub time_there : lib.contains j (codes "T") ≡ true
    pub time_unsigned : lib.is_number_unsigned (lib.at j (codes "T")) ≡ true
    pub time_value : lib.get_u64 (lib.at j (codes "T")) ≡ e.trade_time_ms
    pub maker_there : lib.contains j (codes "m") ≡ true
    pub maker_boolean : lib.is_boolean (lib.at j (codes "m")) ≡ true
    pub maker_value : lib.get_bool (lib.at j (codes "m")) ≡ e.buyer_is_maker

  with_numbers-some :
      (j : lib.Json) (p q : Result Decimal) (e : TradeEvent)
      → with_numbers lib j p q ≡ some e
      → (p ≡ ok e.price)
        × (q ≡ ok e.quantity)
        × (lib.get_string (lib.at j (codes "s")) ≡ e.symbol)
        × (lib.get_u64 (lib.at j (codes "t")) ≡ e.trade_id)
        × (lib.get_u64 (lib.at j (codes "T")) ≡ e.trade_time_ms)
        × (lib.get_bool (lib.at j (codes "m")) ≡ e.buyer_is_maker)
  unfolding with_numbers
  with_numbers-some j (throws x) q e h = absurd (cc)
  with_numbers-some j (ok p) (throws x) e h = absurd (cc)
  with_numbers-some j (ok p) (ok q) e h = ground arith

  abbrev refused : lib.Json → Bool
  refused j =
      not (lib.is_object j) || (is_unsupported_event_type lib j || not (has_required_fields lib j))

  abbrev numbers : lib.Json → Option TradeEvent
  numbers j =
      with_numbers lib j (Decimal.parse (lib.get_string (lib.at j (codes "p"))))
        (Decimal.parse (lib.get_string (lib.at j (codes "q"))))

  parse_payload_accepts :
      (j : lib.Json) (e : TradeEvent)
      → parse_payload lib j ≡ some e
      → (refused j ≡ false) × (numbers j ≡ some e)
  unfolding parse_payload
  parse_payload_accepts j e h = elim (Bool-cases (refused j)) [
    | inl bad ↦ absurd (cc (rw bad at h))
    | inr good ↦ (good, rw good at h)
  ]

  type_is_trade :
      (j : lib.Json) (text : Bytes)
      → is_unsupported_event_type lib j ≡ false
      → HasText j (codes "e") text
      → text ≡ codes "trade"
  unfolding is_unsupported_event_type
  type_is_trade j text h t =
      sym t.2
      ∙ eq_of_same (lib.get_string (lib.at j (codes "e"))) (codes "trade")
          (elim (Bool-cases (same (lib.get_string (lib.at j (codes "e"))) (codes "trade"))) [
            | inl fine ↦ fine
            | inr bad ↦ absurd (cc (rw (t.0, t.1, bad) at h))
          ])

  abbrev IsRequired : lib.Json → Type 0
  IsRequired j =
      ((lib.contains j (codes "s") ≡ true) × (lib.is_string (lib.at j (codes "s")) ≡ true))
      × ((lib.contains j (codes "t") ≡ true)
          × (lib.is_number_unsigned (lib.at j (codes "t")) ≡ true))
      × ((lib.contains j (codes "p") ≡ true) × (lib.is_string (lib.at j (codes "p")) ≡ true))
      × ((lib.contains j (codes "q") ≡ true) × (lib.is_string (lib.at j (codes "q")) ≡ true))
      × ((lib.contains j (codes "T") ≡ true)
          × (lib.is_number_unsigned (lib.at j (codes "T")) ≡ true))
      × ((lib.contains j (codes "m") ≡ true) × (lib.is_boolean (lib.at j (codes "m")) ≡ true))

  has_required_fields-IsRequired : (j : lib.Json) → has_required_fields lib j ≡ true → IsRequired j
  unfolding has_required_fields
  has_required_fields-IsRequired j h = ground arith

  supported_announced :
      (j : lib.Json) (e : TradeEvent) → Announces j e → is_unsupported_event_type lib j ≡ false
  unfolding is_unsupported_event_type
  supported_announced j e a = elim (Bool-cases (lib.contains j (codes "e"))) [
    | inr out ↦ rw out refl
    | inl there ↦ elim (Bool-cases (lib.is_string (lib.at j (codes "e")))) [
      | inr other ↦ rw (there, other) refl
      | inl text ↦
          rw (there, text, a.trade_type _ (there, text, refl), same_refl (codes "trade")) refl
    ]
  ]

  required_announced :
      (j : lib.Json) (e : TradeEvent) → Announces j e → has_required_fields lib j ≡ true
  unfolding has_required_fields
  required_announced j e a =
      rw
        (
          a.symbol_field.0, a.symbol_field.1, a.id_there, a.id_unsigned, a.price_field.0,
          a.price_field.1, a.quantity_field.0, a.quantity_field.1, a.time_there, a.time_unsigned,
          a.maker_there, a.maker_boolean,
        )
        refl

  accepts_announced : (j : lib.Json) (e : TradeEvent) → Announces j e → refused j ≡ false
  accepts_announced j e a = rw (a.object, supported_announced j e a, required_announced j e a) refl

  numbers_announced : (j : lib.Json) (e : TradeEvent) → Announces j e → numbers j ≡ some e
  unfolding with_numbers
  numbers_announced j e a =
      rw (a.price_field.2, a.quantity_field.2, a.price_value, a.quantity_value)
        (cc (a.symbol_field.2, a.id_value, a.time_value, a.maker_value))

  parse_payload-Announces :
      (j : lib.Json) (e : TradeEvent) → parse_payload lib j ≡ some e → Announces j e
  parse_payload-Announces j e h =
      let (good, made) = parse_payload_accepts j e h in
      let read = with_numbers-some j _ _ e made in
      let required : has_required_fields lib j ≡ true = ground arith in
      let supported : is_unsupported_event_type lib j ≡ false = ground arith in
      let parts = has_required_fields-IsRequired j required in
      record {
        object = ground arith;
        trade_type = λ text t. type_is_trade j text supported t;
        symbol_field = (parts.0.0, parts.0.1, read.2);
        id_there = parts.1.0;
        id_unsigned = parts.1.1;
        id_value = read.3;
        price_text = _;
        price_field = (parts.2.0, parts.2.1, refl);
        price_value = read.0;
        quantity_text = _;
        quantity_field = (parts.3.0, parts.3.1, refl);
        quantity_value = read.1;
        time_there = parts.4.0;
        time_unsigned = parts.4.1;
        time_value = read.4;
        maker_there = parts.5.0;
        maker_boolean = parts.5.1;
        maker_value = read.5;
      }

  Announces-parse_payload :
      (j : lib.Json) (e : TradeEvent) → Announces j e → parse_payload lib j ≡ some e
  unfolding parse_payload
  Announces-parse_payload j e a = rw (accepts_announced j e a) (numbers_announced j e a)

  -- A message is read as a trade exactly if it is JSON, an object, and its payload, which is the
  -- member "data" where there is one, announces that trade.
  pub parse_iff :
      (raw : Bytes) (e : TradeEvent)
      → (parse lib raw ≡ some e) ↔ (
          (root : lib.Json) × (lib.parse raw ≡ some root)
          × (lib.is_object root ≡ true)
          × Announces (unwrap_payload lib root) e)
  unfolding parse parse_document parse_root
  parse_iff raw e = (
    λ h. elim (Option-cases (lib.parse raw)) [
      | inl bad ↦ absurd (cc (rw bad at h))
      | inr (root, found) ↦ elim (Bool-cases (lib.is_object root)) [
        | inr other ↦ absurd (cc (rw (found, other) at h))
        | inl object ↦ (root, found, object, parse_payload-Announces _ e (rw (found, object) at h))
      ]
    ],
    λ h. rw (h.1, h.2) (Announces-parse_payload _ e h.3),
  )

  -- A message in the envelope of the combined stream is read as its payload sent alone, if the
  -- payload is no envelope itself.
  pub parse_envelope :
      (raw inner : Bytes) (root : lib.Json)
      → lib.parse raw ≡ some root
      → lib.is_object root ≡ true
      → lib.contains root (codes "data") ≡ true
      → lib.parse inner ≡ some (lib.at root (codes "data"))
      → lib.contains (lib.at root (codes "data")) (codes "data") ≡ false
      → parse lib raw ≡ parse lib inner
  unfolding parse parse_document parse_root unwrap_payload parse_payload
  parse_envelope raw inner root p o d q f = rw (p, q, o, d, f) (ground arith)
