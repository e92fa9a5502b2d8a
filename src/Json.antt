-- ===== src/Json.antt =====
-- What the program uses of nlohmann::json, and of double: an interface, since neither is its own
-- code. `get` of a type is called only behind the test of that type, and `at`, the operator[] on a
-- constant object, only behind `contains`.
use binance_aggregator.Prelude.{ℕ, Bool, List, Option, Bytes}

pub record JsonLibrary : Type 1 where
  pub Json : Type 0
  pub Double : Type 0
  -- json::parse, and operator>> on a whole stream; `none` is a json::exception.
  pub parse : Bytes → Option Json
  pub contains : Json → Bytes → Bool
  pub at : Json → Bytes → Json
  pub is_object : Json → Bool
  pub is_array : Json → Bool
  pub is_string : Json → Bool
  pub is_boolean : Json → Bool
  pub is_number : Json → Bool
  pub is_number_unsigned : Json → Bool
  pub items : Json → List Json
  pub get_string : Json → Bytes
  pub get_bool : Json → Bool
  pub get_u64 : Json → ℕ
  pub get_double : Json → Double
  -- `<` on double, and the literals 0.0, 0.2 and 1.0.
  pub less_double : Double → Double → Bool
  pub zero_point_zero : Double
  pub zero_point_two : Double
  pub one_point_zero : Double
