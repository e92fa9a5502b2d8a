-- ===== src/CliOptions.antt =====
-- app/include/agg/runtime/CliOptions.hpp and app/src/runtime/CliOptions.cpp. The arguments are those
-- behind the program's name.
pub mod Arguments
use binance_aggregator.Prelude.{
  ℕ, Bool, true, false, List, [], ◌∷◌, Option, none, some, Bytes, codes, ◌==◌, ◌&&◌, if◌then◌else◌,
}

pub record CliOptions : Type 0 where
  pub config_path : Bytes

-- The default member initializer.
abbrev pub default_options : CliOptions
default_options = record { config_path = codes "config/config.json" }

-- std::invalid_argument
pub data Result : Type 0 where
  ok : CliOptions → Result
  missing_path : Result

abbrev pub config_flag : Bytes
config_flag = codes "--config"

-- operator== on std::string_view
unfoldable pub equals : Bytes → Bytes → Bool
equals [] [] = true
equals [] (d ∷ t) = false
equals (c ∷ s) [] = false
equals (c ∷ s) (d ∷ t) = c == d && equals s t

-- What stands behind a prefix, if the text starts with it: rfind(prefix, 0) and substr.
unfoldable pub strip_prefix : Bytes → Bytes → Option Bytes
strip_prefix [] s = some s
strip_prefix (p ∷ ps) [] = none
strip_prefix (p ∷ ps) (c ∷ s) = let rest = strip_prefix ps s in if p == c then rest else none

-- The second branch, and no branch.
unfoldable pub other_argument : Bytes → CliOptions → CliOptions
other_argument arg options = elim (strip_prefix (codes "--config=") arg) [
  | none ↦ options
  | some path ↦ record options { config_path = path }
]

-- The loop.
unfoldable pub parse_arguments : CliOptions → List Bytes → Result
parse_arguments options [] = ok options
parse_arguments options (arg ∷ []) =
    if equals arg config_flag then missing_path else ok (other_argument arg options)
parse_arguments options (arg ∷ path ∷ rest) =
    let taken = parse_arguments (record options { config_path = path }) rest in
    let passed = parse_arguments (other_argument arg options) (path ∷ rest) in
    if equals arg config_flag then taken else passed

unfoldable pub parse_cli_options : List Bytes → Result
parse_cli_options args = parse_arguments default_options args
