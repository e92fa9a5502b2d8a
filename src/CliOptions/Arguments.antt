-- ===== src/CliOptions/Arguments.antt =====
-- The last flag decides, and a flag without a path is refused.
use binance_aggregator.Prelude.{
  ◌≡◌, refl, ◌∙◌, inl, inr, List, [], ◌∷◌, ◌++◌, Bytes, codes, if◌then◌else◌, Bool-cases,
}
use binance_aggregator.CliOptions.{
  CliOptions, ok, missing_path, config_flag, equals, strip_prefix, other_argument, parse_arguments,
  parse_cli_options, default_options,
}

-- The loop goes on where it was, if it took no argument of the second part for a path.
parse_arguments-append :
    (options result : CliOptions) (xs ys : List Bytes)
    → parse_arguments options xs ≡ ok result
    → parse_arguments options (xs ++ ys) ≡ parse_arguments result ys
unfolding parse_arguments
parse_arguments-append options result [] ys h = cc
parse_arguments-append options result (x ∷ []) [] h = elim (Bool-cases (equals x config_flag)) [
  | inl flag ↦ absurd (cc (rw flag at h))
  | inr other ↦ rw other (rw other at h)
]
parse_arguments-append options result (x ∷ []) (y ∷ ys) h =
    elim (Bool-cases (equals x config_flag)) [
      | inl flag ↦ absurd (cc (rw flag at h))
      | inr other ↦ rw other (cc (rw other at h))
    ]
parse_arguments-append options result (x ∷ y ∷ rest) ys h =
    elim (Bool-cases (equals x config_flag)) [
      | inl flag ↦ rw flag (
          parse_arguments-append (record options { config_path = y }) result rest ys (rw flag at h))
      | inr other ↦
          rw other
            (parse_arguments-append (other_argument x options) result (y ∷ rest) ys (rw other at h))
    ]

one_argument :
    (options : CliOptions) (arg : Bytes)
    → parse_arguments options (arg ∷ [])
      ≡ (if equals arg config_flag then missing_path else ok (other_argument arg options))
unfolding parse_arguments
one_argument options arg = refl

last_flag :
    (options : CliOptions) (path : Bytes)
    → parse_arguments options (config_flag ∷ path ∷ []) ≡ ok (record { config_path = path })
unfolding parse_arguments equals
last_flag options path = refl

last_equals :
    (options : CliOptions) (path : Bytes)
    → parse_arguments options ((codes "--config=" ++ path) ∷ [])
      ≡ ok (record { config_path = path })
unfolding parse_arguments equals other_argument strip_prefix
last_equals options path = refl

flag_alone : (options : CliOptions) → parse_arguments options (config_flag ∷ []) ≡ missing_path
unfolding parse_arguments equals
flag_alone options = refl

-- Behind arguments that are accepted: "--config" with a path, and "--config=" before a path, make
-- that path the result, whatever the earlier arguments chose; "--config" alone is refused; and any
-- other argument acts on the earlier result, as other_argument says.
pub parse_cli_options-append :
    (args : List Bytes) (earlier : CliOptions) (path arg : Bytes)
    → parse_cli_options args ≡ ok earlier
    → (parse_cli_options (args ++ config_flag ∷ path ∷ []) ≡ ok (record { config_path = path }))
      × (parse_cli_options (args ++ (codes "--config=" ++ path) ∷ [])
          ≡ ok (record { config_path = path }))
      × (parse_cli_options (args ++ config_flag ∷ []) ≡ missing_path)
      × (parse_cli_options (args ++ arg ∷ [])
          ≡ (if equals arg config_flag then missing_path else ok (other_argument arg earlier)))
unfolding parse_cli_options
parse_cli_options-append args earlier path arg h = (
  parse_arguments-append default_options earlier args _ h ∙ last_flag earlier path,
  parse_arguments-append default_options earlier args _ h ∙ last_equals earlier path,
  parse_arguments-append default_options earlier args _ h ∙ flag_alone earlier,
  parse_arguments-append default_options earlier args _ h ∙ one_argument earlier arg,
)
