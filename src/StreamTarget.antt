-- ===== src/StreamTarget.antt =====
-- build_combined_stream_target (app/src/net/BinanceWebSocketClient.cpp). std::tolower is that of the
-- "C" locale.
pub mod Subscriptions
use binance_aggregator.Prelude.{ℕ, ◌+◌, ◌&&◌, List, [], ◌∷◌, ◌++◌, Bytes, codes, leb, if◌then◌else◌}

-- std::tolower on a byte.
abbrev pub to_lower : ℕ → ℕ
to_lower c = if leb b'A' c && leb c b'Z' then c + 32 else c

unfoldable pub lowercase : Bytes → Bytes
lowercase [] = []
lowercase (c ∷ s) = to_lower c ∷ lowercase s

-- What a round of the loop adds behind the separator.
unfoldable pub stream_name : Bytes → Bytes
stream_name symbol = lowercase symbol ++ codes "@trade"

-- The rounds with i != 0.
unfoldable pub other_streams : List Bytes → Bytes
other_streams [] = []
other_streams (symbol ∷ symbols) = b'/' ∷ (stream_name symbol ++ other_streams symbols)

-- All rounds.
unfoldable pub streams : List Bytes → Bytes
streams [] = []
streams (symbol ∷ symbols) = stream_name symbol ++ other_streams symbols

unfoldable pub build_combined_stream_target : List Bytes → Bytes
build_combined_stream_target symbols = codes "/stream?streams=" ++ streams symbols
