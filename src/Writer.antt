-- ===== src/Writer.antt =====
-- MarketDataPipeline::write_windows (app/src/runtime/MarketDataPipeline.cpp): windows are grouped by
-- their start, each group is sorted by symbol, serialized and written. std::sort is an insertion
-- sort here: where no two windows of a group share a symbol, every sort gives the same list.
pub mod Groups
pub mod Lookup
pub mod Listing
pub mod Members
pub mod Unique
pub mod Snapshots
use binance_aggregator.Prelude.{
  Bool, List, [], ◌∷◌, ◌++◌, Option, none, some, Bytes, ℕ, if◌then◌else◌,
}
use binance_aggregator.StrictOrder.{text_order, nat_order, text_lt}
use binance_aggregator.OrdMap.{OrdMap, alter}
use binance_aggregator.Aggregation.{WindowStats}
use binance_aggregator.Output.{serialize_windows}

-- The windows of a snapshot, by the start of the window: snapshots_by_window.
abbrev pub Snapshots : Type 0
Snapshots = OrdMap ℕ (List WindowStats)

abbrev pub or_empty {ℓ} : {A : Type ℓ} → Option (List A) → List A
or_empty none = []
or_empty (some xs) = xs

-- The first loop: each window is moved to the end of its snapshot.
pub group_into : Snapshots → List WindowStats → Snapshots
group_into m [] = m
group_into m (w ∷ ws) = group_into (alter w.window_start_ms (λ old. or_empty old ++ w ∷ []) m) ws

pub insert : WindowStats → List WindowStats → List WindowStats
insert w [] = w ∷ []
insert w (v ∷ vs) = if text_lt v.symbol w.symbol then v ∷ insert w vs else w ∷ v ∷ vs

-- std::sort by symbol.
pub sort : List WindowStats → List WindowStats
sort [] = []
sort (w ∷ ws) = insert w (sort ws)

-- An empty text is not written.
pub write_text : Bytes → List Bytes → List Bytes
write_text [] rest = rest
write_text (c ∷ s) rest = (c ∷ s) ∷ rest

-- The second loop: what it hands to the sink, in order.
pub write_snapshots : Snapshots → List Bytes
write_snapshots [] = []
write_snapshots ((start, ws) ∷ m) =
    write_text (serialize_windows start (sort ws)) (write_snapshots m)

-- Grouping nothing writes nothing, so the early return needs no test of its own; it is kept.
unfoldable pub write_windows : List WindowStats → List Bytes
write_windows [] = []
write_windows (w ∷ ws) = write_snapshots (group_into [] (w ∷ ws))
