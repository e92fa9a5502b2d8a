-- ===== src/Threads/Again.antt =====
-- The call of stop() that the destructor of MarketDataPipeline makes behind the one of main
-- (app/src/runtime/MarketDataPipeline.cpp), with the threads at their ends.
pub mod Kept
pub mod Returns
use binance_aggregator.Prelude.{ℕ, ◌≤◌, ◌<◌, ◌≡◌, true, List, [], Bytes}
use binance_aggregator.Aggregation.{extract_all_windows}
use binance_aggregator.Json.{JsonLibrary}
use binance_aggregator.Threads.{
  parser_ended, worker_ended, writer_ended, Stopper, not_called, joins_writer, shuts, flushes,
  System, Move, Input,
}

module _ (n : ℕ) where
  -- What the first call leaves.
  pub record IsOver (s : System) : Type 0 where
    pub raw_shut : s.raw_queue.shut ≡ true
    pub shards_shut : (i : ℕ) → i < n → (s.shards i).queue.shut ≡ true
    pub empty :
        (i : ℕ)
        → i < n
        → extract_all_windows (s.shards i).aggregator ≡ ([], (s.shards i).aggregator)
    pub parser_over : s.parser ≡ parser_ended
    pub writer_over : s.writer ≡ writer_ended
    pub workers_over : (i : ℕ) → i < n → s.workers i ≡ worker_ended

  -- Where the second call can be: it has no windows.
  abbrev pub IsAt : Stopper → Type 0
  IsAt not_called = ⊥
  IsAt (shuts i) = i ≤ n
  IsAt (flushes i ws) = (i ≤ n) × (ws ≡ [])
  IsAt _ = Unit

  -- Nothing but the position of the call is changed.
  pub record IsUnchanged (s t : System) : Type 0 where
    pub raw_queue : t.raw_queue ≡ s.raw_queue
    pub shards : (i : ℕ) → t.shards i ≡ s.shards i
    pub parser : t.parser ≡ s.parser
    pub workers : (i : ℕ) → t.workers i ≡ s.workers i
    pub writer : t.writer ≡ s.writer
    pub written : t.written ≡ s.written
    pub accepted : t.accepted ≡ s.accepted
    pub added : (i : ℕ) → t.added i ≡ s.added i
    pub requested : t.stop_requested ≡ true
    pub position : IsAt t.stopper

module _ (lib : JsonLibrary) (hash : Bytes → ℕ) (n window_ms : ℕ) where
  -- What the second call and the callers of submit_raw_message make of a state in which the first
  -- call has returned. The joins pass at once, since a thread that was joined is not joinable.
  pub data Again (s : System) : System → Type 0 where
    called : Again s (record s { stop_requested = true; stopper = joins_writer })
    moves : {t u : System} → Again s t → Move lib hash n window_ms t u → Again s u
    inputs : {t u : System} → Again s t → Input lib hash n window_ms t u → Again s u
