-- ===== src/Threads/Linear.antt =====
-- Every interleaving of the threads writes what one sequential pipeline writes.
pub mod Moves
use mathlib.Core.Path.{subst, fun_ext}
use binance_aggregator.Prelude.{
  ℕ, suc, ◌<◌, ◌≡◌, refl, sym, ap, ◌∙◌, append-nil, map, inl, inr, Bool, true, List, [], ◌∷◌, ◌++◌,
  Bytes, arith, ◌==◌, if◌then◌else◌, All, keep, Bool-cases, ==_iff, Option-cases, ◌≢◌, ltb-cases,
  Option, none, some,
}
use binance_aggregator.BoundedQueue.{BoundedQueue, shutdown}
use binance_aggregator.Aggregation
use binance_aggregator.Aggregation.{TradeEvent, WindowStats, MarketDataAggregator, add_trade}
use binance_aggregator.Json.{JsonLibrary}
use binance_aggregator.TradeParser
use binance_aggregator.Pipeline.{Shard, Event, traded, ticked, stopped, aggregate}
use binance_aggregator.Pipeline.Book.{flushes_of, flushes_of-append}
use binance_aggregator.Writer.{write_windows}
use binance_aggregator.Threads.{
  awaits_trade, adds, Writer, sleeps, extracts, Stopper, stop_returned, flushes, System, update,
  set_queue, set_aggregator, start, parsed, taken, shard_of, for_shard, writer_extracted,
  stop_extracted, Move, Input,
}
use binance_aggregator.Threads.Control.{IsOrdered, IsShardOrdered}
use binance_aggregator.Threads.Flow.{Flows, trades_of, worker_holds, unadded, unrouted}
use binance_aggregator.Threads.Sequence.{extraction, completed, remaining, trade_at}
use binance_aggregator.Threads.Sweep.{Idle, Sweeping, append_at}
use binance_aggregator.Threads.Sweep.Steps.{Idle-add, Sweeping-add_behind, Sweeping-add_ahead}

-- Whether a flush is on: none, flush_completed_windows, flush_remaining_windows, or none any more.
pub data Phase : Type 0 where
  between : Phase
  completes : ℕ → ℕ → List WindowStats → Phase
  remains : ℕ → List WindowStats → Phase
  over : Phase

abbrev writer_phase : Writer → Phase
writer_phase (extracts now k ws) = completes now k ws
writer_phase _ = between

abbrev pub phase : Writer → Stopper → Phase
phase w (flushes k ws) = remains k ws
phase w stop_returned = over
phase w _ = writer_phase w

abbrev pub aggregators : (ℕ → Shard) → ℕ → MarketDataAggregator
aggregators shards i = (shards i).aggregator

set_queue-aggregators :
    (shards : ℕ → Shard) (j : ℕ) (q : BoundedQueue TradeEvent) (i : ℕ)
    → aggregators (set_queue shards j q) i ≡ aggregators shards i
set_queue-aggregators shards j q i = elim (Bool-cases (j == i)) [
  | inl same ↦ ground (arith, same, ap (aggregators shards) ((==_iff j i).0 same))
  | inr other ↦ ground (arith, other)
]

-- The events that explain a state: the ticks among them are the times that the writer has read, and
-- they have no stop but the one that is named.
abbrev pub Explained :
    (Bytes → ℕ)
    → ℕ
    → ℕ
    → Phase
    → (ℕ → MarketDataAggregator)
    → List Bytes
    → (ℕ → List TradeEvent)
    → List ℕ
    → Type 0
Explained hash n w between A W D C =
    (es : List Event) × Idle hash n w (λ i. Aggregation.new w) A W D es
    × (flushes_of es ≡ map ticked C)
Explained hash n w (completes now k ws) A W D C =
    (es : List Event) × (late : List Event) × Sweeping hash n w (λ i. Aggregation.new w)
      (completed now) k ws A W D es late
    × (flushes_of es ++ ticked now ∷ [] ≡ map ticked C)
Explained hash n w (remains k ws) A W D C =
    (es : List Event) × Sweeping hash n w (λ i. Aggregation.new w) remaining k ws A W D es []
    × (flushes_of es ≡ map ticked C)
Explained hash n w over A W D C =
    (es : List Event) × Idle hash n w (λ i. Aggregation.new w) A W D (es ++ stopped ∷ [])
    × (flushes_of es ≡ map ticked C)

All-right : (P : TradeEvent → Type 0) (xs ys : List TradeEvent) → All P (xs ++ ys) → All P ys
All-right P [] ys h = h
All-right P (x ∷ xs) ys h = All-right P xs ys h.1

keep-All : (p : TradeEvent → Bool) (xs : List TradeEvent) → All (λ x. p x ≡ true) (keep p xs)
keep-All p [] = tt
keep-All p (x ∷ xs) = elim (Bool-cases (p x)) [
  | inl kept ↦ rw kept (kept, keep-All p xs)
  | inr dropped ↦ rw dropped (keep-All p xs)
]

flushes_of-add :
    (es : List Event) (t : TradeEvent) → flushes_of (es ++ traded t ∷ []) ≡ flushes_of es
flushes_of-add es t = flushes_of-append es (traded t ∷ []) ∙ append-nil (flushes_of es)

module _ (lib : JsonLibrary) (hash : Bytes → ℕ) (n window_ms : ℕ) where
  -- A thread only has trades of its own shard.
  adds_own :
      (i : ℕ) (s : System) (t : TradeEvent)
      → s.workers i ≡ adds t
      → Flows lib hash n i s
      → shard_of hash n t ≡ i
  adds_own i s t e f =
      let own : TradeEvent → Bool = λ t. shard_of hash n t == i in
      let all : All (λ t. own t ≡ true)
          (unadded lib hash n i s ++ for_shard hash n i (unrouted lib hash n s)) =
        All-right (λ t. own t ≡ true) (s.added i) _
          (subst (All (λ t. own t ≡ true)) f (keep-All own (trades_of lib s.accepted))) in
      (==_iff (shard_of hash n t) i).0 (
        (subst
          (λ w.
            All (λ t. own t ≡ true)
              ((worker_holds w ++ (s.shards i).queue.items)
                ++ for_shard hash n i (unrouted lib hash n s)))
          e all).0)

  -- The state is that of a sequence of events.
  abbrev pub Linear : System → Type 0
  Linear s =
      Explained hash n window_ms (phase s.writer s.stopper) (aggregators s.shards) s.written s.added
        s.clock

  pub Explained-same :
      {ph qh : Phase} {A B : ℕ → MarketDataAggregator} (W : List Bytes) (D : ℕ → List TradeEvent)
      (C : List ℕ)
      → ph ≡ qh
      → ((i : ℕ) → B i ≡ A i)
      → Explained hash n window_ms ph A W D C
      → Explained hash n window_ms qh B W D C
  Explained-same {ph} {qh} {A} {B} W D C e h v =
      subst (λ x. Explained hash n window_ms x B W D C) e
        (subst (λ F. Explained hash n window_ms ph F W D C) (fun_ext (λ i. sym (h i))) v)

  pub start-Linear : (c d : ℕ) → Linear (start window_ms c d)
  start-Linear c d =
      ([], record { aggregators = λ i l. refl; texts = refl; trades = λ i l. refl }, refl)

  -- A trade is added in its shard.
  Explained-add :
      (ph : Phase) (A : ℕ → MarketDataAggregator) {B : ℕ → MarketDataAggregator} (W : List Bytes)
      (D : ℕ → List TradeEvent) {E : ℕ → List TradeEvent} (C : List ℕ) (t : TradeEvent)
      → ((k : ℕ) (ws : List WindowStats) → ph ≢ remains k ws)
      → ph ≢ over
      → ((i : ℕ) → i < n → B i ≡ trade_at (shard_of hash n t) t i (A i))
      → ((i : ℕ)
          → i < n
          → E i
            ≡ append_at hash n window_ms
                (λ i. Aggregation.new window_ms)
                (shard_of hash n t)
                t
                i
                (D i))
      → Explained hash n window_ms ph A W D C
      → Explained hash n window_ms ph B W E C
  Explained-add between A W D C t r o ha hd (es, v, c) =
      (es ++ traded t ∷ [], Idle-add hash n window_ms _ t es ha hd v, flushes_of-add es t ∙ c)
  Explained-add (completes now k ws) A W D C t r o ha hd (es, late, v, c) =
      elim (ltb-cases (shard_of hash n t) k) [
        | inl behind ↦ (
          es,
          late ++ traded t ∷ [],
          Sweeping-add_behind hash n window_ms _ t (completed now) k ws es late behind ha hd v,
          c,
        )
        | inr ahead ↦ (
          es ++ traded t ∷ [],
          late,
          Sweeping-add_ahead hash n window_ms _ t (completed now) k ws es late ahead ha hd v,
          ap (λ l. l ++ ticked now ∷ []) (flushes_of-add es t) ∙ c,
        )
      ]
  Explained-add (remains k ws) A W D C t r o ha hd v = absurd (r k ws refl)
  Explained-add over A W D C t r o ha hd v = absurd (o refl)

  parsed-Linear :
      (r : Option Bytes) (q : BoundedQueue Bytes) (s : System)
      → Linear s
      → Linear (parsed lib r (record s { raw_queue = q }))
  unfolding parsed
  parsed-Linear none q s v = v
  parsed-Linear (some raw) q s v = elim (Option-cases (TradeParser.parse lib raw)) [
    | inl no_trade ↦ rw (no_trade, parsed) v
    | inr found ↦ rw (found.1, parsed) v
  ]

  taken-Linear : (i : ℕ) (r : Option TradeEvent) (s : System) → Linear s → Linear (taken i r s)
  unfolding taken
  taken-Linear i none s v = v
  taken-Linear i (some t) s v = v

  added-Linear :
      (j : ℕ) (t : TradeEvent) (s : System)
      → s.workers j ≡ adds t
      → shard_of hash n t ≡ j
      → j < n
      → IsOrdered s
      → IsShardOrdered j s
      → Linear s
      → Linear (record s {
        shards = update s.shards j (aggregate t (s.shards j));
        workers = update s.workers j awaits_trade;
        added = update s.added j (s.added j ++ t ∷ []);
      })
  unfolding aggregate
  added-Linear j t s e own l o v x =
      Explained-add (phase s.writer s.stopper) (aggregators s.shards) s.written s.added s.clock t
        (λ k ws h. ground (arith, h, e)) (λ h. ground (arith, h, e))
        (λ i m. elim (Bool-cases (j == i)) [
          | inl same ↦ ground (
            arith,
            same,
            own,
            ap (λ k. add_trade (aggregators s.shards k) t) ((==_iff j i).0 same),
          )
          | inr other ↦ ground (arith, other, own)
        ])
        (λ i m. elim (Bool-cases (j == i)) [
          | inl same ↦ ground (arith, same, own, ap s.added ((==_iff j i).0 same))
          | inr other ↦ ground (arith, other, own)
        ])
        x
