-- ===== src/Threads/Flow.antt =====
-- The way of a trade from an accepted message to the aggregator of its shard, one lemma for a move.
use binance_aggregator.Prelude.{
  ℕ, ◌≡◌, refl, sym, ap, ◌∙◌, inl, inr, List, [], ◌∷◌, ◌++◌, append_assoc, Option, none, some,
  Bytes, arith, ◌==◌, Bool-cases, keep-append, Option-cases, ==_iff,
}
use binance_aggregator.BoundedQueue.{BoundedQueue, returns, pop}
use binance_aggregator.BoundedQueue.Bounds.{pop-Popped}
use binance_aggregator.Aggregation.{TradeEvent}
use binance_aggregator.Json.{JsonLibrary}
use binance_aggregator.TradeParser
use binance_aggregator.Pipeline.{aggregate}
use binance_aggregator.Threads.{
  Parser, awaits_message, routes, Worker, awaits_trade, adds, System, update, set_queue, start,
  parsed, taken, shard_of, for_shard,
}

abbrev pub to_list : Option TradeEvent → List TradeEvent
to_list none = []
to_list (some t) = t ∷ []

-- The trades that messages carry, in order.
abbrev pub trades_of : JsonLibrary → List Bytes → List TradeEvent
trades_of lib [] = []
trades_of lib (raw ∷ raws) = to_list (TradeParser.parse lib raw) ++ trades_of lib raws

pub trades_of-append :
    (lib : JsonLibrary) (xs ys : List Bytes)
    → trades_of lib (xs ++ ys) ≡ trades_of lib xs ++ trades_of lib ys
trades_of-append lib [] ys = refl
trades_of-append lib (x ∷ xs) ys =
    ap (◌++◌ (to_list (TradeParser.parse lib x))) (trades_of-append lib xs ys)
    ∙ sym (append_assoc (to_list (TradeParser.parse lib x)) (trades_of lib xs) (trades_of lib ys))

-- The trade that a thread holds.
abbrev pub parser_holds : Parser → List TradeEvent
parser_holds (routes t) = t ∷ []
parser_holds _ = []

abbrev pub worker_holds : Worker → List TradeEvent
worker_holds (adds t) = t ∷ []
worker_holds _ = []

module _ (lib : JsonLibrary) (hash : Bytes → ℕ) (n : ℕ) where
  -- What the parser has before it.
  abbrev pub unrouted : System → List TradeEvent
  unrouted s = parser_holds s.parser ++ trades_of lib s.raw_queue.items

  -- What is behind the parser and not yet added, of shard `i`.
  abbrev pub unadded : ℕ → System → List TradeEvent
  unadded i s = worker_holds (s.workers i) ++ (s.shards i).queue.items

  -- The trades of shard `i` in the accepted messages are those that were added, then those on their
  -- way, in this order.
  abbrev pub Flows : ℕ → System → Type 0
  Flows i s =
      for_shard hash n i (trades_of lib s.accepted)
      ≡ s.added i ++ (unadded i s ++ for_shard hash n i (unrouted s))

  module _ (i : ℕ) where
    pub start-Flows : (window_ms c d : ℕ) → Flows i (start window_ms c d)
    start-Flows window_ms c d = refl

    pub submits-Flows :
        (s : System) (raw : Bytes) (q : BoundedQueue Bytes)
        → q.items ≡ s.raw_queue.items ++ raw ∷ []
        → Flows i s
        → Flows i (record s { raw_queue = q; accepted = s.accepted ++ raw ∷ [] })
    submits-Flows s raw q e f =
        let more : List TradeEvent = for_shard hash n i (trades_of lib (raw ∷ [])) in
        ap (for_shard hash n i) (trades_of-append lib s.accepted (raw ∷ []))
        ∙ keep-append _ (trades_of lib s.accepted) (trades_of lib (raw ∷ []))
        ∙ ap (λ l. l ++ more) f
        ∙ simp (append_assoc, trades_of-append lib, keep-append (λ t. shard_of hash n t == i), e)

    pub parsed-Flows :
        (s : System) (r : Option Bytes) (q : BoundedQueue Bytes)
        → s.parser ≡ awaits_message
        → pop s.raw_queue ≡ returns r q
        → Flows i s
        → Flows i (parsed lib r (record s { raw_queue = q }))
    unfolding parsed
    parsed-Flows s none q e h f = ground (arith, pop-Popped s.raw_queue q none h)
    parsed-Flows s (some raw) q e h f = elim (Option-cases (TradeParser.parse lib raw)) [
      | inl no_trade ↦ ground (arith, pop-Popped s.raw_queue q (some raw) h, no_trade)
      | inr found ↦ ground (arith, pop-Popped s.raw_queue q (some raw) h, found)
    ]

    pub taken-Flows :
        (j : ℕ) (s : System) (r : Option TradeEvent) (q : BoundedQueue TradeEvent)
        → s.workers j ≡ awaits_trade
        → pop (s.shards j).queue ≡ returns r q
        → Flows i s
        → Flows i (taken j r (record s { shards = set_queue s.shards j q }))
    unfolding taken
    taken-Flows j s none q e h f = ground (arith, pop-Popped (s.shards j).queue q none h)
    taken-Flows j s (some x) q e h f = ground (arith, pop-Popped (s.shards j).queue q (some x) h)

    pub added-Flows :
        (j : ℕ) (s : System) (t : TradeEvent)
        → s.workers j ≡ adds t
        → Flows i s
        → Flows i (record s {
          shards = update s.shards j (aggregate t (s.shards j));
          workers = update s.workers j awaits_trade;
          added = update s.added j (s.added j ++ t ∷ []);
        })
    unfolding aggregate
    added-Flows j s t e f = elim (Bool-cases (j == i)) [
      | inl same ↦
          let eq : j ≡ i = (==_iff j i).0 same in
          let e' : s.workers i ≡ adds t = sym (ap s.workers eq) ∙ e in
          ground (
            arith,
            f,
            same,
            e',
            ap s.added eq,
            append_assoc (s.added i) (t ∷ [])
                ((s.shards i).queue.items ++ for_shard hash n i (unrouted s)),
          )
      | inr other ↦ ground (arith, other)
    ]

    pub pushed-Flows :
        (s : System) (t : TradeEvent) (q : BoundedQueue TradeEvent)
        → s.parser ≡ routes t
        → q.items ≡ (s.shards (shard_of hash n t)).queue.items ++ t ∷ []
        → Flows i s
        → Flows i (record s {
          shards = set_queue s.shards (shard_of hash n t) q;
          parser = awaits_message;
        })
    pushed-Flows s t q e h f = elim (Bool-cases (shard_of hash n t == i)) [
      | inl same ↦
          let eq : shard_of hash n t ≡ i = (==_iff (shard_of hash n t) i).0 same in
          let rest : List TradeEvent = for_shard hash n i (trades_of lib s.raw_queue.items) in
          let here : q.items ≡ (s.shards i).queue.items ++ t ∷ [] =
            h ∙ ap (λ k. (s.shards k).queue.items ++ t ∷ []) eq in
          ground (
            arith,
            f,
            e,
            same,
            here,
            append_assoc (worker_holds (s.workers i)) (s.shards i).queue.items (t ∷ []),
            append_assoc (unadded i s) (t ∷ []) rest,
          )
      | inr other ↦ ground (arith, other)
    ]
