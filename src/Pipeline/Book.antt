-- ===== src/Pipeline/Book.antt =====
-- What the flushes of app/src/runtime/MarketDataPipeline.cpp promise, without windows, maps and
-- shards: the trades not yet written are a list, and an event takes some of them.
use mathlib.Core.List.{Perm, perm_middle}
use mathlib.Core.List.Perm
use binance_aggregator.Prelude.{
  ℕ, ◌-◌, ◌%◌, ◌≡◌, refl, ap, Bool, true, false, not, List, [], ◌∷◌, ◌++◌, append_assoc, ltb, keep,
}
use binance_aggregator.Prelude.Perms.{concat, keep-Perm, keep_none, keep_all}
use binance_aggregator.Aggregation.{TradeEvent, window_start}
use binance_aggregator.Pipeline.{Event, traded, ticked, stopped}

-- The trades of the events, in order.
abbrev pub traded_of : List Event → List TradeEvent
traded_of [] = []
traded_of (traded t ∷ es) = t ∷ traded_of es
traded_of (ticked now ∷ es) = traded_of es
traded_of (stopped ∷ es) = traded_of es

pub traded_of-append : (xs ys : List Event) → traded_of (xs ++ ys) ≡ traded_of xs ++ traded_of ys
traded_of-append [] ys = refl
traded_of-append (traded t ∷ xs) ys = ap (◌∷◌ t) (traded_of-append xs ys)
traded_of-append (ticked now ∷ xs) ys = traded_of-append xs ys
traded_of-append (stopped ∷ xs) ys = traded_of-append xs ys

-- The flushes among the events, in order.
abbrev pub flushes_of : List Event → List Event
flushes_of [] = []
flushes_of (traded t ∷ es) = flushes_of es
flushes_of (ticked now ∷ es) = ticked now ∷ flushes_of es
flushes_of (stopped ∷ es) = stopped ∷ flushes_of es

pub flushes_of-append :
    (xs ys : List Event) → flushes_of (xs ++ ys) ≡ flushes_of xs ++ flushes_of ys
flushes_of-append [] ys = refl
flushes_of-append (traded t ∷ xs) ys = flushes_of-append xs ys
flushes_of-append (ticked now ∷ xs) ys = ap (◌∷◌ (ticked now)) (flushes_of-append xs ys)
flushes_of-append (stopped ∷ xs) ys = ap (◌∷◌ stopped) (flushes_of-append xs ys)

module _ (window_ms : ℕ) where
  -- Whether the window of a trade that starts at `start` is taken by an event.
  abbrev pub takes : Event → ℕ → Bool
  takes (traded t) start = false
  takes (ticked now) start = ltb start (now - now % window_ms)
  takes stopped start = true

  abbrev pub takes_trade : Event → TradeEvent → Bool
  takes_trade e t = takes e (window_start window_ms t.trade_time_ms)

  -- The trades that an event takes from the held ones.
  abbrev pub batch : List TradeEvent → Event → List TradeEvent
  batch held e = keep (takes_trade e) held

  -- Those that are held behind it, the latest first.
  abbrev pub left : List TradeEvent → Event → List TradeEvent
  left held (traded t) = t ∷ held
  left held (ticked now) = keep (λ t. not (takes_trade (ticked now) t)) held
  left held stopped = []

  abbrev pub batches : List TradeEvent → List Event → List (List TradeEvent)
  batches held [] = []
  batches held (e ∷ es) = batch held e ∷ batches (left held e) es

-- Every trade, and every one that was held, is in one batch, if what remains is taken at the end.
pub batches-Perm :
    (window_ms : ℕ) (held : List TradeEvent) (es : List Event)
    → Perm (concat (batches window_ms held (es ++ stopped ∷ []))) (held ++ traded_of es)
batches-Perm m held [] = rw (keep_all held) (Perm.refl (held ++ []))
batches-Perm m held (traded t ∷ es) =
    rw (keep_none held)
      (Perm.trans (batches-Perm m (t ∷ held) es) (Perm.symm (perm_middle held (traded_of es))))
batches-Perm m held (ticked now ∷ es) =
    let kept = keep (takes_trade m (ticked now)) held in
    let rest = keep (λ t. not (takes_trade m (ticked now) t)) held in
    Perm.trans (Perm.append_left kept (batches-Perm m rest es)) (
      rw (← append_assoc kept rest (traded_of es))
        (Perm.append_right (traded_of es) (keep-Perm (takes_trade m (ticked now)) held)))
batches-Perm m held (stopped ∷ es) =
    rw (keep_all held) (Perm.append_left held (batches-Perm m [] es))
