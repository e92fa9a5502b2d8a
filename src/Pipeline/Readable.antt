-- ===== src/Pipeline/Readable.antt =====
-- The texts that a flush of app/src/runtime/MarketDataPipeline.cpp writes are blocks that can be read:
-- what the trades must be for it.
use mathlib.Core.List.{map-append}
use mathlib.Core.List.Perm
use mathlib.Core.Path.{subst, ap₂}
use binance_aggregator.Prelude.{
  ℕ, ◌≡◌, refl, sym, ◌∙◌, inl, inr, List, [], ◌∷◌, ◌++◌, map, Option, none, some, Bytes, arith, All,
  All-map, All-append, All-split, Any, Bool-cases,
}
use binance_aggregator.Prelude.Fields.{Lacks, Lacks-IsProp}
use binance_aggregator.Prelude.Int.{IsI64, IsI64-IsProp, wrap-IsI64}
use binance_aggregator.Prelude.Perms.{concat, All_of_Perm}
use binance_aggregator.StrictOrder.{text_order, nat_order, eq_of_same, same_refl}
use binance_aggregator.Aggregation.{TradeEvent, WindowStats}
use binance_aggregator.Aggregation.Summary.{Summary, Describes, bucket, belongs}
use binance_aggregator.Output.{StatsSnapshot, serialize}
use binance_aggregator.Output.Reading.{IsReadable}
use binance_aggregator.Output.Blocks.{IsBlock}
use binance_aggregator.Writer.Lookup.{found, is_window, AreDistinct}
use binance_aggregator.Writer.Snapshots.{IsSnapshot, write_windows-IsListing}
use binance_aggregator.Pipeline.Accounts.{Reports, Writes}

-- A trade whose symbol has no space, with a price of int64_t.
pub record IsPlain (t : TradeEvent) : Type 0 where
  pub one_word : Lacks b' ' t.symbol
  pub price : IsI64 t.price.raw

found_past :
    (x : WindowStats) (xs : List WindowStats) (y : WindowStats)
    → found x.symbol x.window_start_ms xs ≡ none
    → found y.symbol y.window_start_ms xs ≡ some y
    → found y.symbol y.window_start_ms (x ∷ xs) ≡ some y
unfolding found
found_past x xs y h e = elim (Bool-cases (is_window y.symbol y.window_start_ms x)) [
  | inr other ↦ rw other e
  | inl hit ↦
      let same_symbol = eq_of_same x.symbol y.symbol (ground arith) in
      let same_start = eq_of_same x.window_start_ms y.window_start_ms (ground arith) in
      absurd (cc (rw (same_symbol, same_start) at h, e))
]

-- Distinct windows are found under their own symbol and start.
found_itself :
    (xs : List WindowStats)
    → AreDistinct xs
    → All (λ y. found y.symbol y.window_start_ms xs ≡ some y) xs
unfolding found
found_itself [] d = tt
found_itself (x ∷ xs) d = (
  rw (same_refl x.symbol, same_refl x.window_start_ms) refl,
  All-map _ _ xs (λ y. found_past x xs y d.0) (found_itself xs d.1),
)

bucket-All :
    (P : TradeEvent → Type 0) (window_ms : ℕ) (s : Bytes) (k : ℕ) (ts : List TradeEvent)
    → All P ts
    → All (λ t. P t × (t.symbol ≡ s)) (bucket window_ms s k ts)
bucket-All P m s k [] h = tt
bucket-All P m s k (t ∷ ts) h = elim (Bool-cases (belongs m s k t)) [
  | inr miss ↦ rw miss (bucket-All P m s k ts h.1)
  | inl mine ↦ rw mine ((h.0, eq_of_same t.symbol s (ground arith)), bucket-All P m s k ts h.1)
]

-- One element has both of what all have and what one has.
one_of {ℓ} :
    {A : Type ℓ} {P Q : A → Type 0} {C : Type 0} (xs : List A)
    → ((x : A) → P x → Q x → C)
    → All P xs
    → Any Q xs
    → C
one_of [] f a b = absurd b
one_of (x ∷ xs) f a (inl q) = f x a.0 q
one_of (x ∷ xs) f a (inr b) = one_of xs f a.1 b

Describes-IsReadable :
    (s : Bytes) (k : ℕ) (ts : List TradeEvent) (w : WindowStats)
    → All (λ t. IsPlain t × (t.symbol ≡ s)) ts
    → Describes s k ts w
    → IsReadable w
Describes-IsReadable s k ts w a d = record {
  one_word =
      one_of ts (λ t p q. subst (Lacks b' ') (p.1 ∙ sym d.symbol_key) p.0.one_word) a
        d.lowest_occurs;
  volume = subst (λ x. IsI64 x.raw) (sym d.volume) (wrap-IsI64 _);
  lowest = one_of ts (λ t p q. subst (λ x. IsI64 x.raw) q p.0.price) a d.lowest_occurs;
  highest = one_of ts (λ t p q. subst (λ x. IsI64 x.raw) q p.0.price) a d.highest_occurs;
}

Summary-IsReadable :
    (s : Bytes) (k : ℕ) (ts : List TradeEvent) (o : Option WindowStats) (w : WindowStats)
    → All (λ t. IsPlain t × (t.symbol ≡ s)) ts
    → Summary s k ts o
    → o ≡ some w
    → IsReadable w
Summary-IsReadable s k ts o w a (inl (_, e)) f = absurd (cc)
Summary-IsReadable s k ts o w a (inr (x, e, d)) f =
    let same_window : x ≡ w = cc in
    Describes-IsReadable s k ts w a (subst (Describes s k ts) same_window d)

pub Reports-IsReadable :
    (window_ms : ℕ) (ts : List TradeEvent) (ws : List WindowStats)
    → All IsPlain ts
    → Reports window_ms ts ws
    → All IsReadable ws
Reports-IsReadable m ts ws a r =
    All-map _ _ ws
      (λ w e.
        Summary-IsReadable w.symbol w.window_start_ms (bucket m w.symbol w.window_start_ms ts) _ w
          (bucket-All IsPlain m w.symbol w.window_start_ms ts a)
          (r.summaries w.symbol w.window_start_ms) e)
      (found_itself ws r.distinct)

IsReadable-IsProp : (w : WindowStats) → IsProp (IsReadable w)
IsReadable-IsProp w = hlevel (Lacks-IsProp, IsI64-IsProp)

-- The snapshots of a flush, block by block.
listing_blocks :
    (snapshots : List StatsSnapshot)
    → All IsSnapshot snapshots
    → All IsReadable (concat (map (λ x. x.windows) snapshots))
    → All IsBlock snapshots
listing_blocks [] h r = tt
listing_blocks (x ∷ xs) h r =
    let (first, rest) = All-split IsReadable x.windows (concat (map (λ y. y.windows) xs)) r in
    (record { some_window = h.0.some_window; readable = first }, listing_blocks xs h.1 rest)

-- Texts written from plain trades are those of snapshots that are in order and can be read.
pub Writes-blocks :
    (window_ms : ℕ) {parts : List (List TradeEvent)} {texts : List Bytes}
    → Writes window_ms parts texts
    → All (All IsPlain) parts
    → (snapshots : List StatsSnapshot) × (texts ≡ map serialize snapshots)
      × All IsSnapshot snapshots
      × All IsBlock snapshots
Writes-blocks m Writes.nothing h = ([], refl, tt, tt)
Writes-blocks m (Writes.writes {ts = ts} {windows = ws} r w) h =
    let (first, one, l) = write_windows-IsListing ws r.distinct in
    let (rest, more, in_order, read) = Writes-blocks m w h.1 in
    let readable : All IsReadable (concat (map (λ x. x.windows) first)) =
      All_of_Perm IsReadable IsReadable-IsProp (Perm.symm l.complete)
        (Reports-IsReadable m ts ws h.0 r) in
    (
      first ++ rest,
      ap₂ ◌++◌ one more ∙ sym (map-append serialize first rest),
      All-append IsSnapshot first rest l.blocks in_order,
      All-append IsBlock first rest (listing_blocks first l.blocks readable) read,
    )
