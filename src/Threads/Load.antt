-- ===== src/Threads/Load.antt =====
-- What the threads of app/src/runtime/MarketDataPipeline.cpp still have to do, as a number.
use binance_aggregator.Prelude.{
  ℕ, zero, suc, ◌+◌, ◌*◌, ◌-◌, ◌<◌, ◌≡◌, refl, ap, false, length, arith, ◌==◌, Bool-cases, inl, inr,
  ==_iff,
}
use binance_aggregator.Pipeline.{Shard}
use binance_aggregator.Threads.{
  Parser, awaits_message, routes, parser_ended, Worker, awaits_trade, adds, worker_ended, update,
  Writer, sleeps, extracts, writer_ended, Stopper, not_called, joins_writer, joins_parser,
  joins_workers, stop_returned, shuts, flushes, System,
}

abbrev pub sum : ℕ → (ℕ → ℕ) → ℕ
sum zero f = 0
sum (suc n) f = f n + sum n f

sum-congr : (n : ℕ) (f g : ℕ → ℕ) → ((i : ℕ) → i < n → g i ≡ f i) → sum n g ≡ sum n f
sum-congr zero f g h = refl
sum-congr (suc n) f g h =
    omega (arith, h n (omega arith), sum-congr n f g (λ i l. h i (omega (arith, l))))

-- Two families that differ at `j` alone.
sum-change :
    (n : ℕ) (f g : ℕ → ℕ) (j : ℕ)
    → j < n
    → ((i : ℕ) → (j == i) ≡ false → g i ≡ f i)
    → sum n g + f j ≡ sum n f + g j
sum-change zero f g j l h = absurd (omega (arith, l))
sum-change (suc n) f g j l h = elim (Bool-cases (j == n)) [
  | inl same ↦ ground (
    arith,
    (==_iff j n).0 same,
    ap f ((==_iff j n).0 same),
    ap g ((==_iff j n).0 same),
    sum-congr n f g (λ i k. h i (ground (arith, (==_iff j n).0 same, k))),
  )
  | inr other ↦ omega (arith, h n other, sum-change n f g j (ground (arith, l, other)) h)
]

abbrev pub parser_work : Parser → ℕ
parser_work awaits_message = 1
parser_work (routes t) = 4
parser_work parser_ended = 0

abbrev pub worker_work : Worker → ℕ
worker_work awaits_trade = 1
worker_work (adds t) = 2
worker_work worker_ended = 0

abbrev pub writer_work : ℕ → Writer → ℕ
writer_work n sleeps = 1
writer_work n (extracts now i ws) = 2 + (n - i)
writer_work n writer_ended = 0

abbrev pub stopper_work : ℕ → Stopper → ℕ
stopper_work n not_called = 2 * n + 7
stopper_work n joins_writer = 2 * n + 6
stopper_work n joins_parser = 2 * n + 5
stopper_work n (shuts i) = (n + 4) + (n - i)
stopper_work n joins_workers = n + 3
stopper_work n (flushes i ws) = (n - i) + 1
stopper_work n stop_returned = 0

-- What thread `i` still has to do.
abbrev pub load : (ℕ → Shard) → (ℕ → Worker) → ℕ → ℕ
load shards workers i = 2 * length (shards i).queue.items + worker_work (workers i)

-- The moves that are left, at most.
abbrev pub work : ℕ → System → ℕ
work n s =
    (4 * length s.raw_queue.items + parser_work s.parser)
    + (sum n (load s.shards s.workers) + (writer_work n s.writer + stopper_work n s.stopper))

pub shard-work :
    (n : ℕ) (shards : ℕ → Shard) (workers : ℕ → Worker) (j : ℕ) (x : Shard)
    → j < n
    → sum n (load (update shards j x) workers) + 2 * length (shards j).queue.items
      ≡ sum n (load shards workers) + 2 * length x.queue.items
shard-work n shards workers j x l = ground (
  arith,
  sum-change n (load shards workers) (load (update shards j x) workers) j l
      (λ i h. ground (arith, h)),
)

pub worker-work :
    (n : ℕ) (shards : ℕ → Shard) (workers : ℕ → Worker) (j : ℕ) (w : Worker)
    → j < n
    → sum n (load shards (update workers j w)) + worker_work (workers j)
      ≡ sum n (load shards workers) + worker_work w
worker-work n shards workers j w l = ground (
  arith,
  sum-change n (load shards workers) (load shards (update workers j w)) j l
      (λ i h. ground (arith, h)),
)
