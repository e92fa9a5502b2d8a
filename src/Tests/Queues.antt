-- ===== src/Tests/Queues.antt =====
-- Runs of app/include/agg/runtime/BoundedQueue.hpp.
use binance_aggregator.Prelude.{ℕ, ◌≡◌, refl, true, false, List, [], ◌∷◌, arith}
use binance_aggregator.BoundedQueue.{BoundedQueue, returns, push, pop, shutdown}
use binance_aggregator.BoundedQueue.Fifo
use binance_aggregator.BoundedQueue.Fifo.{
  Call, pushes, pops, shuts, Trace, begin, run, IsFaithful, run-IsFaithful, drain, drain-shutdown,
}

abbrev two_of_two : BoundedQueue ℕ
two_of_two = record { items = 4 ∷ 5 ∷ []; capacity = 2; shut = false }

abbrev one_of_two : BoundedQueue ℕ
one_of_two = record { items = 4 ∷ []; capacity = 2; shut = false }

abbrev calls : List (Call ℕ)
calls = pushes 4 ∷ pushes 5 ∷ pushes 6 ∷ pops ∷ shuts ∷ pushes 7 ∷ []

trace_of_calls : (run (begin 2) calls).accepted ≡ 4 ∷ 5 ∷ []
unfolding run Fifo.step push pop shutdown
trace_of_calls = refl

pushes_second : push one_of_two 5 ≡ returns true two_of_two
unfolding push
pushes_second = refl

run-IsFaithful_example : IsFaithful 2 (run (begin 2) calls)
run-IsFaithful_example = run-IsFaithful 2 calls

drain-shutdown_example : drain 3 (shutdown two_of_two) ≡ (4 ∷ 5 ∷ [], true)
drain-shutdown_example = drain-shutdown two_of_two 3 (omega arith)
