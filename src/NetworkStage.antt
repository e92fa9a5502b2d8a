-- ===== src/NetworkStage.antt =====
-- app/include/agg/runtime/NetworkStage.hpp and app/src/runtime/NetworkStage.cpp: the reconnect loop.
-- What a connection attempt does is an input: the stage for which BinanceWebSocketClient::run called
-- its handler, if it did. stop() comes from another thread, so the moment at which it comes, if it
-- does, is an input too. The client object and the handler of the caller do not act on the loop.
pub mod Interleaving
pub mod LastClient
pub mod LastMoves
pub mod Retries
use binance_aggregator.Prelude.{
  Bool, true, false, ◌||◌, List, [], ◌∷◌, Option, none, some, ℕ, if◌then◌else◌,
}
use binance_aggregator.ReconnectPolicy
use binance_aggregator.ReconnectPolicy.{ReconnectPolicy, wait_for_next_attempt}
use binance_aggregator.ConnectionError.{ConnectionStage}

pub record NetworkStage : Type 0 where
  pub stop_requested : Bool
  pub policy : ReconnectPolicy

-- Where in a round stop() comes: until the load behind client_->run(), between that load and the
-- reset of the policy, while the policy waits, or not at all.
pub data StopMoment : Type 0 where
  never before_load before_reset while_waiting : StopMoment

pub record Attempt : Type 0 where
  pub reported : Option ConnectionStage
  pub stop_moment : StopMoment

-- The constructor.
abbrev pub new : ℕ → ℕ → NetworkStage
new initial maximum = record {
  stop_requested = false;
  policy = ReconnectPolicy.new initial maximum;
}

-- What stop() does to the loop's state; the socket is the client's.
unfoldable pub stop : NetworkStage → NetworkStage
stop stage = record stage { stop_requested = true; policy = ReconnectPolicy.stop stage.policy }

-- The flag that the handler sets.
abbrev pub had_successful_read : Option ConnectionStage → Bool
had_successful_read (some ConnectionStage.read) = true
had_successful_read _ = false

abbrev pub is_before_load : StopMoment → Bool
is_before_load before_load = true
is_before_load _ = false

abbrev pub is_before_reset : StopMoment → Bool
is_before_reset before_reset = true
is_before_reset _ = false

abbrev pub is_while_waiting : StopMoment → Bool
is_while_waiting while_waiting = true
is_while_waiting _ = false

-- The loop ended, or it goes on.
pub data Progress : Type 0 where
  ended continues : NetworkStage → Progress

-- What stands behind wait_for_next_attempt.
unfoldable pub after_wait : NetworkStage → Bool → Bool × ReconnectPolicy → Progress
after_wait stage stopped (waited, policy) =
    let next = record stage { stop_requested = stage.stop_requested || stopped; policy = policy } in
    if waited then continues next else ended next

-- From the reset to the end of the round.
unfoldable pub reset_and_wait : Bool → Bool → NetworkStage → Progress
unfolding after_wait
reset_and_wait read stopped stage =
    let policy = if read then ReconnectPolicy.reset stage.policy else stage.policy in
    after_wait stage stopped (wait_for_next_attempt stopped policy)

-- A round of the loop, behind its test.
unfoldable pub connect : NetworkStage → Attempt → Progress
connect stage a =
    let loaded = if is_before_load a.stop_moment then stop stage else stage in
    let behind = if is_before_reset a.stop_moment then stop loaded else loaded in
    if loaded.stop_requested
    then ended loaded
    else reset_and_wait (had_successful_read a.reported) (is_while_waiting a.stop_moment) behind

abbrev pub go_on : Progress → (NetworkStage → Progress) → Progress
go_on (ended stage) loop = ended stage
go_on (continues stage) loop = loop stage

-- The loop over the attempts to come: where it ended, or where it is when all are used up.
unfoldable pub run : NetworkStage → List Attempt → Progress
run stage [] = if stage.stop_requested then ended stage else continues stage
run stage (a ∷ attempts) =
    let rest = go_on (connect stage a) (λ next. run next attempts) in
    if stage.stop_requested then ended stage else rest
