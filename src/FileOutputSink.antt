-- ===== src/FileOutputSink.antt =====
-- app/include/agg/output/FileOutputSink.hpp and app/src/output/FileOutputSink.cpp. std::ofstream is
-- an interface; the standard's documentation of it is in FileLibrary.Appends.
pub mod Appends
use binance_aggregator.Prelude.{
  Bool, true, false, not, List, [], ◌∷◌, ◌++◌, Option, none, some, Bytes, ◌≡◌, if◌then◌else◌,
}

pub record FileLibrary : Type 1 where
  pub Stream : Type 0
  -- The constructor with std::ios::out | std::ios::app.
  pub open_append : Bytes → Stream
  pub is_open : Stream → Bool
  -- operator<< with a std::string
  pub put : Stream → Bytes → Stream
  pub flush : Stream → Stream
  -- The negation of operator!
  pub is_good : Stream → Bool

module _ (files : FileLibrary) where
  pub record FileOutputSink : Type 0 where
    pub stream : files.Stream

  -- The constructor; none is a std::runtime_error.
  unfoldable pub new : Bytes → Option FileOutputSink
  new path =
      let stream = files.open_append path in
      if not (files.is_open stream) then none else some (record { stream = stream })

  -- What a call of write did: it returned or it threw, and it left a sink.
  pub data Written : Type 0 where
    returned throws : FileOutputSink → Written

  unfoldable pub write : FileOutputSink → Bytes → Written
  write sink text =
      let stream = files.flush (files.put sink.stream text) in
      if not (files.is_good stream)
      then throws (record { stream = stream })
      else returned (record { stream = stream })

  abbrev pub then_write : Written → (FileOutputSink → Written) → Written
  then_write (returned sink) f = f sink
  then_write (throws sink) f = throws sink

  -- The calls of a caller that does not catch, in order.
  unfoldable pub write_all : FileOutputSink → List Bytes → Written
  write_all sink [] = returned sink
  write_all sink (text ∷ texts) = then_write (write sink text) (λ next. write_all next texts)
