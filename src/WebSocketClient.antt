-- ===== src/WebSocketClient.antt =====
-- BinanceWebSocketClient::run (app/src/net/BinanceWebSocketClient.cpp). What Boost and OpenSSL return
-- is an input: the error code of each call, the messages that are read, and the error code of the
-- read that fails at last. A read that waits for ever is not an input.
pub mod Reports
use binance_aggregator.Prelude.{Bool, not, List, [], ◌∷◌, Bytes, if◌then◌else◌}
use binance_aggregator.ConnectionError.{
  ConnectionStage, ConnectionErrorKind, ErrorCodes, classify_error,
}

module _ (lib : ErrorCodes) where
  pub record Connection : Type 0 where
    pub resolve_error : lib.ErrorCode
    -- What the load of stop_requested_ behind the resolve gives.
    pub stopped : Bool
    pub host_name_set : Bool
    pub host_name_error : lib.ErrorCode
    pub connect_error : lib.ErrorCode
    pub tls_error : lib.ErrorCode
    pub handshake_error : lib.ErrorCode
    pub messages : List Bytes
    pub read_error : lib.ErrorCode

  -- A call of the handler.
  pub record Report : Type 0 where
    pub stage : ConnectionStage
    pub kind : ConnectionErrorKind
    pub error : lib.ErrorCode

  -- The calls of the handler, and the items given to raw_message_queue_.push, both in order.
  pub record Effects : Type 0 where
    pub reports : List Report
    pub pushed : List Bytes

  -- error_handler(stage, classify_error(stage, ec), ec), if there is a handler, and return.
  unfoldable pub report : Bool → ConnectionStage → lib.ErrorCode → Effects
  report handled stage ec = record {
    reports =
        if handled
        then (record { stage = stage; kind = classify_error lib stage ec; error = ec }) ∷ []
        else [];
    pushed = [];
  }

  -- The loop of reads.
  unfoldable pub read_all : Bool → List Bytes → lib.ErrorCode → Effects
  read_all handled [] ec = report handled ConnectionStage.read ec
  read_all handled (message ∷ messages) ec =
      let rest = read_all handled messages ec in record rest { pushed = message ∷ rest.pushed }

  -- `handled` tells whether error_handler holds a function.
  unfoldable pub run : Bool → Connection → Effects
  run handled c =
      if lib.is_error c.resolve_error
      then report handled ConnectionStage.resolve c.resolve_error
      else if c.stopped
      then record { reports = []; pushed = [] }
      else if not c.host_name_set
      then report handled ConnectionStage.tls_handshake c.host_name_error
      else if lib.is_error c.connect_error
      then report handled ConnectionStage.tcp_connect c.connect_error
      else if lib.is_error c.tls_error
      then report handled ConnectionStage.tls_handshake c.tls_error
      else if lib.is_error c.handshake_error
      then report handled ConnectionStage.web_socket_handshake c.handshake_error
      else read_all handled c.messages c.read_error
