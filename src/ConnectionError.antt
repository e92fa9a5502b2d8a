-- ===== src/ConnectionError.antt =====
-- app/include/agg/net/ConnectionError.hpp and app/src/net/ConnectionError.cpp. The error codes of
-- Boost are an interface: whether a code is an error, and which of three codes it equals.
pub mod Causes
use binance_aggregator.Prelude.{Bool, not, ◌||◌, if◌then◌else◌}

pub data ConnectionStage : Type 0 where
  resolve tcp_connect tls_handshake web_socket_handshake read : ConnectionStage

pub data ConnectionErrorKind : Type 0 where
  dns_failure tcp_connect_failure tls_handshake_failure web_socket_handshake_failure :
      ConnectionErrorKind
  read_failure timeout server_disconnect unknown : ConnectionErrorKind

pub record ErrorCodes : Type 1 where
  pub ErrorCode : Type 0
  pub is_error : ErrorCode → Bool
  pub is_timed_out : ErrorCode → Bool
  pub is_eof : ErrorCode → Bool
  pub is_closed : ErrorCode → Bool

-- The switch.
unfoldable pub kind_of_stage :
    (lib : ErrorCodes) → ConnectionStage → lib.ErrorCode → ConnectionErrorKind
kind_of_stage lib resolve ec = dns_failure
kind_of_stage lib tcp_connect ec = tcp_connect_failure
kind_of_stage lib tls_handshake ec = tls_handshake_failure
kind_of_stage lib web_socket_handshake ec = web_socket_handshake_failure
kind_of_stage lib read ec =
    if lib.is_eof ec || lib.is_closed ec then server_disconnect else read_failure

unfoldable pub classify_error :
    (lib : ErrorCodes) → ConnectionStage → lib.ErrorCode → ConnectionErrorKind
classify_error lib stage ec =
    if not (lib.is_error ec)
    then unknown
    else if lib.is_timed_out ec
    then timeout
    else kind_of_stage lib stage ec
