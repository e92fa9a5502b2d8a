-- ===== src/ConnectionError/Causes.antt =====
-- What a kind of error tells about its cause.
use binance_aggregator.Prelude.{
  ◌≡◌, ◌↔◌, ◌⊎◌, refl, arith, inl, inr, true, false, Bool-cases, Option, none, some,
}
use binance_aggregator.ConnectionError.{
  ConnectionStage, ConnectionErrorKind, ErrorCodes, kind_of_stage, classify_error,
}
use binance_aggregator.ConnectionError.ConnectionStage.{
  resolve, tcp_connect, tls_handshake, web_socket_handshake, read,
}
use binance_aggregator.ConnectionError.ConnectionErrorKind.{
  dns_failure, tcp_connect_failure, tls_handshake_failure, web_socket_handshake_failure,
  read_failure, server_disconnect, timeout, unknown,
}

-- The stage that the name of a kind tells, of all kinds but Timeout and Unknown.
abbrev pub stage_of : ConnectionErrorKind → Option ConnectionStage
stage_of dns_failure = some resolve
stage_of tcp_connect_failure = some tcp_connect
stage_of tls_handshake_failure = some tls_handshake
stage_of web_socket_handshake_failure = some web_socket_handshake
stage_of read_failure = some read
stage_of server_disconnect = some read
stage_of timeout = none
stage_of unknown = none

module _ (lib : ErrorCodes) where
  -- The peer has ended the connection.
  abbrev pub IsGone : lib.ErrorCode → Type 0
  IsGone ec = (lib.is_eof ec ≡ true) ⊎ (lib.is_closed ec ≡ true)

  stage_of-kind_of_stage :
      (s : ConnectionStage) (ec : lib.ErrorCode) → stage_of (kind_of_stage lib s ec) ≡ some s
  unfolding kind_of_stage
  stage_of-kind_of_stage resolve ec = refl
  stage_of-kind_of_stage tcp_connect ec = refl
  stage_of-kind_of_stage tls_handshake ec = refl
  stage_of-kind_of_stage web_socket_handshake ec = refl
  stage_of-kind_of_stage read ec = ground arith

  kind_of_stage-disconnect :
      (s : ConnectionStage) (ec : lib.ErrorCode)
      → (kind_of_stage lib s ec ≡ server_disconnect) ↔ ((s ≡ read) × IsGone ec)
  unfolding kind_of_stage
  kind_of_stage-disconnect resolve ec = ((λ e. absurd (cc)), (λ h. absurd (cc (h.0))))
  kind_of_stage-disconnect tcp_connect ec = ((λ e. absurd (cc)), (λ h. absurd (cc (h.0))))
  kind_of_stage-disconnect tls_handshake ec = ((λ e. absurd (cc)), (λ h. absurd (cc (h.0))))
  kind_of_stage-disconnect web_socket_handshake ec = ((λ e. absurd (cc)), (λ h. absurd (cc (h.0))))
  kind_of_stage-disconnect read ec = ((λ e. (refl, ground arith)), (λ h. ground arith))

  -- The kind of what happens in a stage: Unknown exactly if the code is no error, and Timeout exactly
  -- if it is an error that says so. Of every other error the kind is one whose name tells the stage,
  -- and it is ServerDisconnect exactly if the stage is Read and the code is an end of the stream or a
  -- close.
  pub classify_error-stage :
      (s : ConnectionStage) (ec : lib.ErrorCode)
      → ((lib.is_error ec ≡ false) × (classify_error lib s ec ≡ unknown))
        ⊎ ((lib.is_error ec ≡ true)
            × (lib.is_timed_out ec ≡ true)
            × (classify_error lib s ec ≡ timeout))
        ⊎ ((lib.is_error ec ≡ true)
            × (lib.is_timed_out ec ≡ false)
            × (stage_of (classify_error lib s ec) ≡ some s)
            × ((classify_error lib s ec ≡ server_disconnect) ↔ ((s ≡ read) × IsGone ec)))
  unfolding classify_error
  classify_error-stage s ec = elim (Bool-cases (lib.is_error ec)) [
    | inr fine ↦ inl (fine, rw fine refl)
    | inl failed ↦ elim (Bool-cases (lib.is_timed_out ec)) [
      | inl late ↦ inr (inl (failed, late, rw (failed, late) refl))
      | inr other ↦ inr (
          inr (
            failed,
            other,
            rw (failed, other) (stage_of-kind_of_stage s ec),
            rw (failed, other) (kind_of_stage-disconnect s ec),
          ))
    ]
  ]
