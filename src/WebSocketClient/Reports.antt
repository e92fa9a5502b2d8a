-- ===== src/WebSocketClient/Reports.antt =====
-- How often run calls its handler, and with what.
use binance_aggregator.Prelude.{
  ◌≡◌, ◌≢◌, refl, ap, ◌∙◌, inl, inr, ◌⊎◌, Bool, true, false, not, List, [], ◌∷◌, Bytes,
  if◌then◌else◌, arith,
}
use binance_aggregator.ConnectionError.{
  ConnectionStage, resolve, tcp_connect, tls_handshake, web_socket_handshake, read, ErrorCodes,
  classify_error,
}
use binance_aggregator.WebSocketClient.{Connection, Effects, report, read_all, run}

by_branch :
    {A : Type 0} (P : A → Type 0) (b : Bool) (x y : A)
    → (b ≡ true → P x)
    → (b ≡ false → P y)
    → P (if b then x else y)
by_branch P true x y h k = h refl
by_branch P false x y h k = k refl

module _ (lib : ErrorCodes) where
  -- The steps of run() that a later one needs.
  abbrev pub Resolves : Connection lib → Type 0
  Resolves c = (lib.is_error c.resolve_error ≡ false) × (c.stopped ≡ false)

  abbrev pub Connects : Connection lib → Type 0
  Connects c = (c.host_name_set ≡ true) × (lib.is_error c.connect_error ≡ false)

  -- What it means that run() fails in a stage with an error: all that stands before has worked.
  abbrev pub Fails : Connection lib → ConnectionStage → lib.ErrorCode → Type 0
  Fails c resolve e = (lib.is_error c.resolve_error ≡ true) × (e ≡ c.resolve_error)
  Fails c tcp_connect e =
      Resolves c
      × (c.host_name_set ≡ true)
      × (lib.is_error c.connect_error ≡ true)
      × (e ≡ c.connect_error)
  Fails c tls_handshake e =
      Resolves c
      × (((c.host_name_set ≡ false) × (e ≡ c.host_name_error))
          ⊎ (Connects c × (lib.is_error c.tls_error ≡ true) × (e ≡ c.tls_error)))
  Fails c web_socket_handshake e =
      Resolves c
      × Connects c
      × (lib.is_error c.tls_error ≡ false)
      × (lib.is_error c.handshake_error ≡ true)
      × (e ≡ c.handshake_error)
  Fails c read e =
      Resolves c
      × Connects c
      × (lib.is_error c.tls_error ≡ false)
      × (lib.is_error c.handshake_error ≡ false)
      × (e ≡ c.read_error)

  -- The stage and the error in which run() fails; one call of the handler, if there is one, with both
  -- and with the kind that belongs to them; and the messages pushed: all of them if it has come to
  -- read, and none otherwise.
  pub record IsReported (handled : Bool) (c : Connection lib) (e : Effects lib) : Type 0 where
    pub stage : ConnectionStage
    pub error : lib.ErrorCode
    pub fails : Fails c stage error
    pub once : e.reports ≡ (
        if handled
        then (record { stage = stage; kind = classify_error lib stage error; error = error }) ∷ []
        else [])
    pub delivered : ((stage ≢ read) × (e.pushed ≡ [])) ⊎ ((stage ≡ read) × (e.pushed ≡ c.messages))

  module _ (handled : Bool) where
    abbrev push_first : Bytes → Effects lib → Effects lib
    push_first m e = record e { pushed = m ∷ e.pushed }

    read_all-eq :
        (messages : List Bytes) (ec : lib.ErrorCode)
        → read_all lib handled messages ec
          ≡ (record { reports = (report lib handled read ec).reports; pushed = messages })
    unfolding read_all report
    read_all-eq [] ec = refl
    read_all-eq (m ∷ messages) ec = ap (push_first m) (read_all-eq messages ec)

    report-IsReported :
        (c : Connection lib) (s : ConnectionStage) (ec : lib.ErrorCode)
        → s ≢ read
        → Fails c s ec
        → IsReported handled c (report lib handled s ec)
    unfolding report
    report-IsReported c s ec h f = record {
      stage = s;
      error = ec;
      fails = f;
      once = refl;
      delivered = inl (h, refl);
    }

    read_all-IsReported :
        (c : Connection lib)
        → Fails c read c.read_error
        → IsReported handled c (read_all lib handled c.messages c.read_error)
    read_all-IsReported c f = record {
      stage = read;
      error = c.read_error;
      fails = f;
      once = ap (λ e. e.reports) (read_all-eq c.messages c.read_error) ∙ unfold report in refl;
      delivered = inr (refl, ap (λ e. e.pushed) (read_all-eq c.messages c.read_error));
    }

    -- Where run() has resolved the host and not seen a stop, with its tests to come.
    connected-IsReported :
        (c : Connection lib)
        → Resolves c
        → IsReported handled c (
            if not c.host_name_set
            then report lib handled tls_handshake c.host_name_error
            else if lib.is_error c.connect_error
            then report lib handled tcp_connect c.connect_error
            else if lib.is_error c.tls_error
            then report lib handled tls_handshake c.tls_error
            else if lib.is_error c.handshake_error
            then report lib handled web_socket_handshake c.handshake_error
            else read_all lib handled c.messages c.read_error)
    connected-IsReported c r =
        by_branch (IsReported handled c) (not c.host_name_set) _ _
          (λ h. report-IsReported c _ _ (λ e. cc) (r, inl (ground arith, refl)))
          (λ h.
            let named : c.host_name_set ≡ true = ground arith in
            by_branch (IsReported handled c) (lib.is_error c.connect_error) _ _
              (λ t. report-IsReported c _ _ (λ e. cc) (r, named, t, refl))
              (λ t.
                by_branch (IsReported handled c) (lib.is_error c.tls_error) _ _
                  (λ u. report-IsReported c _ _ (λ e. cc) (r, inr ((named, t), u, refl)))
                  (λ u.
                    by_branch (IsReported handled c) (lib.is_error c.handshake_error) _ _
                      (λ w. report-IsReported c _ _ (λ e. cc) (r, (named, t), u, w, refl))
                      (λ w. read_all-IsReported c (r, (named, t), u, w, refl)))))

    -- If the host is resolved and stop() has come by then, run() calls no handler and pushes nothing.
    -- Otherwise it ends with the failure of one stage, behind all others that stand before it: its
    -- handler, if it has one, is called exactly once, with that stage, with the code that failed and
    -- with the kind that classify_error gives for both; and it has pushed all messages, in order, if
    -- that stage is Read, and none otherwise.
    pub run-IsReported :
        (c : Connection lib)
        → ((lib.is_error c.resolve_error ≡ false)
            × (c.stopped ≡ true)
            × (run lib handled c ≡ record { reports = []; pushed = [] }))
          ⊎ IsReported handled c (run lib handled c)
    unfolding run
    run-IsReported c =
        by_branch (Ended c) (lib.is_error c.resolve_error) _ _
          (λ h. inr (report-IsReported c _ _ (λ e. cc) (h, refl)))
          (λ h.
            by_branch (Ended c) c.stopped _ _ (λ t. inl (h, t, refl))
              (λ t. inr (connected-IsReported c (h, t))))
      where
        Ended : Connection lib → Effects lib → Type 0
        Ended c e =
            ((lib.is_error c.resolve_error ≡ false)
              × (c.stopped ≡ true)
              × (e ≡ record { reports = []; pushed = [] }))
            ⊎ IsReported handled c e
