-- ===== src/StreamTarget/Subscriptions.antt =====
-- The request target tells the symbols: it is read back by the one reader below.
use binance_aggregator.Prelude.{
  ℕ, ◌≡◌, ◌≢◌, refl, sym, ap, ◌∙◌, inl, inr, Bool, true, false, List, [], ◌∷◌, ◌++◌, append_assoc,
  append-nil, Bytes, codes, arith, All, ◌==◌, if◌then◌else◌,
}
use binance_aggregator.Config.{to_upper}
use binance_aggregator.Config.Loaded.{IsSymbolByte, IsSymbol}
use binance_aggregator.StreamTarget.{
  to_lower, lowercase, stream_name, other_streams, streams, build_combined_stream_target,
}

-- A reader of stream lists: inside a name, where bytes are kept as capitals, or behind its '@'.
decode : Bool → Bytes → Bytes → List Bytes
decode inside name [] = name ∷ []
decode true name (c ∷ s) =
    let skipped = decode false name s in
    let kept = decode true (name ++ to_upper c ∷ []) s in if c == b'@' then skipped else kept
decode false name (c ∷ s) =
    let next = decode true [] s in
    let skipped = decode false name s in if c == b'/' then name ∷ next else skipped

to_upper-to_lower : (c : ℕ) → IsSymbolByte c → to_upper (to_lower c) ≡ c
to_upper-to_lower c (inl h) = ground arith
to_upper-to_lower c (inr h) = ground arith

no_at : (c : ℕ) → IsSymbolByte c → (to_lower c == b'@') ≡ false
no_at c (inl h) = ground arith
no_at c (inr h) = ground arith

decode-name :
    (s name rest : Bytes)
    → All IsSymbolByte s
    → decode true name (lowercase s ++ rest) ≡ decode true (name ++ s) rest
unfolding decode lowercase
decode-name [] name rest h = ap (λ n. decode true n rest) (sym (append-nil name))
decode-name (c ∷ s) name rest h =
    rw (no_at c h.0, to_upper-to_lower c h.0)
      (decode-name s (name ++ c ∷ []) rest h.1
        ∙ ap (λ n. decode true n rest) (append_assoc name (c ∷ []) s))

decode_stream :
    (s rest : Bytes)
    → All IsSymbolByte s
    → decode true [] (stream_name s ++ rest) ≡ decode false s rest
unfolding stream_name
decode_stream s rest h =
    ap (decode true []) (append_assoc (lowercase s) (codes "@trade") rest)
    ∙ decode-name s [] (codes "@trade" ++ rest) h
    ∙ unfold decode in refl

decode_others :
    (s : Bytes) (ss : List Bytes) → All IsSymbol ss → decode false s (other_streams ss) ≡ s ∷ ss
unfolding decode other_streams
decode_others s [] h = refl
decode_others s (t ∷ ss) h =
    ap (λ l. s ∷ l) (decode_stream t (other_streams ss) h.0.1 ∙ decode_others t ss h.1)

decode-streams : (ss : List Bytes) → ss ≢ [] → All IsSymbol ss → decode true [] (streams ss) ≡ ss
unfolding streams
decode-streams [] n h = absurd (n refl)
decode-streams (s ∷ ss) n h = decode_stream s (other_streams ss) h.0.1 ∙ decode_others s ss h.1

-- What stands behind the first sixteen bytes.
behind_prefix : Bytes → Bytes
behind_prefix (_ ∷ _ ∷ _ ∷ _ ∷ _ ∷ _ ∷ _ ∷ _ ∷ _ ∷ _ ∷ _ ∷ _ ∷ _ ∷ _ ∷ _ ∷ _ ∷ s) = s
behind_prefix _ = []

-- Two lists of symbols, each with a symbol and all of capitals and digits as in a loaded Config,
-- that have the same request target are the same list.
pub build_combined_stream_target-injective :
    (ss ts : List Bytes)
    → ss ≢ []
    → ts ≢ []
    → All IsSymbol ss
    → All IsSymbol ts
    → build_combined_stream_target ss ≡ build_combined_stream_target ts
    → ss ≡ ts
unfolding build_combined_stream_target behind_prefix
build_combined_stream_target-injective ss ts m n h k e =
    sym (decode-streams ss m h)
    ∙ ap (λ u. decode true [] (behind_prefix u)) e
    ∙ decode-streams ts n k
