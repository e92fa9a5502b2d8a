-- ===== src/Threads/Again/Kept.antt =====
-- A second call of stop() (app/src/runtime/MarketDataPipeline.cpp) changes nothing but its position.
use mathlib.Core.Path.{subst}
use binance_aggregator.Prelude.{
  ℕ, ◌<◌, ◌≡◌, refl, sym, ap, ◌∙◌, inl, inr, Bool, true, false, List, [], ◌∷◌, ◌++◌, append-nil,
  Bytes, arith, ◌==◌, ==_iff, if◌then◌else◌, Bool-cases,
}
use binance_aggregator.BoundedQueue.{BoundedQueue, returns, push, shutdown}
use binance_aggregator.Aggregation.{extract_all_windows}
use binance_aggregator.Json.{JsonLibrary}
use binance_aggregator.Pipeline.{Shard}
use binance_aggregator.Writer.{write_windows}
use binance_aggregator.Threads.{
  Stopper, joins_parser, joins_workers, stop_returned, shuts, flushes, System, update,
  stop_extracted, Move, Input,
}
use binance_aggregator.Threads.Again.{IsOver, IsAt, IsUnchanged}

shutdown-shut : {T : Type 0} (q : BoundedQueue T) → q.shut ≡ true → shutdown q ≡ q
unfolding shutdown
shutdown-shut q h = λ i. record q { shut = sym h i }

push-shut :
    {T : Type 0} (q : BoundedQueue T) (x : T) (b : Bool) (r : BoundedQueue T)
    → q.shut ≡ true
    → push q x ≡ returns b r
    → (b ≡ false) × (r ≡ q)
unfolding push
push-shut q x b r h e = let e' = rw h at e in (cc, cc)

update-same :
    {A : Type 0} (f g : ℕ → A) (i : ℕ) (a : A)
    → ((j : ℕ) → f j ≡ g j)
    → a ≡ g i
    → (j : ℕ) → update f i a j ≡ g j
update-same f g i a h e j = elim (Bool-cases (i == j)) [
  | inr other ↦ rw other (h j)
  | inl same ↦ rw same (e ∙ ap g ((==_iff i j).0 same))
]

module _ (lib : JsonLibrary) (hash : Bytes → ℕ) (n window_ms : ℕ) where
  -- A state with other parts that are those of `s`.
  rebuilt :
      {s : System} (t : System) (q : BoundedQueue Bytes) (shards : ℕ → Shard)
      (written accepted : List Bytes) (p : Stopper)
      → IsUnchanged n s t
      → q ≡ s.raw_queue
      → ((i : ℕ) → shards i ≡ s.shards i)
      → written ≡ s.written
      → accepted ≡ s.accepted
      → IsAt n p
      → IsUnchanged n s (record t {
        raw_queue = q;
        shards = shards;
        written = written;
        accepted = accepted;
        stopper = p;
      })
  rebuilt t q shards written accepted p v a b c d e = record {
    raw_queue = a;
    shards = b;
    parser = v.parser;
    workers = v.workers;
    writer = v.writer;
    written = c;
    accepted = d;
    added = v.added;
    requested = v.requested;
    position = e;
  }

  moved_to :
      {s : System} (t : System) (p : Stopper)
      → IsUnchanged n s t
      → IsAt n p
      → IsUnchanged n s (record t { stopper = p })
  moved_to t p v e =
      rebuilt t t.raw_queue t.shards t.written t.accepted p v v.raw_queue v.shards v.written
        v.accepted e

  pub Input-IsUnchanged :
      {s t u : System}
      → IsOver n s
      → Input lib hash n window_ms t u
      → IsUnchanged n s t
      → IsUnchanged n s u
  Input-IsUnchanged {t = t} o (Input.submits raw {b = b} {q = q} h) v =
      let (refused, same_queue) =
        push-shut t.raw_queue raw b q (ap (λ x. x.shut) v.raw_queue ∙ o.raw_shut) h in
      rebuilt t q t.shards t.written _ t.stopper v (same_queue ∙ v.raw_queue) v.shards v.written
        (ap (λ x. if x then t.accepted ++ raw ∷ [] else t.accepted) refused ∙ v.accepted) v.position
  Input-IsUnchanged o (Input.calls_stop e) v = absurd (subst (IsAt n) e v.position)

  shut_again :
      (s t : System) (i : ℕ)
      → IsOver n s
      → IsUnchanged n s t
      → i < n
      → record (t.shards i) { queue = shutdown (t.shards i).queue } ≡ s.shards i
  shut_again s t i o v l =
      (λ k. record (v.shards i k) { queue = shutdown (v.shards i k).queue })
      ∙ ap (λ q. record (s.shards i) { queue = q }) (shutdown-shut _ (o.shards_shut i l))

  extracted_again :
      (s t : System) (i : ℕ)
      → IsOver n s
      → IsUnchanged n s t
      → i < n
      → extract_all_windows (t.shards i).aggregator ≡ ([], (s.shards i).aggregator)
  extracted_again s t i o v l =
      ap (λ x. extract_all_windows x.aggregator) (v.shards i) ∙ o.empty i l

  pub Move-IsUnchanged :
      {s t u : System}
      → IsOver n s
      → Move lib hash n window_ms t u
      → IsUnchanged n s t
      → IsUnchanged n s u
  unfolding stop_extracted write_windows
  Move-IsUnchanged o (Move.parser_pops e h) v = absurd (cc (e, v.parser, o.parser_over))
  Move-IsUnchanged o (Move.parser_pushes e h) v = absurd (cc (e, v.parser, o.parser_over))
  Move-IsUnchanged o (Move.worker_pops i l e h) v = absurd (cc (e, v.workers i, o.workers_over i l))
  Move-IsUnchanged o (Move.worker_adds i l e) v = absurd (cc (e, v.workers i, o.workers_over i l))
  Move-IsUnchanged o (Move.writer_wakes now e h) v = absurd (cc (e, v.writer, o.writer_over))
  Move-IsUnchanged o (Move.writer_extracts e l) v = absurd (cc (e, v.writer, o.writer_over))
  Move-IsUnchanged o (Move.writer_writes e) v = absurd (cc (e, v.writer, o.writer_over))
  Move-IsUnchanged o (Move.writer_ends e h) v = absurd (cc (e, v.writer, o.writer_over))
  Move-IsUnchanged {s} {t} o (Move.stop_joins_writer e h) v =
      rebuilt t (shutdown t.raw_queue) t.shards t.written t.accepted joins_parser v
        (ap shutdown v.raw_queue ∙ shutdown-shut s.raw_queue o.raw_shut) v.shards v.written
        v.accepted tt
  Move-IsUnchanged {t = t} o (Move.stop_joins_parser e h) v = moved_to t (shuts 0) v (omega arith)
  Move-IsUnchanged {s} {t} o (Move.stop_shuts {i = i} e l) v =
      rebuilt t t.raw_queue _ t.written t.accepted _ v v.raw_queue
        (update-same t.shards s.shards i _ v.shards (shut_again s t i o v l)) v.written v.accepted
        (omega (arith, l))
  Move-IsUnchanged {t = t} o (Move.stop_shut_all e) v = moved_to t joins_workers v tt
  Move-IsUnchanged {t = t} o (Move.stop_joins_workers e h) v =
      moved_to t (flushes 0 []) v (omega arith, refl)
  Move-IsUnchanged {s} {t} o (Move.stop_extracts {i = i} {ws = ws} e l) v =
      let (bound, none_yet) = subst (IsAt n) e v.position in
      let again = extracted_again s t i o v l in
      rebuilt t t.raw_queue _ t.written t.accepted _ v v.raw_queue
        (update-same t.shards s.shards i _ v.shards
          (λ k. record (v.shards i k) { aggregator = (again k).1 }))
        v.written v.accepted (omega (arith, l), (λ k. none_yet k ++ (again k).0))
  Move-IsUnchanged {s} {t} o (Move.stop_writes {ws = ws} e) v =
      let (bound, none_there) = subst (IsAt n) e v.position in
      rebuilt t t.raw_queue t.shards _ t.accepted stop_returned v v.raw_queue v.shards
        (ap (λ l. t.written ++ write_windows l) none_there ∙ append-nil t.written ∙ v.written)
        v.accepted tt
