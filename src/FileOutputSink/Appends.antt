-- ===== src/FileOutputSink/Appends.antt =====
-- What is in the file behind a sequence of writes.
use binance_aggregator.Prelude.{
  true, List, [], ◌∷◌, ◌++◌, append_assoc, append-nil, Bytes, ◌≡◌, inl, inr, refl, sym, ap, ◌∙◌,
  Bool-cases, arith,
}
use binance_aggregator.FileOutputSink.{
  FileLibrary, FileOutputSink, Written, returned, throws, write, write_all, then_write,
}

abbrev pub concat : List Bytes → Bytes
concat [] = []
concat (text ∷ texts) = text ++ concat texts

module _ (files : FileLibrary) where
  -- Where a stream that is opened for appending is good behind a write and a flush, the text is at the
  -- end of the file.
  pub record Appends : Type 0 where
    pub contents : files.Stream → Bytes
    pub appended :
        (s : files.Stream) (text : Bytes)
        → files.is_good (files.flush (files.put s text)) ≡ true
        → contents (files.flush (files.put s text)) ≡ contents s ++ text

  module _ (laws : Appends) where
    abbrev pub file : FileOutputSink files → Bytes
    file sink = laws.contents sink.stream

    -- The file has all texts, or a write threw, and the file had the texts before it.
    abbrev pub Outcome : FileOutputSink files → List Bytes → Written files → Type 0
    Outcome sink texts (returned last) = file last ≡ file sink ++ concat texts
    Outcome sink texts (throws last) =
        (done : List Bytes) × (text : Bytes) × (rest : List Bytes) × (middle : FileOutputSink files)
        × (texts ≡ done ++ text ∷ rest)
        × (file middle ≡ file sink ++ concat done)
        × (write files middle text ≡ throws last)

    write_returned :
        (sink last : FileOutputSink files) (text : Bytes)
        → write files sink text ≡ returned last
        → file last ≡ file sink ++ text
    unfolding write
    write_returned sink last text h =
        elim (Bool-cases (files.is_good (files.flush (files.put sink.stream text)))) [
          | inl good ↦ ground (arith, good, laws.appended sink.stream text good)
          | inr bad ↦ absurd (ground (arith, bad))
        ]

    Outcome-later :
        (sink next : FileOutputSink files) (text : Bytes) (texts : List Bytes) (w : Written files)
        → file next ≡ file sink ++ text
        → Outcome next texts w
        → Outcome sink (text ∷ texts) w
    Outcome-later sink next text texts (returned last) e o =
        o ∙ ap (λ c. c ++ concat texts) e ∙ append_assoc (file sink) text (concat texts)
    Outcome-later sink next text texts (throws last) e
          (done, failed, rest, middle, split, before, failure) =
        (
          text ∷ done,
          failed,
          rest,
          middle,
          ap (◌∷◌ text) split,
          before ∙ ap (λ c. c ++ concat done) e ∙ append_assoc (file sink) text (concat done),
          failure,
        )

    Outcome-write :
        (sink : FileOutputSink files) (text : Bytes) (texts : List Bytes) (w : Written files)
        → write files sink text ≡ w
        → ((next : FileOutputSink files) → Outcome next texts (write_all files next texts))
        → Outcome sink (text ∷ texts) (then_write files w (λ next. write_all files next texts))
    Outcome-write sink text texts (returned next) e later =
        Outcome-later sink next text texts (write_all files next texts)
          (write_returned sink next text e) (later next)
    Outcome-write sink text texts (throws last) e later =
        ([], text, texts, sink, refl, sym (append-nil (file sink)), e)

    -- If a stream that is good behind a write and a flush has the text at the end of its file: any
    -- writes, of which none is caught, either all return and the file has their texts behind what it
    -- had, in order, or one of them throws, and just before it the file had the texts of the writes
    -- before this one behind what it had.
    pub write_all-Outcome :
        (sink : FileOutputSink files) (texts : List Bytes)
        → Outcome sink texts (write_all files sink texts)
    unfolding write_all
    write_all-Outcome sink [] = sym (append-nil (file sink))
    write_all-Outcome sink (text ∷ texts) =
        Outcome-write sink text texts (write files sink text) refl
          (λ next. write_all-Outcome next texts)
