-- ===== src/Tests/Runs.antt =====
-- Runs of app/main.cpp and app/src/output/FileOutputSink.cpp on a disk of sixteen bytes.
use binance_aggregator.Prelude.{
  ◌≡◌, refl, Bool, true, false, ◌&&◌, List, [], ◌∷◌, ◌++◌, none, some, Bytes, codes, leb, length,
  keep,
}
use binance_aggregator.FileOutputSink.{
  FileLibrary, FileOutputSink, write, write_all, returned, throws,
}
use binance_aggregator.FileOutputSink.Appends.{Appends, Outcome, write_all-Outcome}
use binance_aggregator.Main.{
  main, exit_success, terminated, not_opened, not_written, interrupt, cut, with_options,
  with_config, with_sink, shut_down, wait_for_signal,
}
use binance_aggregator.CliOptions.{parse_cli_options, parse_arguments, equals}
use binance_aggregator.Config.{
  load_from_file, parse_document, parse_config_json, parse_fields, require_field, parse_symbols,
  parse_items, parse_symbol, nonempty_symbols, all_valid, to_upper_ascii, parse_positive_u64,
  parse_required_string, parse_aggregator_threads, parse_reconnect_config, optional_u64,
}
use binance_aggregator.FileOutputSink
use binance_aggregator.Main.Stages.{is_stage, AreStages}
use binance_aggregator.Main.Startup.{Explains, main-Explains}
use binance_aggregator.Main.Construction.{IsSound, is_construction, main-IsSound}
use binance_aggregator.Tests.Messages.{library}

-- A stream has the bytes of its file, and whether it is good.
abbrev disk : FileLibrary
disk = record {
  Stream = Bytes × Bool;
  open_append = λ path. ([], leb 1 (length path));
  is_open = λ s. s.1;
  put = λ s text. (s.0 ++ text, s.1 && leb (length (s.0 ++ text)) 16);
  flush = λ s. s;
  is_good = λ s. s.1;
}

abbrev laws : Appends disk
laws = record { contents = λ s. s.0; appended = λ s text h. refl }

abbrev sink : FileOutputSink disk
sink = record { stream = (codes "old ", true) }

abbrev texts : List Bytes
texts = codes "window 1\n" ∷ codes "window 2\n" ∷ codes "window 3\n" ∷ []

-- The second write finds the disk full.
fills_up :
    write_all disk sink texts
    ≡ throws (record { stream = (codes "old window 1\nwindow 2\n", false) })
unfolding write_all write
fills_up = refl

write_all-Outcome_example : Outcome disk laws sink texts (write_all disk sink texts)
write_all-Outcome_example = write_all-Outcome disk laws sink texts

abbrev arguments : List Bytes
arguments = codes "--config" ∷ codes "service.json" ∷ []

abbrev signal_later : List Bool
signal_later = false ∷ false ∷ true ∷ []

main-Explains_example :
    Explains library disk arguments some signal_later
      (some 3)
      ((main library disk arguments some signal_later (some 3)).1)
    × AreStages library
        ((main library disk arguments some signal_later (some 3)).1)
        (keep (is_stage library) ((main library disk arguments some signal_later (some 3)).0))
main-Explains_example = main-Explains library disk arguments some signal_later (some 3)

main-IsSound_example :
    IsSound library disk
      (keep (is_construction library) ((main library disk arguments some signal_later none).0))
main-IsSound_example =
    main-IsSound library disk (record { from_zero = refl; to_one = refl }) arguments some
      signal_later none

exits : (main library disk arguments some signal_later none).1 ≡ exit_success
unfolding main with_options with_config with_sink shut_down interrupt wait_for_signal
    parse_cli_options parse_arguments equals load_from_file parse_document parse_config_json
    parse_fields require_field parse_symbols parse_items parse_symbol nonempty_symbols all_valid
    to_upper_ascii parse_positive_u64 parse_required_string parse_aggregator_threads
    parse_reconnect_config FileOutputSink.new optional_u64
exits = refl

-- A write throws while pipeline.stop() runs: behind the two starts, two sleeps, a log line and the stop
-- of the network.
write_escapes : (main library disk arguments some signal_later (some 6)).1 ≡ terminated not_written
unfolding main with_options with_config with_sink shut_down interrupt cut wait_for_signal
    parse_cli_options parse_arguments equals load_from_file parse_document parse_config_json
    parse_fields require_field parse_symbols parse_items parse_symbol nonempty_symbols all_valid
    to_upper_ascii parse_positive_u64 parse_required_string parse_aggregator_threads
    parse_reconnect_config FileOutputSink.new optional_u64
write_escapes = refl

-- The output file cannot be opened: the exception leaves main.
abbrev full_disk : FileLibrary
full_disk = record {
  Stream = Unit;
  open_append = λ path. tt;
  is_open = λ s. false;
  put = λ s text. s;
  flush = λ s. s;
  is_good = λ s. false;
}

escapes : (main library full_disk arguments some signal_later none).1 ≡ terminated not_opened
unfolding main with_options with_config with_sink parse_cli_options parse_arguments equals
    load_from_file parse_document parse_config_json parse_fields require_field parse_symbols
    parse_items parse_symbol nonempty_symbols all_valid to_upper_ascii parse_positive_u64
    parse_required_string parse_aggregator_threads parse_reconnect_config FileOutputSink.new
    optional_u64
escapes = refl
