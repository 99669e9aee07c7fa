-- ===== src/Runner/Scenarios.antt =====
-- A command that writes twice to a buffer of four bytes.
use kickd.Prelude.{
  ℕ, ◌≡◌, refl, ap, true, false, List, [], ◌∷◌, take, ltb, length, length-append, arith, ◌∙◌,
}
use kickd.Prelude.Int.{pos}
use kickd.Queue.Status
use kickd.Dispatch.Finish.{status_after}
use kickd.Dispatch.State.{replaced}
use kickd.Prelude.{some, none}
use kickd.Runner.Results.{Ended, Stats, canceled, report}
use kickd.Runner.Buffers.{write_all}
use kickd.Event.{Event}
use kickd.Prelude.{String, ◌++◌}
use kickd.Prelude.Ascii.{to_upper}
use kickd.Prelude.Map.{lookup, insert}
use kickd.Runner.Env.{
  Formats, Os, value_of, event_env, build_env, add_layers, set_values, sort_texts, place_text,
  data_name, see,
}
use kickd.Runner.Names.{names, plain_event, event_env-names}
use kickd.Runner.Lines.{line_write_all, line_flush}
use kickd.Runner.Whole.{IsPassedOn, new_writer, line_flush-IsPassedOn}
use kickd.Runner.Newline.{HasShortLines, finished, line_flush-finished}
use kickd.Runner.Bounds.{status_after-report, write_all-take, concat}

abbrev chunks : List (List ℕ)
chunks = (104 ∷ 105 ∷ []) ∷ (104 ∷ 111 ∷ 33 ∷ []) ∷ []

write_all-take_example :
    let b = write_all (record { buf = []; limit = 4; truncated = false }) chunks in
    (b.buf ≡ take 4 (concat chunks)) × (b.truncated ≡ ltb 4 (length (concat chunks)))
write_all-take_example = write_all-take 4 chunks (omega arith, (omega arith, tt))

abbrev ended : Ended
ended = record {
  exit_code = pos 0;
  wait_failed = true;
  signal = "terminated";
  duration = 3;
  output = "";
  truncated = false;
}

abbrev fresh : Stats
fresh = record { processed = 0; succeeded = 0; failed = 0; canceled = 0; interrupted = 0 }

status_after-report_example :
    (status_after (report ended (canceled (some replaced)) fresh).0 ≡ Status.canceled)
    × ((report ended (canceled (some replaced)) fresh).1.processed ≡ 1)
    × ((report ended (canceled (some replaced)) fresh).1.succeeded ≡ 0)
    × ((report ended (canceled (some replaced)) fresh).1.failed ≡ 0)
    × ((report ended (canceled (some replaced)) fresh).1.canceled ≡ 1)
    × ((report ended (canceled (some replaced)) fresh).1.interrupted ≡ 0)
unfolding status_after report
status_after-report_example = status_after-report ended (canceled (some replaced)) fresh

line_flush-IsPassedOn_example :
    let w = line_write_all (new_writer 4 true none) chunks in
    IsPassedOn 4 (concat chunks) w.pending (line_flush w)
line_flush-IsPassedOn_example = line_flush-IsPassedOn 4 true none chunks

short_chunks : HasShortLines (concat chunks)
unfolding concat
short_chunks front line back e h =
    let total = ap length e ∙ length-append front (line ++ back) in
    omega (arith, total, length-append line back)

line_flush-finished_example :
    (line_flush (line_write_all (new_writer 4 true none) chunks)).file
    ≡ some (finished (concat chunks))
line_flush-finished_example = line_flush-finished 4 true none chunks short_chunks

abbrev formats : Formats
formats = record { stamp = λ t. "2026-01-01T00:00:00Z"; json = λ m. "{}"; separator = ":" }

abbrev os : Os
os = record {
  environ = ("PATH", "/bin") ∷ ("KICKD_EVENT", "outer") ∷ [];
  ignores_case = false;
  expand = λ see value. value;
}

abbrev with_data : Event
with_data = record (plain_event (("ref", "main") ∷ [])) { name = "deploy" }

event_env-names_example :
    (names (event_env formats with_data)
      ≡ names (event_env formats (plain_event (("ref", "main") ∷ []))))
    × ((k v : String)
        → value_of os k (event_env formats with_data ++ ("KICKD_PAYLOAD_FILE", "/tmp/p") ∷ [])
          ≡ some v
        → value_of os k (build_env os formats [] (("LANG", "C") ∷ []) with_data "/tmp/p") ≡ some v)
event_env-names_example = event_env-names formats os [] (("LANG", "C") ∷ []) with_data "/tmp/p"

event_value_test :
    value_of os "KICKD_EVENT" (build_env os formats [] (("LANG", "C") ∷ []) with_data "/tmp/p")
    ≡ some "deploy"
unfolding build_env add_layers set_values sort_texts place_text event_env value_of lookup insert
    to_upper see
event_value_test = refl

-- Two parameters whose names differ in case share one variable.
same_variable_test : data_name "ref" ≡ data_name "REF"
unfolding to_upper
same_variable_test = refl
