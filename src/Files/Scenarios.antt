-- ===== src/Files/Scenarios.antt =====
-- Changes of two files, one of them reported twice.
use kickd.Prelude.{
  ◌≡◌, refl, List, [], ◌∷◌, take, arith, true, false, some, none, String, string_eq, ◌==◌,
  if◌then◌else◌,
}
use kickd.Event.{FileChange}
use kickd.Dispatch.Scenarios.{world, firing, one_payload}
use kickd.Files.Collect.{idle, timer, handle_signal, max_pending_changes, allow, allow_all}
use kickd.Files.Match.{Paths, Patterns, Notice, is_match, op_name, found_files, translate}
use kickd.Files.Window.{distinct, all_changes, report_all, fire_some, window_fires}
use kickd.Prelude.Ascii.{any_char, has_prefix, drop_chars}
use kickd.Prelude.{any}

abbrev written : String → FileChange
written path = record { path = path; op = "write" }

abbrev batches : List (List FileChange)
batches = (written "/a" ∷ written "/b" ∷ []) ∷ (written "/a" ∷ []) ∷ []

window_fires_example :
    let (st, w') = report_all (one_payload firing) "backup" "/" 1000 idle batches world in
    (w' ≡ world)
    × (handle_signal (one_payload firing) "backup" "/" 1000 st timer w' ≡ (
      idle,
      fire_some
          (one_payload firing)
          "backup"
          "/"
          1000
          (take max_pending_changes (distinct [] (all_changes batches)))
          world,
    ))
window_fires_example =
    window_fires (one_payload firing) "backup" "/" 1000 batches world (omega arith)

distinct_test : distinct [] (all_changes batches) ≡ written "/a" ∷ written "/b" ∷ []
unfolding distinct all_changes any
distinct_test = refl

abbrev paths : Paths
paths = record {
  matches = λ p s. p == s;
  parts = λ s. s ∷ [];
  base = λ s. s;
  relative = λ p. if p == "/" then some "." else some p;
}

abbrev patterns : Patterns
patterns = record { recursive = true; include = []; exclude = "tmp" ∷ []; ops = [] }

abbrev created : String → Notice
created path = record {
  path = path;
  has_create = true;
  has_remove = false;
  has_rename = false;
  has_write = true;
  has_chmod = false;
}

translate_test :
    translate paths patterns (created "dir") ("new" ∷ "tmp" ∷ [])
    ≡ record { path = "dir"; op = "create" } ∷ record { path = "new"; op = "create" } ∷ []
unfolding translate op_name found_files is_match any_char has_prefix drop_chars any
translate_test = refl

excluded_test : translate paths patterns (created "tmp") ("new" ∷ []) ≡ []
unfolding translate op_name found_files is_match any_char has_prefix drop_chars any
excluded_test = refl

limiter_test :
    (allow_all (0 ∷ 10 ∷ 70 ∷ 75 ∷ []) (record { every = 60; last = none; suppressed = 0 })).0
    ≡ some 0 ∷ none ∷ some 1 ∷ none ∷ []
unfolding allow allow_all
limiter_test = refl
