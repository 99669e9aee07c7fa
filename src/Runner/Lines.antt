-- ===== src/Runner/Lines.antt =====
-- tailBuffer and lineWriter of runner.go, over bytes: a newline is 10, a carriage return 13.
use kickd.Prelude.{
  ℕ, ◌-◌, ◌*◌, Bool, Option, none, some, List, [], ◌∷◌, ◌++◌, map, if◌then◌else◌, nat_eq, ◌==◌, ltb,
  length, take,
}
use kickd.Runner.Buffers.{CapBuffer, write, drop, push_all}

-- The bytes up to the last newline, and those after it.
abbrev pub extend : ℕ → List ℕ × List ℕ → List ℕ × List ℕ
extend x ([], rest) = if x == 10 then (x ∷ [], rest) else ([], x ∷ rest)
extend x (y ∷ ys, rest) = (x ∷ y ∷ ys, rest)

unfoldable pub whole_lines : List ℕ → List ℕ × List ℕ
whole_lines [] = ([], [])
whole_lines (x ∷ xs) = extend x (whole_lines xs)

-- The lines that end, without their newlines, and the rest.
abbrev pub prepend : ℕ → List (List ℕ) × List ℕ → List (List ℕ) × List ℕ
prepend x ([], rest) = ([], x ∷ rest)
prepend x (line ∷ lines, rest) = ((x ∷ line) ∷ lines, rest)

abbrev pub start_line : List (List ℕ) × List ℕ → List (List ℕ) × List ℕ
start_line (lines, rest) = ([] ∷ lines, rest)

unfoldable pub split_lines : List ℕ → List (List ℕ) × List ℕ
split_lines [] = ([], [])
split_lines (x ∷ xs) =
    let later = split_lines xs in if x == 10 then start_line later else prepend x later

abbrev pub trim_first : ℕ → ℕ → List ℕ → List ℕ
trim_first c x [] = if x == c then [] else x ∷ []
trim_first c x (y ∷ ys) = x ∷ y ∷ ys

-- bytes.TrimRight of one byte.
unfoldable pub trim_end : ℕ → List ℕ → List ℕ
trim_end c [] = []
trim_end c (x ∷ xs) = trim_first c x (trim_end c xs)

abbrev pub last_bytes : ℕ → List ℕ → List ℕ
last_bytes n xs = if ltb n (length xs) then drop (length xs - n) xs else xs

pub record TailBuffer : Type 0 where
  pub lines : List (List ℕ)
  pub partial : List ℕ
  pub max_lines : ℕ
  pub max_bytes : ℕ

-- tailBuffer.Write
unfoldable pub tail_write : TailBuffer → List ℕ → TailBuffer
tail_write t p =
    let (lines, rest) = split_lines (t.partial ++ p) in
    record t {
      lines = push_all t.max_lines t.lines (map (trim_end 13) lines);
      partial = last_bytes t.max_bytes rest;
    }

unfoldable pub join_lines : List (List ℕ) → List ℕ
join_lines [] = []
join_lines (line ∷ []) = line
join_lines (line ∷ next ∷ rest) = line ++ 10 ∷ join_lines (next ∷ rest)

abbrev pub with_partial : List (List ℕ) → List ℕ → List (List ℕ)
with_partial lines [] = lines
with_partial lines (x ∷ xs) = lines ++ (x ∷ xs) ∷ []

-- tailBuffer.String
unfoldable pub tail_text : TailBuffer → List ℕ
tail_text t = last_bytes t.max_bytes (trim_end 10 (join_lines (with_partial t.lines t.partial)))

abbrev pub max_log_line : ℕ
max_log_line = 8 * 1024

-- The logger is `logged`, the texts that it got; `emits` says whether it takes them. `file` is what the
-- output file holds, where there is one.
pub record LineWriter : Type 0 where
  pub capture : CapBuffer
  pub tail : Option TailBuffer
  pub emits : Bool
  pub file : Option (List ℕ)
  pub buf : List ℕ
  pub pending : List ℕ
  pub logged : List (List ℕ)

-- toFile, where the write succeeds.
abbrev pub to_file : List ℕ → Option (List ℕ) → Option (List ℕ)
to_file b none = none
to_file b (some held) = some (held ++ b)

-- The text of a line in the log, before secrets are masked.
abbrev pub log_line : List ℕ → List ℕ
log_line b = take max_log_line (trim_end 13 b)

abbrev pub pass_on : List ℕ → List ℕ → LineWriter → LineWriter
pass_on out rest w = record w {
  capture = write w.capture out;
  file = to_file out w.file;
  pending = rest;
}

unfoldable pub capture_lines : LineWriter → List ℕ × List ℕ → LineWriter
capture_lines w (x ∷ xs, rest) = pass_on (x ∷ xs) rest w
capture_lines w ([], rest) =
    if ltb max_log_line (length rest) then pass_on rest [] w else record w { pending = rest }

abbrev pub feed_tail : List ℕ → Option TailBuffer → Option TailBuffer
feed_tail p none = none
feed_tail p (some t) = some (tail_write t p)

unfoldable pub log_lines : LineWriter → List (List ℕ) × List ℕ → LineWriter
log_lines w (lines, rest) =
    if ltb max_log_line (length rest)
    then record w { logged = w.logged ++ map log_line (lines ++ (rest ∷ [])); buf = [] }
    else record w { logged = w.logged ++ map log_line lines; buf = rest }

abbrev pub with_tail : List ℕ → LineWriter → LineWriter
with_tail p w = record w { tail = feed_tail p w.tail }

-- lineWriter.Write
unfoldable pub line_write : LineWriter → List ℕ → LineWriter
line_write w p =
    let w' = with_tail p (capture_lines w (whole_lines (w.pending ++ p))) in
    if w'.emits then log_lines w' (split_lines (w'.buf ++ p)) else w'

unfoldable pub line_write_all : LineWriter → List (List ℕ) → LineWriter
line_write_all w [] = w
line_write_all w (p ∷ ps) = line_write_all (line_write w p) ps

unfoldable pub flush_pending : LineWriter → List ℕ → LineWriter
flush_pending w [] = w
flush_pending w (x ∷ xs) = record w {
  capture = write w.capture (x ∷ xs);
  file = to_file ((x ∷ xs) ++ (10 ∷ [])) w.file;
  pending = [];
}

unfoldable pub flush_buf : LineWriter → List ℕ → LineWriter
flush_buf w [] = w
flush_buf w (x ∷ xs) = record w { logged = w.logged ++ (log_line (x ∷ xs) ∷ []); buf = [] }

-- lineWriter.flush
unfoldable pub line_flush : LineWriter → LineWriter
line_flush w = let w' = flush_pending w w.pending in flush_buf w' w'.buf
