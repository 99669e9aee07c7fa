-- ===== src/Files/Collect.antt =====
-- Run of file.go: changes are collected until none comes for the time of debounce, and then fire the
-- event together; and the limiter of error messages.
use kickd.Prelude.{
  ℕ, ◌+◌, ◌-◌, ◌&&◌, Bool, false, String, Option, none, some, List, [], ◌∷◌, ◌++◌, if◌then◌else◌,
  nat_eq, string_eq, ◌==◌, leb, ltb, any, length,
}
use Prim.Native.String.{◌++◌ as text_append}
use kickd.Event.{FileChange, Event, Codec}
use kickd.Dispatch.State.{World, new_id}
use kickd.Dispatch.Submit.{dispatch}

abbrev pub max_pending_changes : ℕ
max_pending_changes = 10000

-- The key op + "\x00" + path of a change: neither part has the zero byte, so that two changes have one
-- key when they have the same op and the same path.
abbrev pub same_change : FileChange → FileChange → Bool
same_change a b = a.op == b.op && a.path == b.path

-- `seen` are the changes whose keys are taken; `fires_at` is when the timer ends, where it runs.
pub record Watcher : Type 0 where
  pub pending : List FileChange
  pub seen : List FileChange
  pub dropped : ℕ
  pub fires_at : Option ℕ

abbrev pub idle : Watcher
idle = record { pending = []; seen = []; dropped = 0; fires_at = none }

-- One change of a batch.
unfoldable pub collect : Watcher → FileChange → Watcher
collect st c =
    if any (same_change c) st.seen
    then st
    else if leb max_pending_changes (length st.pending)
    then record st { dropped = st.dropped + 1 }
    else record st { seen = c ∷ st.seen; pending = st.pending ++ c ∷ [] }

unfoldable pub collect_all : Watcher → List FileChange → Watcher
collect_all st [] = st
collect_all st (c ∷ cs) = collect_all (collect st c) cs

module _ (codec : Codec) (name root : String) where
  abbrev pub file_event : String → ℕ → List FileChange → Event
  file_event id now files = record {
    request_id = id;
    run_id = 0;
    attempt = 0;
    name = name;
    trigger = "file";
    trigger_id = text_append "file:" root;
    time = some now;
    data_map = [];
    source = "";
    files = files;
    cron = none;
    webhook = none;
    after = none;
    wake = none;
  }

  unfoldable pub fire_files : World → List FileChange → World
  fire_files w files =
      let (id, w') = new_id w in (dispatch codec name (file_event id w.now files) w').1

  -- flush
  unfoldable pub flush_files : Watcher → List FileChange → World → Watcher × World
  flush_files st [] w = (record st { dropped = 0 }, w)
  flush_files st (c ∷ cs) w =
      (record st { pending = []; seen = []; dropped = 0 }, fire_files w (c ∷ cs))

  -- What happens to the watcher: changes are reported at a time, or the timer ends.
  pub data Signal : Type 0 where
    changes : List FileChange → Signal
    timer : Signal

  unfoldable pub on_changes : ℕ → Watcher → List FileChange → World → Watcher × World
  on_changes debounce st [] w = (st, w)
  on_changes debounce st (c ∷ cs) w =
      let st' = collect_all st (c ∷ cs) in
      if debounce == 0
      then flush_files st' st'.pending w
      else (record st' { fires_at = some (w.now + debounce) }, w)

  unfoldable pub handle_signal : ℕ → Watcher → Signal → World → Watcher × World
  handle_signal debounce st (changes cs) w = on_changes debounce st cs w
  handle_signal debounce st timer w = flush_files (record st { fires_at = none }) st.pending w

-- limiter
pub record Limiter : Type 0 where
  pub every : ℕ
  pub last : Option ℕ
  pub suppressed : ℕ

abbrev pub is_soon : ℕ → Limiter → Bool
is_soon now l = elim l.last [ none ↦ false | some t ↦ ltb (now - t) l.every ]

-- allow: the messages that were left out since the last one, where one may be written now.
unfoldable pub allow : ℕ → Limiter → Option ℕ × Limiter
allow now l =
    if is_soon now l
    then (none, record l { suppressed = l.suppressed + 1 })
    else (some l.suppressed, record l { suppressed = 0; last = some now })

-- The limiter over messages at times; the ones let through carry the number of those left out before.
unfoldable pub allow_all : List ℕ → Limiter → List (Option ℕ) × Limiter
allow_all [] l = ([], l)
allow_all (now ∷ times) l =
    let (answer, l') = allow now l in let (rest, l'') = allow_all times l' in (answer ∷ rest, l'')
