-- ===== src/Webhook/Serve.antt =====
-- Register of webhook.go: the handler of a route, and the answer that it writes.
use Prim.Native.String.{String, ◌++◌ as text_append}
use kickd.Prelude.{
  ℕ, ◌||◌, ◌&&◌, Bool, true, false, not, Option, none, some, List, [], ◌∷◌, if◌then◌else◌, contains,
  string_eq, nat_eq, ◌==◌, map,
}
use kickd.Prelude.Int.{ℤ, pos, is_zero, less, amount}
use kickd.Prelude.Map.{Map, lookup, insert}
use kickd.Prelude.Ascii.{to_upper}
use kickd.Event.{Event, Outcome, Codec, DispatchStatus}
use kickd.Event
use kickd.Dispatch.State.{World}
use kickd.Dispatch.Submit.{
  SyncAnswer, queue_full, waits_for, failed, SyncResult, busy, full, ran, sync_result, run_sync,
  dispatch,
}
use kickd.Webhook.Request.{
  Route, Request, get, Body, too_large, unreadable, read, read_body, request_id_from,
}
use kickd.Webhook.Auth.{check_token, check_signature, flatten}

-- The JSON values of the answers.
pub data Value : Type 0 where
  text : String → Value
  number : ℤ → Value
  count : ℕ → Value
  flag : Bool → Value

-- statusWriter: the status that was written, 0 where none was, and whether the caller is taken to be
-- gone; and the JSON that was written.
pub record Sent : Type 0 where
  pub status : ℕ
  pub gone : Bool
  pub reply : List (String × Value)

-- code: the status for the log.
unfoldable pub code : Sent → ℕ
code s = if s.gone then 499 else if s.status == 0 then 200 else s.status

-- What the caller gets: net/http answers 200 where the handler writes nothing.
abbrev pub received : Sent → ℕ
received s = if s.status == 0 then 200 else s.status

abbrev pub write_json : ℕ → List (String × Value) → Sent
write_json status reply = record { status = status; gone = false; reply = reply }

abbrev pub refuse : String → ℕ → String → Sent
refuse id status message = write_json status (("requestId", text id) ∷ ("error", text message) ∷ [])

abbrev pub say : String → Route → ℕ → String → Sent
say id r status message =
    write_json status
      (("requestId", text id) ∷ ("event", text r.event) ∷ ("status", text message) ∷ [])

abbrev pub allows : Route → String → Bool
allows r method =
    (elim r.methods [ [] ↦ true | _ ↦ false ]) || contains (map to_upper r.methods) method

-- The data of the event: the declared parameters that the query has.
unfoldable pub query_data : List String → Map String (List String) → Map String String
query_data [] query = []
query_data (name ∷ rest) query =
    let others = query_data rest query in
    if get name query == "" then others else insert name (get name query) others

-- The first required parameter that is missing.
unfoldable pub missing : List String → Map String String → Option String
missing [] given = none
missing (name ∷ rest) given = elim (lookup name given) [
  | none ↦ some name
  | some v ↦ missing rest given
]

unfoldable pub webhook_event : Route → Request → String → String → ℕ → Map String String → Event
webhook_event r req id body now given = record {
  request_id = id;
  run_id = 0;
  attempt = 0;
  name = r.event;
  trigger = "webhook";
  trigger_id = text_append "webhook:" r.path;
  time = some now;
  data_map = given;
  source = "";
  files = [];
  cron = none;
  webhook = some (record {
    method = req.method;
    path = req.path;
    remote_addr = req.remote_addr;
    headers = flatten req.headers ("Authorization" ∷ "X-Kickd-Token" ∷ []);
    query = flatten req.query ("token" ∷ []);
    body = body;
  });
  after = none;
  wake = none;
}

-- The caller disconnected, or so the handler takes it: nothing is written.
abbrev pub left : Sent
left = record { status = 0; gone = true; reply = [] }

abbrev pub report : String → Route → Outcome → Sent
report id r res =
    write_json (if not (is_zero res.exit_code) || not (res.error == "") then 500 else 200) (
      ("requestId", text id)
      ∷ ("event", text r.event)
      ∷ ("exitCode", number res.exit_code)
      ∷ ("durationMs", count res.duration)
      ∷ ("output", text res.output)
      ∷ ("outputTruncated", flag res.truncated)
      ∷ ("error", text res.error)
      ∷ [])

unfoldable pub answer_result : String → Route → SyncResult → Sent
answer_result id r busy = say id r 409 "skipped"
answer_result id r full = say id r 409 "dropped"
answer_result id r (ran res) = report id r res

-- A result arrived on the channel, or the caller disconnected before.
unfoldable pub answer_waited : String → Route → Option Outcome → Sent
answer_waited id r none = left
answer_waited id r (some res) = answer_result id r (sync_result res)

-- What is written after RunSync. `arrives` is the result that comes on the channel of a run, or none
-- where the caller disconnects before.
unfoldable pub answer_sync : String → Route → (ℕ → Option Outcome) → SyncAnswer → Sent
answer_sync id r arrives queue_full = say id r 409 "dropped"
answer_sync id r arrives (failed e) = left
answer_sync id r arrives (waits_for run) = answer_waited id r (arrives run)

unfoldable pub answer_dispatch : String → Route → DispatchStatus → Sent
answer_dispatch id r Event.queued = say id r 202 "queued"
answer_dispatch id r Event.dropped = say id r 409 "dropped"

module _ (sign : String → String → String) (codec : Codec) (arrives : ℕ → Option Outcome) where
  unfoldable pub fire : Route → String → Event → World → Sent × World
  fire r id ev w =
      if r.wait
      then (let (answer, w') = run_sync codec r.event ev w in (answer_sync id r arrives answer, w'))
      else (let (st, w') = dispatch codec r.event ev w in (answer_dispatch id r st, w'))

  unfoldable pub with_data :
      Route → Request → String → String → Map String String → World → Option String → Sent × World
  with_data r req id body given w (some name) =
      (refuse id 400 (text_append "missing parameter " name), w)
  with_data r req id body given w none = fire r id (webhook_event r req id body w.now given) w

  -- The part of the handler after the body was read.
  unfoldable pub authorize : Route → Request → String → World → Body → Sent × World
  authorize r req id w too_large = (refuse id 413 "body too large", w)
  authorize r req id w unreadable = (refuse id 400 "cannot read body", w)
  authorize r req id w (read body) =
      if not (r.token == "") && not (check_token req r.token == "")
      then (refuse id 401 "unauthorized", w)
      else if not (r.secret == "") && not (check_signature sign req body r.secret == "")
      then (refuse id 401 "unauthorized", w)
      else (let given = query_data r.params req.query in
          with_data r req id body given w (missing r.required given))

  -- The handler of a route.
  unfoldable pub handle : ℕ → Route → Request → String → World → Sent × World
  handle max_body r req id w =
      if not (allows r req.method)
      then (refuse id 405 "method not allowed", w)
      else authorize r req id w (read_body max_body req)

  -- Handler: the request ID, and then the route of the path; 404 where there is none.
  unfoldable pub serve_route : ℕ → Request → String × World → Option Route → Sent × World
  serve_route max_body req (id, w) (some r) = handle max_body r req id w
  serve_route max_body req (id, w) none =
      (record { status = if req.path == "/healthz" then 200 else 404; gone = false; reply = [] }, w)

  -- `mux` is the route that http.ServeMux finds for a path.
  unfoldable pub serve : ℕ → (String → Option Route) → Request → World → Sent × World
  serve max_body mux req w =
      serve_route max_body req (request_id_from (get "X-Request-Id" req.headers) w) (mux req.path)

-- The patterns that http.ServeMux has: /healthz of NewWebhookServer, and the paths of the routes.
unfoldable pub paths : Map String Route → List String
paths [] = []
paths ((path, r) ∷ rest) = path ∷ paths rest

abbrev pub patterns : Map String Route → List String
patterns routes = "/healthz" ∷ paths routes

-- Register refuses a path that is registered twice; HandleFunc panics on a pattern that http.ServeMux
-- does not take.
pub data Registered : Type 0 where
  refused panicked : Registered
  registered : Map String Route → Registered

-- Register, for what is registered on the path. `takes` says whether http.ServeMux takes a pattern after
-- those that it has.
unfoldable pub register_on :
    (List String → String → Bool) → Route → Map String Route → Option Route → Registered
register_on takes r routes (some _) = refused
register_on takes r routes none =
    if takes (patterns routes) r.path then registered (insert r.path r routes) else panicked

unfoldable pub register : (List String → String → Bool) → Route → Map String Route → Registered
register takes r routes = register_on takes r routes (lookup r.path routes)

-- NewWebhookServer: DefaultMaxBody where the config sets no limit.
abbrev pub max_body_of : ℤ → ℕ
max_body_of n = if less (pos 0) n then amount n else 1048576
