-- ===== src/Dispatch/Submit.antt =====
-- submit, Dispatch and RunSync of dispatcher.go: how a firing gets into the queue.
use kickd.Prelude.{
  ℕ, ◌+◌, Bool, true, false, String, Option, none, some, if◌then◌else◌, nat_eq, string_eq, ◌==◌,
}
use kickd.Prelude.Map.{lookup, insert}
use kickd.Queue.Conn.{Error, Result, ok, err}
use kickd.Queue.Insert.{enqueue, or_now}
use kickd.Event.{Event, Outcome, Codec, DispatchStatus}
use kickd.Event
use kickd.Dispatch.Spec.{Spec, with_defaults}
use kickd.Dispatch.State.{World, call, poke, new_id}
use kickd.Dispatch.Finish.{set_d, queue_limit, run_for}

-- The errors of submit: fmt.Errorf("unknown event"), the one of json.Marshal, and those of the store.
pub data SubmitError : Type 0 where
  unknown_event : SubmitError
  unwritable : SubmitError
  store : Error → SubmitError

-- What submit returns; `waits` says that the caller got a channel to wait on.
pub record Submitted : Type 0 where
  pub status : DispatchStatus
  pub id : ℕ
  pub waits : Bool
  pub error : Option SubmitError

abbrev pub refused : SubmitError → Submitted
refused e = record { status = Event.dropped; id = 0; waits = false; error = some e }

unfoldable pub fill_id : Event → World → Event × World
fill_id ev w =
    if ev.request_id == ""
    then (let (id, w') = new_id w in (record ev { request_id = id }, w'))
    else (ev, w)

abbrev pub complete : String → Spec → ℕ → Event → Event
complete name spec now ev = record ev {
  name = name;
  time = some (or_now now ev.time);
  data_map = with_defaults ev.data_map spec.defaults;
}

-- The row is in the queue or dropped; a caller that waits is registered under the same lock.
unfoldable pub queued_answer : Bool → Result (ℕ × Bool) × World → Submitted × World
queued_answer wait (err e, w) = (refused (store e), w)
queued_answer wait (ok (id, true), w) = (
  record { status = Event.dropped; id = id; waits = false; error = none },
  set_d w (record w.d { dropped = w.d.dropped + 1 }),
)
queued_answer wait (ok (id, false), w) = (
  record { status = Event.queued; id = id; waits = wait; error = none },
  set_d w (poke (if wait then record w.d { waiters = insert id true w.d.waiters } else w.d)),
)

unfoldable pub submit_payload : Spec → Event → Bool → World → Option String → Submitted × World
submit_payload spec ev wait w none = (refused unwritable, w)
submit_payload spec ev wait w (some payload) =
    queued_answer wait
      (call (enqueue w.now (run_for ev payload none) (queue_limit spec.concurrency)) w)

unfoldable pub submit_known :
    Codec → String → Event → Bool → World → Option Spec → Submitted × World
submit_known codec name ev wait w none = (refused unknown_event, w)
submit_known codec name ev wait w (some spec) =
    let ev' = complete name spec w.now ev in submit_payload spec ev' wait w (codec.marshal ev')

unfoldable pub submit : Codec → String → Event → Bool → World → Submitted × World
submit codec name ev wait w =
    let (ev', w') = fill_id ev w in submit_known codec name ev' wait w' (lookup name w'.d.specs)

unfoldable pub dispatch : Codec → String → Event → World → DispatchStatus × World
dispatch codec name ev w = let (st, w') = submit codec name ev false w in (st.status, w')

-- What RunSync returns without waiting, or the run that it waits for.
pub data SyncAnswer : Type 0 where
  failed : SubmitError → SyncAnswer
  queue_full : SyncAnswer
  waits_for : ℕ → SyncAnswer

abbrev pub sync_answer : Submitted → SyncAnswer
sync_answer st = elim st.error [
  | some e ↦ failed e
  | none ↦ elim st.status [ Event.queued ↦ waits_for st.id | Event.dropped ↦ queue_full ]
]

unfoldable pub run_sync : Codec → String → Event → World → SyncAnswer × World
run_sync codec name ev w =
    let (ev', w') = fill_id ev w in
    let (st, w'') = submit codec name ev' true w' in (sync_answer st, w'')

-- What RunSync makes of the result that arrives on the channel.
pub data SyncResult : Type 0 where
  busy : SyncResult
  full : SyncResult
  ran : Outcome → SyncResult

unfoldable pub sync_result : Outcome → SyncResult
sync_result res =
    if res.error == "skipped" then busy else if res.error == "dropped" then full else ran res
