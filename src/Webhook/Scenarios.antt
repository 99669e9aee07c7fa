-- ===== src/Webhook/Scenarios.antt =====
-- A route that wants a token and a parameter, and requests to it.
use Prim.Native.String.{String}
use kickd.Prelude.{
  ℕ, ◌≡◌, refl, true, false, ◌⊎◌, Option, none, some, [], ◌∷◌, arith, string_eq, nat_eq,
}
use kickd.Prelude.Map.{lookup, insert}
use kickd.Prelude.Ascii.{has_prefix, drop_chars, to_upper, to_lower}
use kickd.Queue.Conn.{database, statement, transaction}
use kickd.Queue.Insert.{enqueue, insert_run, queue_full, insert_row}
use kickd.Event.{Outcome, WebhookInfo}
use kickd.Dispatch.State.{World}
use kickd.Dispatch.Submit.{
  submit, fill_id, submit_known, submit_payload, queued_answer, store, dispatch,
}
use kickd.Dispatch.Accepted.{IsQueued}
use kickd.Dispatch.Scenarios.{world, firing, one_payload, waiting_db}
use kickd.Webhook.Request.{Route, Request, read_body}
use kickd.Webhook.Auth.{token_of, check_token, flatten, is_dropped}
use kickd.Webhook.Serve.{
  code, received, query_data, missing, webhook_event, answer_dispatch, fire, with_data, authorize,
  handle,
}
use kickd.Webhook.Guards.{Guarded, handle_guards}
use kickd.Webhook.Privacy.{IsScrubbed, webhook_event-IsScrubbed}
use kickd.Webhook.Answers.{accepted_recorded, unrecorded_answer}

abbrev hook : Route
hook = record {
  event = "backup";
  path = "/hook";
  methods = "post" ∷ [];
  token = "s3cret";
  secret = "";
  wait = false;
  params = "who" ∷ [];
  required = "who" ∷ [];
}

abbrev request : Request
request = record {
  method = "POST";
  path = "/hook";
  remote_addr = "10.0.0.7:4000";
  headers = ("Authorization", "Bearer s3cret" ∷ []) ∷ ("Accept", "text/plain" ∷ []) ∷ [];
  query = ("who", "ann" ∷ []) ∷ [];
  body = "{}";
  broken = false;
}

abbrev no_sign : String → String → String
no_sign secret body = "0f"

abbrev late : ℕ → Option Outcome
late run = none

handle_guards_example :
    Guarded no_sign
      (one_payload firing)
      late
      100
      hook
      request
      "q1"
      world
      (handle no_sign (one_payload firing) late 100 hook request "q1" world)
handle_guards_example = handle_guards no_sign (one_payload firing) late 100 hook request "q1" world

webhook_event-IsScrubbed_example :
    let ev = webhook_event hook request "q1" "{}" 5 (query_data hook.params request.query) in
    (info : WebhookInfo) × ((ev.webhook ≡ some info) × IsScrubbed hook request ev.data_map info)
webhook_event-IsScrubbed_example = webhook_event-IsScrubbed hook request "q1" "{}" 5

accepted_recorded_example :
    (run : ℕ) × IsQueued "backup" false waiting_db run
      (handle no_sign (one_payload firing) late 100 hook request "q1" world).1
unfolding handle read_body authorize token_of check_token query_data missing with_data has_prefix
    drop_chars to_upper lookup insert fire dispatch answer_dispatch submit fill_id submit_known
    submit_payload queued_answer enqueue insert_run queue_full insert_row transaction statement
    webhook_event flatten is_dropped to_lower
accepted_recorded_example =
    accepted_recorded no_sign (one_payload firing) late 100 hook request "q1" world
      (omega arith, (omega arith, omega arith)) refl

-- The first statement that the database gets fails.
abbrev out_of_order : World
out_of_order = record world { conn = record world.conn { faults = true ∷ [] } }

unrecorded_answer_example :
    ((true ≡ false)
      × (received
            (fire no_sign
              (one_payload firing)
              late
              (record hook { wait = true })
              "q1"
              firing
              out_of_order).0
          ≡ 409))
    ⊎ ((true ≡ true)
        × (received
              (fire no_sign
                (one_payload firing)
                late
                (record hook { wait = true })
                "q1"
                firing
                out_of_order).0
            ≡ 200)
        × (code
              (fire no_sign
                (one_payload firing)
                late
                (record hook { wait = true })
                "q1"
                firing
                out_of_order).0
            ≡ 499))
unfolding submit fill_id submit_known submit_payload queued_answer enqueue insert_run queue_full
    insert_row transaction statement lookup
unrecorded_answer_example =
    unrecorded_answer no_sign (one_payload firing) late (record hook { wait = true }) "q1" firing
      out_of_order (store database) refl refl

wrong_token_test :
    (handle no_sign
      (one_payload firing)
      late
      100
      (record hook { token = "other" })
      request
      "q1"
      world).0.status
    ≡ 401
unfolding handle read_body authorize token_of check_token has_prefix drop_chars to_upper lookup
wrong_token_test = refl

no_parameter_test :
    (handle no_sign
      (one_payload firing)
      late
      100
      hook
      (record request { query = [] })
      "q1"
      world).0.status
    ≡ 400
unfolding handle read_body authorize token_of check_token has_prefix drop_chars to_upper lookup
    query_data missing with_data
no_parameter_test = refl
