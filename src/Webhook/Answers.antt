-- ===== src/Webhook/Answers.antt =====
-- What the answer of the webhook handler says about the queue.
use Prim.Native.String.{String}
use kickd.Prelude.{
  not, ◌||◌, ℕ, ◌≡◌, ◌≢◌, refl, Bool, true, false, ◌⊎◌, inl, inr, Option, none, some, arith, ap,
  ◌∙◌, sym, Bool-cases, string_eq, nat_eq, ◌==◌,
}
use kickd.Prelude.Map.{lookup}
use kickd.Prelude.Int.{is_zero}
use kickd.Queue.Conn.{Result, ok, err}
use kickd.Queue.Insert.{enqueue}
use kickd.Queue.Table.{Ascending}
use kickd.Event.{Event, Outcome, Codec, DispatchStatus}
use kickd.Event
use kickd.Dispatch.Spec.{Spec}
use kickd.Dispatch.State.{World, call}
use kickd.Dispatch.Finish.{queue_limit, run_for}
use kickd.Dispatch.Submit.{
  Submitted, SubmitError, SyncAnswer, failed, waits_for, queue_full, SyncResult, busy, full, ran,
  sync_result, sync_answer, fill_id, complete, queued_answer, submit_payload, submit_known, submit,
  run_sync, dispatch,
}
use kickd.Dispatch.Accepted.{IsQueued, submit_queued}
use kickd.Webhook.Request.{Route, Request}
use kickd.Webhook.Serve.{
  Sent, code, received, report, answer_result, answer_waited, answer_sync, answer_dispatch,
  webhook_event, query_data, fire, handle,
}
use kickd.Webhook.Guards.{handle_guards}

-- A refusal of submit comes with the status dropped.
record Refuses (x : Submitted × World) : Type 0 where
  at : (e : SubmitError) → x.0.error ≡ some e → x.0.status ≡ Event.dropped

queued_answer-Refuses :
    (wait : Bool) (x : Result (ℕ × Bool) × World) → Refuses (queued_answer wait x)
unfolding queued_answer
queued_answer-Refuses wait (err e, w) = record { at = λ _ _. refl }
queued_answer-Refuses wait (ok (id, true), w) = record { at = λ _ _. refl }
queued_answer-Refuses wait (ok (id, false), w) = record { at = λ e h. absurd cc }

submit_payload-Refuses :
    (spec : Spec) (ev : Event) (wait : Bool) (w : World) (p : Option String)
    → Refuses (submit_payload spec ev wait w p)
unfolding submit_payload
submit_payload-Refuses spec ev wait w none = record { at = λ _ _. refl }
submit_payload-Refuses spec ev wait w (some p) =
    queued_answer-Refuses wait
      (call (enqueue w.now (run_for ev p none) (queue_limit spec.concurrency)) w)

submit_known-Refuses :
    (codec : Codec) (name : String) (ev : Event) (wait : Bool) (w : World) (s : Option Spec)
    → Refuses (submit_known codec name ev wait w s)
unfolding submit_known
submit_known-Refuses codec name ev wait w none = record { at = λ _ _. refl }
submit_known-Refuses codec name ev wait w (some spec) =
    submit_payload-Refuses spec (complete name spec w.now ev) wait w
      (codec.marshal (complete name spec w.now ev))

submit-Refuses :
    (codec : Codec) (name : String) (ev : Event) (wait : Bool) (w : World)
    → Refuses (submit codec name ev wait w)
unfolding submit
submit-Refuses codec name ev wait w =
    submit_known-Refuses codec name (fill_id ev w).0 wait (fill_id ev w).1
      (lookup name (fill_id ev w).1.d.specs)

module _ (sign : String → String → String) (codec : Codec) (arrives : ℕ → Option Outcome) where
  -- Only a firing that Dispatch reports as queued is answered with 202.
  dispatch_accepted :
      (id : String) (r : Route) (st : DispatchStatus)
      → (answer_dispatch id r st).status ≡ 202
      → st ≡ Event.queued
  unfolding answer_dispatch
  dispatch_accepted id r Event.queued h = refl
  dispatch_accepted id r Event.dropped h = absurd (omega (arith, h))

  report_status : (id : String) (r : Route) (res : Outcome) → (report id r res).status ≢ 202
  report_status id r res =
      elim (Bool-cases (not (is_zero res.exit_code) || not (res.error == ""))) [
        | inl e ↦ rw e (λ h. absurd (omega (arith, h)))
        | inr e ↦ rw e (λ h. absurd (omega (arith, h)))
      ]

  result_status :
      (id : String) (r : Route) (res : SyncResult) → (answer_result id r res).status ≢ 202
  unfolding answer_result
  result_status id r busy h = absurd (omega (arith, h))
  result_status id r full h = absurd (omega (arith, h))
  result_status id r (ran res) h = report_status id r res h

  waited_status :
      (id : String) (r : Route) (o : Option Outcome) → (answer_waited id r o).status ≢ 202
  unfolding answer_waited
  waited_status id r none h = absurd (omega (arith, h))
  waited_status id r (some res) h = result_status id r (sync_result res) h

  sync_status :
      (id : String) (r : Route) (a : SyncAnswer) → (answer_sync id r arrives a).status ≢ 202
  unfolding answer_sync
  sync_status id r queue_full h = absurd (omega (arith, h))
  sync_status id r (failed e) h = absurd (omega (arith, h))
  sync_status id r (waits_for run) h = waited_status id r (arrives run) h

  -- The firing of the event, where it is answered with 202, stands in the queue.
  record Records (name : String) (old : World) (x : Sent × World) : Type 0 where
    at : x.0.status ≡ 202 → (run : ℕ) × IsQueued name false old.conn.db run x.1

  fire-Records :
      (r : Route) (id : String) (ev : Event) (w : World)
      → Ascending 1 w.conn.db.runs w.conn.db.next_id
      → Records r.event w (fire sign codec arrives r id ev w)
  unfolding fire dispatch
  fire-Records r id ev w a = elim (Bool-cases r.wait) [
    | inl e ↦
        rw e (record { at = λ h. absurd (sync_status id _ (run_sync codec r.event ev w).0 h) })
    | inr e ↦ rw e (record {
      at = λ h. (
        (submit codec r.event ev false w).0.id,
        submit_queued codec r.event ev false w a
            (dispatch_accepted id _ (submit codec r.event ev false w).0.status h),
      );
    })
  ]

  -- Where the handler answers with 202 (Accepted), whatever the request, a queued row of the event of the
  -- route stands in the database that it did not have before, and the loop is woken.
  pub accepted_recorded :
      (max_body : ℕ) (r : Route) (req : Request) (id : String) (w : World)
      → Ascending 1 w.conn.db.runs w.conn.db.next_id
      → (handle sign codec arrives max_body r req id w).0.status ≡ 202
      → (run : ℕ) × IsQueued r.event false w.conn.db run
          (handle sign codec arrives max_body r req id w).1
  accepted_recorded max_body r req id w a h =
      elim (handle_guards sign codec arrives max_body r req id w) [
        | inl (m, e) ↦ rw e (
            (fire-Records r id
                (webhook_event r req id req.body w.now (query_data r.params req.query)) w a).at
              (ap (λ (x : Sent × World). x.0.status) (sym e) ∙ h))
        | inr (e, l, u) ↦ absurd (omega (arith, l, u, h))
      ]

  steady_id : (ev : Event) (w : World) → (ev.request_id == "") ≡ false → fill_id ev w ≡ (ev, w)
  unfolding fill_id
  steady_id ev w h = rw h refl

  submit_failed :
      (codec : Codec) (name : String) (ev : Event) (w : World) (e : SubmitError)
      → (ev.request_id == "") ≡ false
      → (submit codec name ev true w).0.error ≡ some e
      → (run_sync codec name ev w).0 ≡ failed e
  unfolding run_sync
  submit_failed codec name ev w e given h = rw (steady_id ev w given) (rw (sync_answer, h) refl)

  -- A firing that cannot be recorded, since its event is unknown, its payload cannot be written or the
  -- database fails, is answered with 409 where the route does not wait. Where it waits, the handler
  -- takes the failure for a caller that disconnected: it writes nothing, so that the caller gets 200,
  -- and the log says 499.
  pub unrecorded_answer :
      (r : Route) (id : String) (ev : Event) (w : World) (e : SubmitError)
      → (ev.request_id == "") ≡ false
      → (submit codec r.event ev r.wait w).0.error ≡ some e
      → ((r.wait ≡ false) × (received (fire sign codec arrives r id ev w).0 ≡ 409))
        ⊎ ((r.wait ≡ true)
            × (received (fire sign codec arrives r id ev w).0 ≡ 200)
            × (code (fire sign codec arrives r id ev w).0 ≡ 499))
  unfolding fire dispatch code answer_sync answer_dispatch
  unrecorded_answer r id ev w e given = elim (Bool-cases r.wait) [
    | inl f ↦ rw f (λ h. rw (submit_failed codec r.event ev w e given h) (inr (refl, refl, refl)))
    | inr f ↦ rw f (λ h. rw ((submit-Refuses codec r.event ev false w).at e h) (inl (refl, refl)))
  ]
