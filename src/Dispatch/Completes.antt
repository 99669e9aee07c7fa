-- ===== src/Dispatch/Completes.antt =====
-- Recover comes to its end where the database and the codec do not fail.
use kickd.Prelude.{
  ℕ, ◌+◌, ◌≡◌, refl, not, String, Option, none, some, List, [], ◌∷◌, leb, Bool-cases, inl, inr,
  string_eq,
}
use kickd.Prelude.Map.{lookup}
use kickd.Queue.Row.{Run}
use kickd.Queue.Conn.{Result, ok, err, M, Conn}
use kickd.Queue.Conn.Steady.{
  Succeeds, Steady, Steady-statement, Steady-pure, Steady-bind, Steady-transaction,
}
use kickd.Queue.Recovery.{interrupted_runs, retry, abandon}
use kickd.Event.{Event, Codec}
use kickd.Dispatch.Spec.{Spec}
use kickd.Dispatch.State.{World, call}
use kickd.Dispatch.Recover.{
  Halt, is_rerun, cut_off_by, halted_by, abandon_as, requeue, rerun_run, recover_with, recover_run,
  unless_halted, recover_all, recover_read, recover,
}

pub retry-Steady :
    (now : ℕ) (run : Run) (payload reason : String) → Steady (retry now run payload reason)
unfolding retry
retry-Steady now run payload reason = Steady-transaction _ (
    Steady-bind _ _ (Steady-statement _)
      λ id. Steady-bind _ _ (Steady-statement _) (λ _. Steady-pure id))

pub abandon-Steady : (now id : ℕ) (reason : String) → Steady (abandon now id reason)
unfolding abandon
abandon-Steady now id reason = Steady-bind _ _ (Steady-statement _) (λ _. Steady-pure tt)

record Completes (x : Option Halt × World) : Type 0 where
  done : x.0 ≡ none
  no_faults : x.1.conn.faults ≡ []

Completes-halted_by :
    {A : Type 0} (m : M A) (w : World)
    → Steady m
    → w.conn.faults ≡ []
    → Completes (halted_by (call m w))
Completes-halted_by {A = A} m w steady h = go (m w.conn) (steady.at w.conn h)
  where
    go : (r : Result A × Conn) → Succeeds r → Completes (halted_by (r.0, record w { conn = r.1 }))
    go (ok a, c) s = record { done = refl; no_faults = s.no_faults }
    go (err e, c) s = let is_ok = s.is_ok in absurd (cc)

module _ (codec : Codec)
    (writes : (ev : Event) → (payload : String) × (codec.marshal ev ≡ some payload)) where
  abandon_as-Completes :
      (reason : String) (run : Run) (w : World)
      → w.conn.faults ≡ []
      → Completes (abandon_as reason run w)
  abandon_as-Completes reason run w h =
      Completes-halted_by _ w (abandon-Steady w.now run.id reason) h

  rerun_run-Completes :
      (run : Run) (how : String) (w : World) (ev : Option Event)
      → w.conn.faults ≡ []
      → Completes (rerun_run codec run how w ev)
  unfolding rerun_run
  rerun_run-Completes run how w none h = abandon_as-Completes "payload_invalid" run w h
  rerun_run-Completes run how w (some ev) h =
      let (payload, e) = writes (record ev { attempt = run.attempt + 1; run_id = 0 }) in
      rw e (unfold requeue in Completes-halted_by _ w (retry-Steady w.now run payload how) h)

  recover_with-Completes :
      (run : Run) (w : World) (spec : Option Spec)
      → w.conn.faults ≡ []
      → Completes (recover_with codec run w spec)
  unfolding recover_with
  recover_with-Completes run w none h = abandon_as-Completes "event_removed" run w h
  recover_with-Completes run w (some spec) h =
      elim (Bool-cases (not (is_rerun spec.on_interrupt))) [
        | inl e ↦ rw e (abandon_as-Completes (cut_off_by run) run w h)
        | inr e ↦ rw e (elim (Bool-cases (leb spec.max_attempts run.attempt)) [
          | inl f ↦ rw f (abandon_as-Completes "max_attempts_reached" run w h)
          | inr f ↦
              rw f (rerun_run-Completes run (cut_off_by run) w (codec.unmarshal run.payload) h)
        ])
      ]

  recover_all-Completes :
      (runs : List Run) (w : World) → w.conn.faults ≡ [] → Completes (recover_all codec runs w)
  unfolding recover_all
  recover_all-Completes [] w h = record { done = refl; no_faults = h }
  recover_all-Completes (run ∷ rest) w h =
      go (recover_run codec run w) first (λ w' h'. recover_all-Completes rest w' h')
    where
      first : Completes (recover_run codec run w)
      first = unfold recover_run in recover_with-Completes run w (lookup run.event w.d.specs) h

      go :
          (x : Option Halt × World)
          → Completes x
          → ((w' : World) → w'.conn.faults ≡ [] → Completes (recover_all codec rest w'))
          → Completes (unless_halted x (recover_all codec rest))
      go (none, w') c others = others w' c.no_faults
      go (some halt, w') c others = let done = c.done in absurd (cc)

  recover-Completes : (w : World) → w.conn.faults ≡ [] → Completes (recover codec w)
  unfolding recover
  recover-Completes w h = go (interrupted_runs w.conn) (reads.at w.conn h)
    where
      reads : Steady interrupted_runs
      reads = unfold interrupted_runs in Steady-statement _

      go :
          (r : Result (List Run) × Conn)
          → Succeeds r
          → Completes (recover_read codec (r.0, record w { conn = r.1 }))
      go (ok runs, c) s = unfold recover_read in recover_all-Completes runs _ s.no_faults
      go (err e, c) s = let is_ok = s.is_ok in absurd (cc)

-- Where no statement fails and every payload can be written, Recover returns without an error,
-- whatever the rows and the settings are.
pub recover_completes :
    (codec : Codec) (w : World)
    → ((ev : Event) → (payload : String) × (codec.marshal ev ≡ some payload))
    → w.conn.faults ≡ []
    → (recover codec w).0 ≡ none
recover_completes codec w writes h = (recover-Completes codec writes w h).done
