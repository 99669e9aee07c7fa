-- ===== src/Dispatch/Load.antt =====
-- What the operations of dispatcher.go leave alone: the settings, the counts of running commands and
-- the commands in flight. Only a start and a finish change them.
use kickd.Prelude.{
  ℕ, ◌≡◌, refl, Bool, true, false, String, Option, none, some, List, [], ◌∷◌, arith, string_eq,
  nat_eq, ◌∙◌, ap, inl, inr, Bool-cases, if_cases,
}
use kickd.Prelude.Int.{ℤ}
use kickd.Prelude.Map.{Map, lookup}
use kickd.Queue.Status.{Status}
use kickd.Queue.Row.{Run}
use kickd.Queue.Conn.{Result, ok, err}
use kickd.Event.{Event, Outcome, Codec}
use kickd.Dispatch.Spec.{Spec, restarts_after}
use kickd.Dispatch.State.{ActiveRun, Dispatcher, World, Spawned, one_less, take_id, new_id, reply}
use kickd.Dispatch.Finish.{
  count_dropped, enqueue_restart, queue_restart, restart_with, restart, forget_run, finish,
}
use kickd.Dispatch.Schedule.{after_settle, settle, skip, skip_over, replace_active}

pub record Load : Type 0 where
  pub specs : Map String Spec
  pub running : Map String ℕ
  pub in_flight : List Spawned

abbrev pub load : Dispatcher → Load
load d = record { specs = d.specs; running = d.running; in_flight = d.in_flight }

pub load-reply : (id : ℕ) (res : Outcome) (d : Dispatcher) → load (reply id res d) ≡ load d
unfolding reply
load-reply id res d = ground arith

after_settle-load :
    (run : Run) (status : Status) (reason : String) (r : Result Bool × World)
    → load (after_settle run status reason r).1.d ≡ load r.1.d
unfolding after_settle
after_settle-load run status reason (ok true, w) = load-reply run.id _ w.d
after_settle-load run status reason (ok false, w) = refl
after_settle-load run status reason (err e, w) = refl

pub load-settle :
    (run : Run) (status : Status) (reason detail : String) (w : World)
    → load (settle run status reason detail w).1.d ≡ load w.d
unfolding settle
load-settle run status reason detail w = after_settle-load run status reason _

load-skip_over :
    (run : Run) (a : Option ActiveRun) (r : Bool × World) → load (skip_over run a r).d ≡ load r.1.d
unfolding skip_over
load-skip_over run none (true, w) = refl
load-skip_over run (some a) (true, w) = refl
load-skip_over run a (false, w) = refl

pub load-skip : (run : Run) (w : World) → load (skip run w).d ≡ load w.d
unfolding skip
load-skip run w =
    load-skip_over run (lookup run.event w.d.active) _
    ∙ load-settle run Status.skipped "already_running" _ w

pub load-replace_active :
    (run : Run) (a : Option ActiveRun) (d : Dispatcher) → load (replace_active run a d) ≡ load d
unfolding replace_active
load-replace_active run none d = refl
load-replace_active run (some a) d = ground arith

load-count_dropped : (r : Result (ℕ × Bool) × World) → load (count_dropped r).d ≡ load r.1.d
unfolding count_dropped
load-count_dropped (ok (id, true), w) = refl
load-count_dropped (ok (id, false), w) = refl
load-count_dropped (err e, w) = refl

d-take_id : (ids : List String) (w : World) → (take_id ids w).1.d ≡ w.d
unfolding take_id
d-take_id [] w = refl
d-take_id (id ∷ rest) w = refl

load-enqueue_restart :
    (ev : Event) (payload : Option String) (delay : ℤ) (limit : ℕ) (w : World)
    → load (enqueue_restart ev payload delay limit w).d ≡ load w.d
unfolding enqueue_restart
load-enqueue_restart ev none delay limit w = refl
load-enqueue_restart ev (some payload) delay limit w = load-count_dropped _

load-restart_with :
    (codec : Codec) (run : Run) (status : Status) (ran : ℕ) (spec : Option Spec) (w : World)
    → load (restart_with codec run status ran spec w).d ≡ load w.d
unfolding restart_with queue_restart new_id
load-restart_with codec run status ran none w = refl
load-restart_with codec run status ran (some spec) w =
    elim (Bool-cases (restarts_after spec.restart status)) [
      | inl e ↦ rw e (load-enqueue_restart _ _ _ _ _ ∙ ap load (d-take_id w.new_ids _))
      | inr e ↦ rw e
    ]

pub load-restart :
    (codec : Codec) (run : Run) (status : Status) (ran : ℕ) (w : World)
    → load (restart codec run status ran w).d ≡ load w.d
unfolding restart
load-restart codec run status ran w =
    if_cases (λ (x : World). load x.d ≡ load w.d) w.d.stopping _ _ (λ _. refl)
      (λ _. load-restart_with codec run status ran _ w)

-- finish takes one command of the event off its count.
pub load-finish :
    (codec : Codec) (run : Run) (spec : Spec) (res : Outcome) (w : World)
    → load (finish codec run spec res w).d ≡ record {
      specs = w.d.specs;
      running = one_less run.event w.d.running;
      in_flight = w.d.in_flight;
    }
unfolding finish
load-finish codec run spec res w =
    load-restart codec run _ res.duration _ ∙ load-reply run.id res _ ∙ (unfold forget_run in refl)
