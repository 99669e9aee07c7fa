-- ===== src/Dispatch/Follow.antt =====
-- follow of dispatcher.go: the runs that ended are handed to the after triggers that follow them.
use Prim.Native.String.{◌++◌ as text_append}
use kickd.Prelude.{
  ℕ, zero, suc, ◌+◌, Bool, false, ◌||◌, not, String, Option, none, some, List, [], ◌∷◌,
  if◌then◌else◌, ltb, length, contains, count, string_eq, ◌==◌,
}
use kickd.Prelude.Map.{lookup}
use kickd.Queue.Status.{retried, status_eq}
use kickd.Queue.Row.{Run}
use kickd.Queue.Conn.{Result, ok, err}
use kickd.Queue.Insert
use kickd.Queue.Reads.{Ended, unfollowed_runs}
use kickd.Event.{Event, Codec}
use kickd.Dispatch.Spec.{Spec}
use kickd.Dispatch.State.{Follower, World, call, poke, new_id}
use kickd.Dispatch.Finish.{set_d, own_event, run_for, queue_limit}

-- followBatch
abbrev pub follow_batch : ℕ
follow_batch = 100

abbrev pub after_event : String → Ended → String → ℕ → Spec → Event
after_event request_id r name now spec =
    record (own_event request_id name "after" (text_append "after:" r.event) now spec) {
      after =
          some
            (record { event = r.event; run_id = r.id; status = r.status; exit_code = r.exit_code });
    }

-- The run that a payload asks for, with the limit of its queue.
abbrev pub limited_run : Event → Spec → Option String → Option (Run × ℕ)
limited_run ev spec none = none
limited_run ev spec (some payload) = some (run_for ev payload none, queue_limit spec.concurrency)

unfoldable pub fire : Codec → Ended → String → Spec → World → Option (Run × ℕ) × World
fire codec r name spec w0 =
    let (request_id, w) = new_id w0 in
    let ev = after_event request_id r name w.now spec in (limited_run ev spec (codec.marshal ev), w)

unfoldable pub fire_known :
    Codec → Ended → Follower → World → Option Spec → Option (Run × ℕ) × World
fire_known codec r f w none = (none, w)
fire_known codec r f w (some spec) =
    if contains f.statuses r.status then fire codec r f.event spec w else (none, w)

abbrev pub add_some : {A : Type 0} → Option A → List A → List A
add_some none xs = xs
add_some (some x) xs = x ∷ xs

-- The runs that a run's end fires, one for each follower that matches.
unfoldable pub fire_all : Codec → Ended → List Follower → World → List (Run × ℕ) × World
fire_all codec r [] w = ([], w)
fire_all codec r (f ∷ rest) w =
    let (first, w1) = fire_known codec r f w (lookup f.event w.d.specs) in
    let (others, w2) = fire_all codec r rest w1 in (add_some first others, w2)

abbrev pub followers_of : Option (List Follower) → List Follower
followers_of none = []
followers_of (some fs) = fs

-- A retried run, which a rerun replaces, fires nothing.
unfoldable pub fired_by : Codec → Ended → World → List (Run × ℕ) × World
fired_by codec r w =
    if r.status == retried
    then ([], w)
    else fire_all codec r (followers_of (lookup r.event w.d.follows)) w

abbrev pub was_dropped : ℕ × Bool → Bool
was_dropped (id, dropped) = dropped

-- Whether a run was fired; `none` ends follow.
unfoldable pub note_fired : Result (List (ℕ × Bool)) × World → Option Bool × World
note_fired (err e, w) = (none, w)
note_fired (ok ids, w) = (
  some (ltb 0 (count (λ x. not (was_dropped x)) ids)),
  set_d w (record w.d { dropped = w.d.dropped + count was_dropped ids }),
)

unfoldable pub follow_run : Codec → Ended → World → Option Bool × World
follow_run codec r w =
    let (runs, w') = fired_by codec r w in note_fired (call (Insert.follow w'.now r.id runs) w')

unfoldable pub then_follow :
    Bool → Option Bool × World → (Bool → World → Option Bool × World) → Option Bool × World
then_follow fired (none, w) rest = (none, w)
then_follow fired (some more, w) rest = rest (fired || more) w

unfoldable pub follow_all : Codec → List Ended → Bool → World → Option Bool × World
follow_all codec [] fired w = (some fired, w)
follow_all codec (r ∷ rest) fired w =
    then_follow fired (follow_run codec r w) (follow_all codec rest)

-- After a batch: whether the loop goes on, which it does after a full one.
unfoldable pub end_batch : List Ended → Option Bool × World → Bool × World
end_batch ended (none, w) = (false, w)
end_batch ended (some fired, w) =
    (not (ltb (length ended) follow_batch), if fired then set_d w (poke w.d) else w)

unfoldable pub follow_read : Codec → Result (List Ended) × World → Bool × World
follow_read codec (err e, w) = (false, w)
follow_read codec (ok ended, w) = end_batch ended (follow_all codec ended false w)

-- The endless loop of follow, for at most `fuel` batches.
unfoldable pub follow : Codec → ℕ → World → World
follow codec zero w = w
follow codec (suc fuel) w =
    let (more, w') = follow_read codec (call (unfollowed_runs follow_batch) w) in
    let rest = follow codec fuel w' in if more then rest else w'
