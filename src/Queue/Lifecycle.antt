-- ===== src/Queue/Lifecycle.antt =====
-- How the rows of the database evolve: the order in which the statuses of store.go follow one
-- another, and what a database keeps of an earlier one. The proofs for each call are in the children.
use kickd.Prelude.{
  ℕ, ◌≤◌, ◌<◌, ◌≡◌, refl, Bool, true, false, String, Option, none, some, List, arith, nat_eq, ◌==◌,
  ◌∙◌,
}
pub mod Steps
pub mod Kept
pub mod Unguarded
pub mod Canceled
use native.Mathlib.Decide.{dec_lt}
use kickd.Queue.Status.{
  Status, queued, running, succeeded, failed, canceled, skipped, dropped, interrupted, retried,
  abandoned, status_eq,
}
use kickd.Queue.Row.{Row, Db}
use kickd.Queue.Table.{Ascending, find_row, find_row_above}

-- The statuses that a run can still get. A final one stays.
abbrev pub reaches : Status → Status → Bool
reaches queued t = true
reaches running queued = false
reaches running skipped = false
reaches running dropped = false
reaches running t = true
reaches interrupted interrupted = true
reaches interrupted retried = true
reaches interrupted abandoned = true
reaches interrupted t = false
reaches s t = s == t

pub reaches_refl : (s : Status) → reaches s s ≡ true
reaches_refl s = ground arith

pub reaches_trans : (s t u : Status) → reaches s t ≡ true → reaches t u ≡ true → reaches s u ≡ true
reaches_trans queued t u h k = refl
reaches_trans s t u h k = ground arith

-- What identifies the firing that a row records.
pub record Firing : Type 0 where
  pub request_id : String
  pub event : String
  pub trigger_kind : String
  pub payload : String
  pub attempt : ℕ

abbrev pub firing : Row → Firing
firing r = record {
  request_id = r.request_id;
  event = r.event;
  trigger_kind = r.trigger_kind;
  payload = r.payload;
  attempt = r.attempt;
}

-- A later row of the same id: a status that the earlier one reaches, for the same firing. Once it
-- was handed to the after triggers, it stays so.
pub record Descends (r r' : Row) : Type 0 where
  pub status : reaches r.status r'.status ≡ true
  pub same_firing : firing r' ≡ firing r
  pub handed : (r.followed == 0) ≡ false → (r'.followed == 0) ≡ false

-- A row comes only under an id that was never given before, and changes only as `Descends` says. A
-- row may go, when it is pruned; its id does not come back.
abbrev pub Follows : ℕ → ℕ → Option Row → Option Row → Type 0
Follows next id none none = Unit
Follows next id none (some r) = next ≤ id
Follows next id (some r) none = Unit
Follows next id (some r) (some r') = Descends r r'

pub record Evolves (old new : Db) : Type 0 where
  pub rows : (id : ℕ) → Follows old.next_id id (find_row id old.runs) (find_row id new.runs)
  pub ordered_old : Ascending 1 old.runs old.next_id
  pub ordered_new : Ascending 1 new.runs new.next_id
  pub grows : old.next_id ≤ new.next_id

pub Descends-refl : (r : Row) → Descends r r
Descends-refl r = record { status = reaches_refl r.status; same_firing = refl; handed = λ h. h }

pub Descends-trans : (r s t : Row) → Descends r s → Descends s t → Descends r t
Descends-trans r s t h k = record {
  status = reaches_trans r.status s.status t.status h.status k.status;
  same_firing = k.same_firing ∙ h.same_firing;
  handed = λ q. k.handed (h.handed q);
}

pub Evolves-refl : (db : Db) → Ascending 1 db.runs db.next_id → Evolves db db
Evolves-refl db a = record {
  rows = λ id. go id (find_row id db.runs);
  ordered_old = a;
  ordered_new = a;
  grows = omega arith;
}
  where
    go : (id : ℕ) (o : Option Row) → Follows db.next_id id o o
    go id none = tt
    go id (some r) = Descends-refl r

found_below :
    (id : ℕ) (rs : List Row) (hi : ℕ) (r : Row)
    → Ascending 1 rs hi
    → find_row id rs ≡ some r
    → id < hi
found_below id rs hi r a h = elim (dec_lt id hi) [
  | yes lt ↦ lt
  | no ge ↦ absurd (ground (arith, find_row_above id 1 rs hi a))
]

pub Evolves-trans : {x y z : Db} → Evolves x y → Evolves y z → Evolves x z
Evolves-trans {x} {y} {z} h k = record {
  rows = λ id.
      go id (find_row id x.runs) (find_row id y.runs) (find_row id z.runs)
        (λ r e. found_below id x.runs x.next_id r h.ordered_old e) (h.rows id) (k.rows id);
  ordered_old = h.ordered_old;
  ordered_new = k.ordered_new;
  grows = omega (arith, h.grows, k.grows);
}
  where
    go :
        (id : ℕ) (a b c : Option Row)
        → ((r : Row) → a ≡ some r → id < x.next_id)
        → Follows x.next_id id a b
        → Follows y.next_id id b c
        → Follows x.next_id id a c
    go id none none none lt p q = tt
    go id none none (some t) lt p q = omega (arith, h.grows)
    go id none (some s) none lt p q = tt
    go id none (some s) (some t) lt p q = p
    go id (some r) none none lt p q = tt
    go id (some r) none (some t) lt p q = absurd (omega (arith, lt r refl, h.grows))
    go id (some r) (some s) none lt p q = tt
    go id (some r) (some s) (some t) lt p q = Descends-trans r s t p q
