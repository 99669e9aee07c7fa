-- ===== src/Cron/Latest.antt =====
-- The scheduled time that a check of a cron trigger stands for.
use kickd.Prelude.{
  ℕ, zero, suc, Bool, ◌+◌, ◌≤◌, ◌<◌, ◌≡◌, refl, Option, none, some, arith, ltb, leb, Bool-cases,
  ◌-◌, true, false, not, if◌then◌else◌, ap, inl, inr,
}
use kickd.Event.{Codec}
use kickd.Dispatch.State.{World}
use kickd.Cron.{
  CronEntry, Scan, note, scan, due, check_next, save, fire, fire_due, is_skip, missed_after,
  max_catch_up_steps,
}

-- The scheduled times from the first one on, each of which `next` gives for the one before.
pub data IsScheduled (next : ℕ → Option ℕ) (first : ℕ) : ℕ → Type 0 where
  here : IsScheduled next first first
  there : {t u : ℕ} → IsScheduled next first t → next t ≡ some u → IsScheduled next first u

-- The firing of a check at `now`: for the time that it found, on time or missed.
abbrev pub handled : Codec → CronEntry → Scan → ℕ → World → World
handled codec e s now w =
    if leb (now - s.latest) missed_after
    then fire codec e s.latest false w
    else if not (is_skip e.missed)
    then fire codec e s.latest true w
    else w

-- A scheduled time up to `now`, with none up to `now` after it unless too many were missed.
pub record IsLatest (next : ℕ → Option ℕ) (now first : ℕ) (s : Scan) : Type 0 where
  pub is_scheduled : IsScheduled next first s.latest
  pub not_before : first ≤ s.latest
  pub not_after : s.latest ≤ now
  pub is_last : s.missed < max_catch_up_steps → (t : ℕ) → next s.latest ≡ some t → now < t

module _ (next : ℕ → Option ℕ) (grows : (t u : ℕ) → next t ≡ some u → t < u) (now first : ℕ) where
  -- With fuel for each time left, the loop ends for one of its own reasons.
  scan-IsLatest :
      (fuel : ℕ) (o : Option ℕ) (s : Scan)
      → next s.latest ≡ o
      → IsScheduled next first s.latest
      → first ≤ s.latest
      → s.latest ≤ now
      → now < s.latest + fuel
      → IsLatest next now first (scan next now fuel o s)
  unfolding scan
  scan-IsLatest zero o s e on lo hi enough = absurd (omega arith)
  scan-IsLatest (suc fuel) none s e on lo hi enough = record {
    is_scheduled = on;
    not_before = lo;
    not_after = hi;
    is_last = λ _ u f. absurd (ground (arith, e, f));
  }
  scan-IsLatest (suc fuel) (some u) s e on lo hi enough =
      let later = grows s.latest u e in
      elim (Bool-cases (ltb now u)) [
        | inl f ↦ rw f (record {
          is_scheduled = on;
          not_before = lo;
          not_after = hi;
          is_last = λ _ v g. ground (arith, e, f, g);
        })
        | inr f ↦ rw f (elim (Bool-cases (leb max_catch_up_steps (note now u s).missed)) [
          | inl g ↦ rw g (record {
            is_scheduled = there on e;
            not_before = omega arith;
            not_after = ground (arith, f);
            is_last = λ few. absurd (ground (arith, few, g));
          })
          | inr g ↦ rw g (
              scan-IsLatest fuel (next u) (note now u s) refl (there on e) (omega arith)
                (ground (arith, f)) (omega arith))
        ])
      ]

  -- The first round takes the first time that is due.
  due-IsLatest :
      first ≤ now
      → IsLatest next now first
          (scan next now (suc (suc now)) (some first) (record { latest = first; missed = 0 }))
  unfolding scan
  due-IsLatest early = elim (Bool-cases (ltb now first)) [
    | inl f ↦ absurd (ground (arith, f, early))
    | inr f ↦
        rw f
          (elim (Bool-cases (
            leb max_catch_up_steps
              (note now first (record { latest = first; missed = 0 })).missed)) [
                | inl g ↦ absurd (ground (arith, g))
                | inr g ↦ rw g (
                    scan-IsLatest (suc now) (next first)
                      (note now first (record { latest = first; missed = 0 })) refl here
                      (omega arith) early (omega arith))
              ])
  ]

now-save :
    (has_state : Bool) (e : CronEntry) (at : ℕ) (w : World) → (save has_state e at w).now ≡ w.now
unfolding save
now-save true e at w = refl
now-save false e at w = refl

fire_due-on :
    (codec : Codec) (e : CronEntry) (s : Scan) (w : World) (now : ℕ)
    → w.now ≡ now
    → fire_due codec e s w ≡ handled codec e s now w
unfolding fire_due
fire_due-on codec e s w now h = rw h refl

-- Where the times of a schedule grow, a check at which a scheduled time is due makes one firing of all
-- those that are due, and counts the entry as handled now. The firing stands for a scheduled time
-- after the one at which the entry was last handled and up to now, and for the last of them unless a
-- million were missed. It is fired as on time where that time is at most a minute ago, and else as
-- missed, or not at all where the entry skips missed times.
pub check_latest :
    (codec : Codec) (has_state : Bool) (e : CronEntry) (w : World) (first : ℕ)
    → ((t u : ℕ) → e.next t ≡ some u → t < u)
    → e.next e.last ≡ some first
    → first ≤ w.now
    → let s = due e w.now first in
      IsLatest e.next w.now first s
      × (e.last < s.latest)
      × (check_next codec has_state e w (e.next e.last)
          ≡ (record e { last = w.now }, handled codec e s w.now (save has_state e w.now w)))
unfolding due check_next
check_latest codec has_state e w first grows is_first early =
    let latest = due-IsLatest e.next grows w.now first early in
    let lo = latest.not_before in
    let after = grows e.last first is_first in
    (
      latest,
      omega (arith, lo, after),
      rw is_first (elim (Bool-cases (ltb w.now first)) [
        | inl f ↦ absurd (ground (arith, f, early))
        | inr f ↦ rw f (
            ap (λ x. (record e { last = w.now }, x))
              (fire_due-on codec e (due e w.now first) _ w.now (now-save has_state e w.now w)))
      ]),
    )
