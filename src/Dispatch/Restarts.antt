-- ===== src/Dispatch/Restarts.antt =====
-- Which runs finish restarts, and how long a restart waits.
use kickd.Prelude.{
  ℕ, zero, suc, ◌*◌, ◌^◌, ◌<◌, ◌≡◌, refl, false, Option, none, some, min, inl, inr, ◌≤◌, leb, ltb,
  Bool-cases, ◌⊎◌, ap, sym, ◌∙◌, arith, string_eq, if_cases,
}
use native.Mathlib.Nat.{mul_assoc}
use kickd.Prelude.Int.{ℤ, pos, smaller, double-pos}
use kickd.Prelude.Map.{lookup}
use kickd.Queue.Status.{Status, canceled, interrupted}
use kickd.Queue.Row.{Run}
use kickd.Queue.Runs.{finish_run}
use kickd.Event.{Outcome, Codec}
use kickd.Dispatch.Spec.{Spec, Restart, never, on_failure, always, restarts_after}
use kickd.Dispatch.State.{World}
use kickd.Dispatch.Finish.{
  status_after, next_delay, finish_of, duration_of, restart_with, restart, finish,
}

not_restarted :
    (r : Restart) (s : Status) → (s ≡ canceled) ⊎ (s ≡ interrupted) → restarts_after r s ≡ false
unfolding restarts_after
not_restarted never s h = refl
not_restarted on_failure s (inl e) = rw e refl
not_restarted on_failure s (inr e) = rw e refl
not_restarted always s (inl e) = rw e refl
not_restarted always s (inr e) = rw e refl

conn-restart :
    (codec : Codec) (run : Run) (status : Status) (ran : ℕ) (w : World)
    → ((r : Restart) → restarts_after r status ≡ false)
    → (restart codec run status ran w).conn ≡ w.conn
unfolding restart
conn-restart codec run status ran w h =
    if_cases (λ (x : World). x.conn ≡ w.conn) w.d.stopping _ _ (λ _. refl)
      (λ _. go (lookup run.event w.d.specs))
  where
    go : (o : Option Spec) → (restart_with codec run status ran o w).conn ≡ w.conn
    go none = unfold restart_with in refl
    go (some s) = unfold restart_with in rw (h s.restart) refl

-- A run that was canceled, by a user or by a newer firing, and one that a stop cut off is not
-- restarted, whatever the event's restart setting is: finish leaves the database as FinishRun of the
-- run does.
pub finish_canceled :
    (codec : Codec) (run : Run) (spec : Spec) (res : Outcome) (w : World)
    → (status_after res ≡ canceled) ⊎ (status_after res ≡ interrupted)
    → (finish codec run spec res w).conn ≡ (finish_run w.now run.id (finish_of spec res) w.conn).1
unfolding finish
finish_canceled codec run spec res w h =
    conn-restart codec run (status_after res) res.duration _
      (λ r. not_restarted r (status_after res) h)

-- The delays of restarts in a row, each after a run that ended too soon to reset the delay.
unfoldable pub backoff : Spec → (ℕ → ℕ) → ℕ → ℤ
backoff spec ran zero = next_delay spec none (ran zero)
backoff spec ran (suc k) = next_delay spec (some (backoff spec ran k)) (ran (suc k))

smaller-duration_of :
    (a b : ℕ) → smaller (pos (2 * (1000000 * a))) (duration_of b) ≡ duration_of (min (2 * a) b)
smaller-duration_of a b = elim (Bool-cases (ltb (2 * (1000000 * a)) (1000000 * b))) [
  | inl e ↦ rw e (ap pos (ground (arith, e)))
  | inr e ↦ rw e (ap pos (ground (arith, e)))
]

-- The doubled duration stays below 2 ^ 63 nanoseconds.
next_delay-short :
    (spec : Spec) (delay ran : ℕ)
    → ran < spec.restart_max_delay
    → 1000000 * delay < 2 ^ 62
    → next_delay spec (some (duration_of delay)) ran
      ≡ duration_of (min (2 * delay) spec.restart_max_delay)
unfolding next_delay
next_delay-short spec delay ran short fits = elim (Bool-cases (leb spec.restart_max_delay ran)) [
  | inl e ↦ absurd (ground (arith, e, short))
  | inr e ↦ rw e (
      ap (λ x. smaller x (duration_of spec.restart_max_delay)) (double-pos (1000000 * delay) fits)
      ∙ smaller-duration_of delay spec.restart_max_delay)
]

min_double : (x m : ℕ) → min (2 * min x m) m ≡ min (2 * x) m
min_double x m = omega arith

pow_double : (k d : ℕ) → 2 * (2 ^ k * d) ≡ 2 ^ suc k * d
pow_double k d =
    let next : 2 * 2 ^ k ≡ 2 ^ suc k = omega arith in
    sym (mul_assoc 2 (2 ^ k) d) ∙ ap (λ x. x * d) next

-- Where restart_max_delay, in nanoseconds, is below 2^62 and restart_delay is no longer than it, the
-- first restart of an event waits restart_delay, and while every run in between is shorter than
-- restart_max_delay, the k-th one after it waits 2^k times as long, and never longer than
-- restart_max_delay.
pub backoff_doubles :
    (spec : Spec) (ran : ℕ → ℕ)
    → ((k : ℕ) → ran k < spec.restart_max_delay)
    → spec.restart_delay ≤ spec.restart_max_delay
    → 1000000 * spec.restart_max_delay < 2 ^ 62
    → (backoff spec ran 0 ≡ duration_of spec.restart_delay)
      × ((k : ℕ)
          → backoff spec ran (suc k)
            ≡ duration_of (min (2 ^ suc k * spec.restart_delay) spec.restart_max_delay))
unfolding backoff next_delay
backoff_doubles spec ran short ordered fits = (refl, go)
  where
    capped : (x m : ℕ) → 1000000 * m < 2 ^ 62 → 1000000 * min x m < 2 ^ 62
    capped x m h = omega (arith, h)

    go :
        (k : ℕ)
        → backoff spec ran (suc k)
          ≡ duration_of (min (2 ^ suc k * spec.restart_delay) spec.restart_max_delay)
    go zero =
        next_delay-short spec spec.restart_delay (ran 1) (short 1) (omega (arith, ordered, fits))
        ∙ ap duration_of (omega arith)
    go (suc k) =
        let x = 2 ^ suc k * spec.restart_delay in
        ap (λ d. next_delay spec (some d) (ran (suc (suc k)))) (go k)
        ∙ next_delay-short spec (min x spec.restart_max_delay) (ran (suc (suc k)))
            (short (suc (suc k))) (capped x spec.restart_max_delay fits)
        ∙ ap duration_of (min_double x spec.restart_max_delay)
        ∙ ap (λ y. duration_of (min y spec.restart_max_delay))
            (pow_double (suc k) spec.restart_delay)
