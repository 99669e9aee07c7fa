-- ===== src/Wake/Total.antt =====
-- No sleep is counted twice, and only short ones are missed.
use kickd.Prelude.{
  ℕ, ◌+◌, ◌-◌, ◌*◌, ◌≤◌, ◌≡◌, refl, String, none, some, List, [], ◌∷◌, ◌++◌, arith, leb, length,
  Bool-cases, inl, inr,
}
use kickd.Event.{Codec}
use kickd.Dispatch.State.{World}
use kickd.Wake.{Reading, Watch, Wakeup, min_sleep, tick_slept, tick, watch}

-- How long the machine slept in the sleeps that fired the events.
unfoldable pub total : List Wakeup → ℕ
total [] = 0
total (s ∷ rest) = s.duration + total rest

-- The clock of sleep does not go back.
abbrev pub Grows : ℕ → List Reading → Type 0
Grows prev [] = Unit
Grows prev ((now, none) ∷ rest) = Grows prev rest
Grows prev ((now, some cur) ∷ rest) = (prev ≤ cur) × Grows cur rest

total-append : (xs ys : List Wakeup) → total (xs ++ ys) ≡ total xs + total ys
unfolding total
total-append [] ys = omega arith
total-append (x ∷ xs) ys = omega (arith, total-append xs ys)

total-tick_slept :
    (codec : Codec) (events : List String) (cur : ℕ) (st : Watch) (w : World)
    → st.prev ≤ cur
    → (total (tick_slept codec events cur st w).0 + st.prev ≤ cur)
      × (cur ≤ total (tick_slept codec events cur st w).0 + st.prev + 999)
unfolding tick_slept total
total-tick_slept codec events cur st w h = elim (Bool-cases (leb min_sleep (cur - st.prev))) [
  | inl e ↦ rw e (omega arith, omega arith)
  | inr e ↦ rw e (omega arith, ground (arith, e))
]

total_none : total [] ≡ 0
unfolding total
total_none = refl

-- Where the clock of sleep does not go back, the sleeps that fire the events are no longer together
-- than the machine slept since the first reading, and each tick leaves out less than the second that
-- a sleep must last: also where readings fail in between.
pub watch-total :
    (codec : Codec) (events : List String) (readings : List Reading) (st : Watch) (w : World)
    → Grows st.prev readings
    → let (fired, st', w') = watch codec events readings st w in
      (total fired + st.prev ≤ st'.prev)
      × (st'.prev ≤ total fired + st.prev + 999 * length readings)
unfolding watch tick
watch-total codec events [] st w g = (omega (arith, total_none), omega (arith, total_none))
watch-total codec events ((now, none) ∷ rest) st w g =
    let (lo, hi) = watch-total codec events rest st w g in (omega (arith, lo), omega (arith, hi))
watch-total codec events ((now, some cur) ∷ rest) st w g =
    let next : Watch = record { prev = cur; prev_at = now } in
    let first = tick_slept codec events cur st (record w { now = now }) in
    let (lo, hi) = watch-total codec events rest next first.1 g.1 in
    let (lo', hi') = total-tick_slept codec events cur st (record w { now = now }) g.0 in
    let sum = total-append first.0 (watch codec events rest next first.1).0 in
    (omega (arith, lo, lo', sum), omega (arith, hi, hi', sum))
