-- ===== src/Wake/Scenarios.antt =====
-- A sleep of three seconds, seen after a reading that failed.
use kickd.Prelude.{◌+◌, ◌*◌, ◌≤◌, none, some, List, [], ◌∷◌, arith, length}
use kickd.Wake.{Reading, Watch, watch}
use kickd.Wake.Total.{total, watch-total}
use kickd.Dispatch.Scenarios.{one_payload, firing, world}

abbrev night : List Reading
night = (30, none) ∷ (31, some 3500) ∷ []

abbrev evening : Watch
evening = record { prev = 500; prev_at = 29 }

watch-total_example :
    let (fired, st', w') = watch (one_payload firing) ("backup" ∷ []) night evening world in
    (total fired + 500 ≤ st'.prev) × (st'.prev ≤ total fired + 500 + 999 * length night)
watch-total_example =
    watch-total (one_payload firing) ("backup" ∷ []) night evening world (omega arith, tt)
