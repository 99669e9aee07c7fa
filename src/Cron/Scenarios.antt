-- ===== src/Cron/Scenarios.antt =====
-- A schedule whose times are all milliseconds, checked after two of them.
use kickd.Prelude.{suc, ◌<◌, ◌≡◌, refl, true, some, arith}
use kickd.Cron.{CronEntry, run, due, check_next, save}
use kickd.Cron.Latest.{IsLatest, handled, check_latest}
use kickd.Dispatch.Scenarios.{one_payload, firing, world}

abbrev every_ms : CronEntry
every_ms = record {
  event = "backup";
  schedule = "@every 1ms";
  missed = run;
  key = "backup|0||@every 1ms";
  next = λ t. some (suc t);
  last = 18;
}

check_latest_example :
    let s = due every_ms 20 19 in
    IsLatest every_ms.next 20 19 s
    × (18 < s.latest)
    × (check_next (one_payload firing) true every_ms world (some 19) ≡ (
      record every_ms { last = 20 },
      handled (one_payload firing) every_ms s 20 (save true every_ms 20 world),
    ))
check_latest_example =
    check_latest (one_payload firing) true every_ms world 19 (λ t u h. ground (arith, h)) refl
      (omega arith)
