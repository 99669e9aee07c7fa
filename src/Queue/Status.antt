-- ===== src/Queue/Status.antt =====
-- The statuses of a run (store.go), which the program keeps as strings.
use kickd.Prelude.{ℕ, ◌≡◌, ◌↔◌, Bool, true, false, String, arith, Eq, nat_eq, ◌==◌}

pub data Status : Type 0 where
  queued running succeeded failed canceled skipped dropped interrupted retried abandoned : Status

-- The text of a status, as the configuration and the command line spell it.
abbrev pub text : Status → String
text queued = "queued"
text running = "running"
text succeeded = "succeeded"
text failed = "failed"
text canceled = "canceled"
text skipped = "skipped"
text dropped = "dropped"
text interrupted = "interrupted"
text retried = "retried"
text abandoned = "abandoned"

abbrev pub rank : Status → ℕ
rank queued = 0
rank running = 1
rank succeeded = 2
rank failed = 3
rank canceled = 4
rank skipped = 5
rank dropped = 6
rank interrupted = 7
rank retried = 8
rank abandoned = 9

abbrev pub status_beq : Status → Status → Bool
status_beq a b = rank a == rank b

pub status_decides : (a b : Status) → (status_beq a b ≡ true) ↔ (a ≡ b)
status_decides a b = (λ h. ground arith, λ h. ground arith)

abbrev pub final : Status → Bool
final queued = false
final running = false
final interrupted = false
final _ = true

instance abbrev pub status_eq : Eq Status
status_eq = record { test = status_beq; decides = status_decides }
