-- ===== src/Dispatch/Spec.antt =====
-- The settings of an event that the dispatcher reads (runner.go, Spec), and the parameters' defaults.
use kickd.Prelude.{ℕ, Bool, true, false, String, List, [], ◌∷◌, string_eq}
use kickd.Prelude.Map.{Map, insert}
use kickd.Queue.Status.{Status, succeeded, failed, status_eq}

pub data Policy : Type 0 where
  skip queue parallel replace : Policy

pub data Restart : Type 0 where
  never on_failure always : Restart

pub data OnInterrupt : Type 0 where
  abandon rerun : OnInterrupt

pub record AfterTrigger : Type 0 where
  pub event : String
  pub statuses : List Status

-- How the command runs (the command, its shell, environment, time limits and output file) is the
-- runner's, and no part of this record.
pub record Spec : Type 0 where
  pub name : String
  pub concurrency : Policy
  pub restart : Restart
  pub restart_delay : ℕ
  pub restart_max_delay : ℕ
  pub on_interrupt : OnInterrupt
  pub max_attempts : ℕ
  pub log_output : Bool
  pub defaults : Map String String
  pub after : List AfterTrigger

abbrev pub is_queue : Policy → Bool
is_queue queue = true
is_queue _ = false

abbrev pub is_skip : Policy → Bool
is_skip skip = true
is_skip _ = false

abbrev pub is_replace : Policy → Bool
is_replace replace = true
is_replace _ = false

abbrev pub is_parallel : Policy → Bool
is_parallel parallel = true
is_parallel _ = false

abbrev pub is_never : Restart → Bool
is_never never = true
is_never _ = false

-- Each pair of the second map is set in the first.
unfoldable pub set_all : Map String String → Map String String → Map String String
set_all out [] = out
set_all out ((k, v) ∷ rest) = set_all (insert k v out) rest

-- WithDefaults: `data` over the defaults, and `data` itself where there are none.
unfoldable pub with_defaults : Map String String → Map String String → Map String String
with_defaults values [] = values
with_defaults values (d ∷ defaults) = set_all (set_all [] (d ∷ defaults)) values

-- restartsAfter: whether a run that ended with the status starts its event again.
unfoldable pub restarts_after : Restart → Status → Bool
restarts_after always succeeded = true
restarts_after always failed = true
restarts_after on_failure failed = true
restarts_after _ _ = false
