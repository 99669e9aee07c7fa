-- ===== src/Event.antt =====
-- internal/event/event.go: the payload of one firing, and the result of one run.
use kickd.Prelude.{ℕ, String, Bool, Option, List}
use kickd.Prelude.Int.{ℤ}
use kickd.Prelude.Map.{Map}
use kickd.Queue.Status.{Status}

pub record FileChange : Type 0 where
  pub path : String
  pub op : String

pub record CronInfo : Type 0 where
  pub schedule : String
  pub scheduled_at : ℕ
  pub missed : Bool

pub record WebhookInfo : Type 0 where
  pub method : String
  pub path : String
  pub remote_addr : String
  pub headers : Map String String
  pub query : Map String String
  pub body : String

pub record AfterInfo : Type 0 where
  pub event : String
  pub run_id : ℕ
  pub status : Status
  pub exit_code : Option ℤ

pub record WakeInfo : Type 0 where
  pub slept_at : ℕ
  pub slept_seconds : ℕ

-- `none` is a nil pointer, and the zero time.
pub record Event : Type 0 where
  pub request_id : String
  pub run_id : ℕ
  pub attempt : ℕ
  pub name : String
  pub trigger : String
  pub trigger_id : String
  pub time : Option ℕ
  pub data_map : Map String String
  pub source : String
  pub files : List FileChange
  pub cron : Option CronInfo
  pub webhook : Option WebhookInfo
  pub after : Option AfterInfo
  pub wake : Option WakeInfo

pub data DispatchStatus : Type 0 where
  queued dropped : DispatchStatus

-- The outcome of one run. `error` and `reason` are empty when the command ran to completion.
pub record Outcome : Type 0 where
  pub exit_code : ℤ
  pub duration : ℕ
  pub output : String
  pub truncated : Bool
  pub error : String
  pub reason : String
  pub signal : String

-- encoding/json, which writes a payload and reads it back: either can fail.
pub record Codec : Type 0 where
  pub marshal : Event → Option String
  pub unmarshal : String → Option Event
