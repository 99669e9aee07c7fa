-- ===== src/Queue/Agents.antt =====
-- The tables agent and cron_state of store.go.
use kickd.Prelude.{ℕ, ◌+◌, Bool, true, false, ◌&&◌, String, Option, none, some, ltb, string_eq}
use kickd.Prelude.Map.{lookup, insert}
use kickd.Queue.Row.{AgentRow, Db}
use kickd.Queue.Conn.{M, statement}

-- The Go struct Agent: what the heartbeat is given.
pub record Agent : Type 0 where
  pub pid : ℕ
  pub version : String
  pub host : String
  pub started_at : ℕ

-- Alive: time.Since(HeartbeatAt) < window, also where the clock went back since the heartbeat.
unfoldable pub alive : ℕ → AgentRow → ℕ → Bool
alive now a window =
    (elim a.stopped_at [ none ↦ true | some t ↦ false ]) && ltb now (a.heartbeat_at + window)

-- The upsert: the new values replace the row, and clear `stopped_at`.
unfoldable pub upsert_agent : ℕ → Agent → Db → Unit {0} × Db
upsert_agent now a db = (
  tt,
  record db {
    agent = some (record {
      pid = a.pid;
      version = a.version;
      host = a.host;
      started_at = a.started_at;
      heartbeat_at = now;
      stopped_at = none;
    });
  },
)

unfoldable pub heartbeat : ℕ → Agent → M (Unit {0})
heartbeat now a = statement (upsert_agent now a)

abbrev pub stopped : ℕ → Option AgentRow → Option AgentRow
stopped now none = none
stopped now (some a) = some (record a { stopped_at = some now })

unfoldable pub agent_stopped : ℕ → M (Unit {0})
agent_stopped now = statement (λ db. (tt, record db { agent = stopped now db.agent }))

unfoldable pub agent_info : M (Option AgentRow)
agent_info = statement (λ db. (db.agent, db))

unfoldable pub last_cron : String → M (Option ℕ)
last_cron key = statement (λ db. (lookup key db.cron_state, db))

unfoldable pub set_last_cron : String → ℕ → M (Unit {0})
set_last_cron key at =
    statement (λ db. (tt, record db { cron_state = insert key at db.cron_state }))
