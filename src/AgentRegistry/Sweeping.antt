-- ===== src/AgentRegistry/Sweeping.antt =====
-- The sweeper takes away no agent that can be discovered.
use oma_server.Common.{
  ℕ, ◌-◌, ◌*◌, ◌≤◌, ◌<◌, ◌≡◌, refl, Bool, false, ◌&&◌, List, [], ◌∷◌, World, arith, text_dec,
  Bool-cases,
}
use oma_server.AgentRegistry.Model.{
  Agent, Status, compute_status, status_name, nanos, stale_multiplier, status_allowed,
}
use oma_server.AgentRegistry.Tables.{Tables, delete_stale_rows, delete_heartbeat_before}
use oma_server.AgentRegistry.Service.{sweep, seconds, sweep_offline_retention}
use oma_server.AgentRegistry.Discovery.{any}

-- An agent that the default filter of a discovery allows.
unfoldable pub is_alive : ℕ → ℕ → Agent → Bool
is_alive now ttl a = status_allowed (compute_status a.last_heartbeat_at now ttl) ""

offline_hidden : status_allowed Status.offline "" ≡ false
unfolding status_allowed status_name text_dec Bool-cases
offline_hidden = refl

late_offline :
    (now ttl last : ℕ)
    → stale_multiplier * ttl ≤ nanos sweep_offline_retention
    → last < seconds now - sweep_offline_retention
    → compute_status last now ttl ≡ Status.offline
unfolding compute_status
late_offline now ttl last h l = ground arith

alive_late :
    (now ttl : ℕ) (a : Agent)
    → stale_multiplier * ttl ≤ nanos sweep_offline_retention
    → a.last_heartbeat_at < seconds now - sweep_offline_retention
    → is_alive now ttl a ≡ false
unfolding is_alive
alive_late now ttl a h l = rw (late_offline now ttl a.last_heartbeat_at h l) offline_hidden

any-delete_stale_rows :
    (test : Agent → Bool) (now ttl : ℕ) (rows : List Agent)
    → stale_multiplier * ttl ≤ nanos sweep_offline_retention
    → any
        (λ a. is_alive now ttl a && test a)
        (delete_stale_rows (seconds now - sweep_offline_retention) rows)
      ≡ any (λ a. is_alive now ttl a && test a) rows
unfolding any delete_stale_rows
any-delete_stale_rows test now ttl [] h = refl
any-delete_stale_rows test now ttl (a ∷ rows) h =
    ground (arith, any-delete_stale_rows test now ttl rows h, alive_late now ttl a h)

-- While three leases are no longer than a day, sweeping changes nothing of what can be said of the
-- agents that are online or stale, whether the statement fails or not.
pub sweep-any :
    (test : Agent → Bool) (now ttl : ℕ) (w : World Tables)
    → stale_multiplier * ttl ≤ nanos sweep_offline_retention
    → any (λ a. is_alive now ttl a && test a) (sweep now w).1.tables.agents
      ≡ any (λ a. is_alive now ttl a && test a) w.tables.agents
unfolding sweep delete_heartbeat_before
sweep-any test now ttl w h = ground (arith, any-delete_stale_rows test now ttl w.tables.agents h)
