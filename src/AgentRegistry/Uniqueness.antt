-- ===== src/AgentRegistry/Uniqueness.antt =====
-- Each id, and each name of an owner, stands at most once in the table.
use oma_server.Common.{
  ℕ, ◌-◌, ◌≡◌, refl, Bool, false, not, ltb, String, List, [], ◌∷◌, if◌then◌else◌, ◌==◌, Driver,
  World, arith, inl, inr, Result-cases, subst, sym,
}
use oma_server.AgentRegistry.Model.{Agent, RegisterCommand, ParseUrl, validate_register}
use oma_server.AgentRegistry.Tables.{
  Tables, has_named, has_id, refreshed, refresh_rows, upsert, upsert_row, touch, touch_rows,
  delete_owned, delete_owned_rows, delete_by_id, delete_id_rows, delete_heartbeat_before,
  delete_stale_rows, is_owned,
}
use oma_server.AgentRegistry.Service.{
  Gate, register, heartbeat, deregister, classified, classify_owner_miss, admin_delete, sweep,
  sweep_offline_retention, new_agent, seconds,
}

abbrev pub IsRegistry : List Agent → Type 0
IsRegistry [] = Unit {0}
IsRegistry (a ∷ rows) =
    (has_id a.id rows ≡ false) × (has_named a.owner_id a.name rows ≡ false) × IsRegistry rows

has_id-refresh_rows :
    (new : Agent) (k : String) (rows : List Agent)
    → has_id k (refresh_rows new rows) ≡ has_id k rows
unfolding has_id refresh_rows refreshed
has_id-refresh_rows new k [] = refl
has_id-refresh_rows new k (a ∷ rows) = ground (arith, has_id-refresh_rows new k rows)

has_named-refresh_rows :
    (new : Agent) (o n : String) (rows : List Agent)
    → has_named o n (refresh_rows new rows) ≡ has_named o n rows
unfolding has_named refresh_rows refreshed
has_named-refresh_rows new o n [] = refl
has_named-refresh_rows new o n (a ∷ rows) = ground (arith, has_named-refresh_rows new o n rows)

refresh_rows-IsRegistry :
    (new : Agent) (rows : List Agent) → IsRegistry rows → IsRegistry (refresh_rows new rows)
unfolding refresh_rows refreshed
refresh_rows-IsRegistry new [] i = tt
refresh_rows-IsRegistry new (a ∷ rows) i = ground (
  arith,
  has_id-refresh_rows new a.id rows,
  has_named-refresh_rows new a.owner_id a.name rows,
  refresh_rows-IsRegistry new rows,
)

upsert_row-IsRegistry :
    (new : Agent) (t : Tables) → IsRegistry t.agents → IsRegistry (upsert_row new t).1.agents
unfolding upsert_row
upsert_row-IsRegistry new t i = ground (arith, refresh_rows-IsRegistry new t.agents)

has_id-touch_rows :
    (id o k : String) (t : ℕ) (rows : List Agent)
    → has_id k (touch_rows id o t rows) ≡ has_id k rows
unfolding has_id touch_rows
has_id-touch_rows id o k t [] = refl
has_id-touch_rows id o k t (a ∷ rows) = ground (arith, has_id-touch_rows id o k t rows)

has_named-touch_rows :
    (id o p n : String) (t : ℕ) (rows : List Agent)
    → has_named p n (touch_rows id o t rows) ≡ has_named p n rows
unfolding has_named touch_rows
has_named-touch_rows id o p n t [] = refl
has_named-touch_rows id o p n t (a ∷ rows) = ground (arith, has_named-touch_rows id o p n t rows)

touch_rows-IsRegistry :
    (id o : String) (t : ℕ) (rows : List Agent)
    → IsRegistry rows
    → IsRegistry (touch_rows id o t rows)
unfolding touch_rows
touch_rows-IsRegistry id o t [] i = tt
touch_rows-IsRegistry id o t (a ∷ rows) i = ground (
  arith,
  has_id-touch_rows id o a.id t rows,
  has_named-touch_rows id o a.owner_id a.name t rows,
  touch_rows-IsRegistry id o t rows,
)

-- All deletions keep the rows that pass a test.
kept : (Agent → Bool) → List Agent → List Agent
kept test [] = []
kept test (a ∷ rows) = let rest = kept test rows in if test a then a ∷ rest else rest

has_id-kept :
    (test : Agent → Bool) (k : String) (rows : List Agent)
    → has_id k rows ≡ false
    → has_id k (kept test rows) ≡ false
unfolding has_id kept
has_id-kept test k [] h = refl
has_id-kept test k (a ∷ rows) h = ground (arith, has_id-kept test k rows)

has_named-kept :
    (test : Agent → Bool) (o n : String) (rows : List Agent)
    → has_named o n rows ≡ false
    → has_named o n (kept test rows) ≡ false
unfolding has_named kept
has_named-kept test o n [] h = refl
has_named-kept test o n (a ∷ rows) h = ground (arith, has_named-kept test o n rows)

kept-IsRegistry :
    (test : Agent → Bool) (rows : List Agent) → IsRegistry rows → IsRegistry (kept test rows)
unfolding kept
kept-IsRegistry test [] i = tt
kept-IsRegistry test (a ∷ rows) i = ground (
  arith,
  has_id-kept test a.id rows,
  has_named-kept test a.owner_id a.name rows,
  kept-IsRegistry test rows,
)

delete_owned_rows-kept :
    (id o : String) (rows : List Agent)
    → delete_owned_rows id o rows ≡ kept (λ a. not (is_owned id o a)) rows
unfolding delete_owned_rows kept
delete_owned_rows-kept id o [] = refl
delete_owned_rows-kept id o (a ∷ rows) = ground (arith, delete_owned_rows-kept id o rows)

delete_id_rows-kept :
    (id : String) (rows : List Agent) → delete_id_rows id rows ≡ kept (λ a. not (a.id == id)) rows
unfolding delete_id_rows kept
delete_id_rows-kept id [] = refl
delete_id_rows-kept id (a ∷ rows) = ground (arith, delete_id_rows-kept id rows)

delete_stale_rows-kept :
    (cutoff : ℕ) (rows : List Agent)
    → delete_stale_rows cutoff rows ≡ kept (λ a. not (ltb a.last_heartbeat_at cutoff)) rows
unfolding delete_stale_rows kept
delete_stale_rows-kept cutoff [] = refl
delete_stale_rows-kept cutoff (a ∷ rows) = ground (arith, delete_stale_rows-kept cutoff rows)

delete_owned_rows-IsRegistry :
    (id o : String) (rows : List Agent) → IsRegistry rows → IsRegistry (delete_owned_rows id o rows)
delete_owned_rows-IsRegistry id o rows i =
    subst IsRegistry (sym (delete_owned_rows-kept id o rows)) (kept-IsRegistry _ rows i)

delete_id_rows-IsRegistry :
    (id : String) (rows : List Agent) → IsRegistry rows → IsRegistry (delete_id_rows id rows)
delete_id_rows-IsRegistry id rows i =
    subst IsRegistry (sym (delete_id_rows-kept id rows)) (kept-IsRegistry _ rows i)

delete_stale_rows-IsRegistry :
    (cutoff : ℕ) (rows : List Agent) → IsRegistry rows → IsRegistry (delete_stale_rows cutoff rows)
delete_stale_rows-IsRegistry cutoff rows i =
    subst IsRegistry (sym (delete_stale_rows-kept cutoff rows)) (kept-IsRegistry _ rows i)

register-IsRegistry :
    (parse : ParseUrl) (now : ℕ) (new_id : String) (raw : RegisterCommand) (w : World Tables)
    → IsRegistry w.tables.agents
    → IsRegistry (register parse now new_id raw w).1.tables.agents
unfolding register upsert
register-IsRegistry parse now new_id raw w i = elim (Result-cases (validate_register parse raw)) [
  | inr (e, k) ↦ ground arith
  | inl (cmd, k) ↦
      ground (arith, upsert_row-IsRegistry (new_agent (seconds now) new_id cmd) w.tables)
]

heartbeat-IsRegistry :
    (d : Driver) (now : ℕ) (id o : String) (w : World Tables)
    → IsRegistry w.tables.agents
    → IsRegistry (heartbeat d now id o w).1.tables.agents
unfolding heartbeat classified classify_owner_miss touch
heartbeat-IsRegistry d now id o w i =
    ground (arith, touch_rows-IsRegistry id o (seconds now) w.tables.agents)

deregister-IsRegistry :
    (id o : String) (w : World Tables)
    → IsRegistry w.tables.agents
    → IsRegistry (deregister id o w).1.tables.agents
unfolding deregister classified classify_owner_miss delete_owned
deregister-IsRegistry id o w i = ground (arith, delete_owned_rows-IsRegistry id o w.tables.agents)

-- The calls that write to the table.
pub data RegistryCall : Type 0 where
  register_call : ℕ → String → RegisterCommand → RegistryCall
  heartbeat_call : ℕ → String → String → RegistryCall
  deregister_call : String → String → RegistryCall
  admin_delete_call : String → String → RegistryCall
  sweep_call : ℕ → RegistryCall

module _ (parse : ParseUrl) (gate : Gate) (driver : Driver) where
  unfoldable pub serve : RegistryCall → World Tables → World Tables
  serve (RegistryCall.register_call now new_id cmd) w = (register parse now new_id cmd w).1
  serve (RegistryCall.heartbeat_call now id owner) w = (heartbeat driver now id owner w).1
  serve (RegistryCall.deregister_call id owner) w = (deregister id owner w).1
  serve (RegistryCall.admin_delete_call actor id) w = (admin_delete gate actor id w).1
  serve (RegistryCall.sweep_call now) w = (sweep now w).1

  unfoldable pub serve_all : List RegistryCall → World Tables → World Tables
  unfolding serve
  serve_all [] w = w
  serve_all (c ∷ cs) w = serve_all cs (serve c w)

  serve-IsRegistry :
      (c : RegistryCall) (w : World Tables)
      → IsRegistry w.tables.agents
      → IsRegistry (serve c w).tables.agents
  unfolding serve admin_delete delete_by_id sweep delete_heartbeat_before
  serve-IsRegistry (RegistryCall.register_call now new_id cmd) w i =
      register-IsRegistry parse now new_id cmd w i
  serve-IsRegistry (RegistryCall.heartbeat_call now id owner) w i =
      heartbeat-IsRegistry driver now id owner w i
  serve-IsRegistry (RegistryCall.deregister_call id owner) w i = deregister-IsRegistry id owner w i
  serve-IsRegistry (RegistryCall.admin_delete_call actor id) w i =
      ground (arith, delete_id_rows-IsRegistry id w.tables.agents)
  serve-IsRegistry (RegistryCall.sweep_call now) w i =
      ground (
        arith,
        delete_stale_rows-IsRegistry (seconds now - sweep_offline_retention) w.tables.agents,
      )

  -- Each id, and each name of an owner, stands at most once in the table, whatever calls are made
  -- and whichever statements fail.
  pub serve_all-IsRegistry :
      (cs : List RegistryCall) (w : World Tables)
      → IsRegistry w.tables.agents
      → IsRegistry (serve_all cs w).tables.agents
  unfolding serve_all
  serve_all-IsRegistry [] w i = i
  serve_all-IsRegistry (c ∷ cs) w i = serve_all-IsRegistry cs (serve c w) (serve-IsRegistry c w i)
