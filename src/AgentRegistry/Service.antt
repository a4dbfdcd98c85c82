-- ===== src/AgentRegistry/Service.antt =====
-- application/agentregistry/usecase.go. The clock, in nanoseconds, the fresh ids, the gate, the lease
-- and what the code takes of Go's libraries are arguments.
use oma_server.Common.{
  ℕ, ◌-◌, ◌*◌, ◌/◌, ◌&&◌, String, List, [], ◌∷◌, Option, none, some, if◌then◌else◌, leb, is_empty,
  distinct_from, Map, lookup, Driver, Result, ok, err, ◌>>=◌, ◌>>◌, pure, fail, lift, attempt,
  query,
}
use oma_server.Auth.Role.{AuthError}
use oma_server.AgentRegistry.Model.{
  Agent, Shown, Status, RegisterCommand, Filter, RegistryError, ParseUrl, not_found, forbidden,
  denied, db_error, no_filter, compute_status, validate_register, validate_filter, matches,
  status_allowed,
}
use oma_server.AgentRegistry.Tables.{
  Like, Db, upsert, find_agent, touch, delete_owned, delete_by_id, delete_heartbeat_before, listed,
}

abbrev pub default_heartbeat_interval : ℕ
default_heartbeat_interval = 15 * 1000000000

abbrev pub default_lease_ttl : ℕ
default_lease_ttl = 45 * 1000000000

-- `sweepOfflineRetention`, in seconds.
abbrev pub sweep_offline_retention : ℕ
sweep_offline_retention = 24 * 3600

-- The lease of `NewService`.
unfoldable pub lease_of : ℕ → ℕ
lease_of ttl = if leb ttl 0 then default_lease_ttl else ttl

abbrev pub seconds : ℕ → ℕ
seconds now = now / 1000000000

unfoldable pub new_agent : ℕ → String → RegisterCommand → Agent
new_agent t new_id c = record {
  id = new_id;
  owner_id = c.owner_id;
  name = c.name;
  endpoint_url = c.endpoint_url;
  capabilities = c.capabilities;
  tags = c.tags;
  model = c.model;
  version = c.version;
  last_heartbeat_at = t;
  created_at = t;
  updated_at = t;
}

unfoldable pub register : ParseUrl → ℕ → String → RegisterCommand → Db Shown
register parse now new_id raw = do
  cmd ← lift (validate_register parse raw)
  saved ← upsert (new_agent (seconds now) new_id cmd)
  pure (record { agent = saved; status = Status.online; owner_name = "" })

unfoldable pub classify_owner_miss : String → Db (Unit {0})
classify_owner_miss id = do
  found ← attempt (query db_error (λ t. find_agent id t.agents))
  elim found [ ok _ ↦ fail forbidden | err _ ↦ fail not_found ]

-- `errors.Is(err, ErrNotFound)` of the result, and then what the miss is.
unfoldable pub classified : String → Result RegistryError (Unit {0}) → Db (Unit {0})
unfolding classify_owner_miss
classified id (ok _) = pure tt
classified id (err RegistryError.not_found) = classify_owner_miss id
classified id (err e) = fail e

unfoldable pub heartbeat : Driver → ℕ → String → String → Db (Unit {0})
unfolding classified
heartbeat driver now id owner_id = do
  result ← attempt (touch driver id owner_id (seconds now))
  classified id result

unfoldable pub deregister : String → String → Db (Unit {0})
unfolding classified
deregister id owner_id = do result ← attempt (delete_owned id owner_id); classified id result

unfoldable pub shown_at : ℕ → ℕ → Agent → Shown
shown_at now ttl a = record {
  agent = a;
  status = compute_status a.last_heartbeat_at now ttl;
  owner_name = "";
}

-- The loop of `Discover`.
unfoldable pub discovered : (String → String) → ℕ → ℕ → Filter → List Agent → List Shown
unfolding shown_at
discovered lower now ttl f [] = []
discovered lower now ttl f (a ∷ others) =
    let rest = discovered lower now ttl f others in
    if matches lower f a && status_allowed (compute_status a.last_heartbeat_at now ttl) f.status
    then shown_at now ttl a ∷ rest
    else rest

unfoldable pub discover : (String → String) → Like → ℕ → ℕ → Filter → Db (List Shown)
unfolding discovered
discover lower like now ttl raw = do
  f ← lift (validate_filter lower raw)
  rows ← query db_error (λ t. ok (listed like f t.agents))
  pure (discovered lower now ttl f rows)

unfoldable pub get : ℕ → ℕ → String → Db Shown
unfolding shown_at
get now ttl id = do a ← query db_error (λ t. find_agent id t.agents); pure (shown_at now ttl a)

-- The port `accessGate`: the error of `RequireAdmin`, if any.
abbrev pub Gate : Type 0
Gate = String → Option AuthError

abbrev pub require_admin : Gate → String → Db (Unit {0})
require_admin gate actor_id w = (elim (gate actor_id) [ none ↦ ok tt | some e ↦ err (denied e) ], w)

unfoldable pub owner_ids : List Agent → List String
owner_ids [] = []
owner_ids (a ∷ others) = a.owner_id ∷ owner_ids others

-- `names[id]` of a Go map.
unfoldable pub name_in : Map String → String → String
name_in names id = elim (lookup id names) [ none ↦ "" | some n ↦ n ]

unfoldable pub with_names : Map String → ℕ → ℕ → List Agent → List Shown
unfolding shown_at
with_names names now ttl [] = []
with_names names now ttl (a ∷ others) =
    record (shown_at now ttl a) { owner_name = name_in names a.owner_id }
    ∷ with_names names now ttl others

-- The directory of names: none is set, or it has the names of ids, or fails.
abbrev pub Directory : Type 0
Directory = Option (List String → Option (Map String))

-- The names that the list is shown with, none where the directory is not asked or fails.
unfoldable pub names_of : Directory → List String → Map String
names_of none ids = []
names_of (some ask) ids =
    if is_empty ids then [] else elim (ask ids) [ none ↦ [] | some names ↦ names ]

unfoldable pub admin_list : Gate → Directory → Like → ℕ → ℕ → String → Db (List Shown)
unfolding names_of with_names
admin_list gate directory like now ttl actor_id = do
  require_admin gate actor_id
  rows ← query db_error (λ t. ok (listed like no_filter t.agents))
  pure (with_names (names_of directory (distinct_from [] (owner_ids rows))) now ttl rows)

unfoldable pub admin_delete : Gate → String → String → Db (Unit {0})
admin_delete gate actor_id id = do require_admin gate actor_id; delete_by_id id

-- One tick of `RunSweeper`, whose failure is only logged.
unfoldable pub sweep : ℕ → Db (Unit {0})
sweep now = do
  _ ← attempt {A = Unit {0}} (delete_heartbeat_before (seconds now - sweep_offline_retention))
  pure tt
