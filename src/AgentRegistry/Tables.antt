-- ===== src/AgentRegistry/Tables.antt =====
-- agentregistry_repository.go and a2akey_repository.go: the two tables under their statements. Only
-- the columns of tags are read as text; everything else of a row is as it was written.
use oma_server.Common.{
  ℕ, Bool, true, false, not, ◌&&◌, ◌||◌, String, List, [], ◌∷◌, Option, none, some, if◌then◌else◌,
  ltb, eqb, ◌==◌, text_le, Driver, Result, ok, err, Action, World, ◌>>=◌, ◌>>◌, pure, query, exec,
  statement,
}
use oma_server.AgentRegistry.Model.{Agent, Filter, RegistryError, not_found, db_error}
use oma_server.AgentRegistry.Column.{marshal_string_list, json_elem_like}

-- A row of `a2a_keys`; the private key is encrypted in it, and in the clear in the broker.
pub record A2aKey : Type 0 where
  pub kid : String
  pub private_key_pem : String
  pub public_key_pem : String
  pub active : Bool
  pub created_at : ℕ

pub record Tables : Type 0 where
  pub agents : List Agent
  pub keys : List A2aKey

abbrev pub Db : Type 0 → Type 0
Db A = Action (World Tables) RegistryError A

abbrev pub is_named : String → String → Agent → Bool
is_named owner name a = a.owner_id == owner && a.name == name

unfoldable pub has_id : String → List Agent → Bool
has_id id [] = false
has_id id (a ∷ others) = a.id == id || has_id id others

unfoldable pub has_named : String → String → List Agent → Bool
has_named owner name [] = false
has_named owner name (a ∷ others) = is_named owner name a || has_named owner name others

-- `ON CONFLICT(owner_member_id, name) DO UPDATE`: the id and the creation stay.
unfoldable pub refreshed : Agent → Agent → Agent
refreshed new a = record a {
  endpoint_url = new.endpoint_url;
  capabilities = new.capabilities;
  tags = new.tags;
  model = new.model;
  version = new.version;
  last_heartbeat_at = new.last_heartbeat_at;
  updated_at = new.updated_at;
}

unfoldable pub refresh_rows : Agent → List Agent → List Agent
unfolding refreshed
refresh_rows new [] = []
refresh_rows new (a ∷ others) =
    (if is_named new.owner_id new.name a then refreshed new a else a) ∷ refresh_rows new others

-- The upsert of one row; a new row whose id is taken is refused, as SQLite does (MySQL would write
-- to that row; the ids are fresh UUIDs).
unfoldable pub upsert_row : Agent → Tables → Result RegistryError (Unit {0}) × Tables
unfolding refresh_rows
upsert_row new t =
    if has_named new.owner_id new.name t.agents
    then (ok tt, record t { agents = refresh_rows new t.agents })
    else if has_id new.id t.agents
    then (err db_error, t)
    else (ok tt, record t { agents = new ∷ t.agents })

unfoldable pub find_named : String → String → List Agent → Result RegistryError Agent
find_named owner name [] = err db_error
find_named owner name (a ∷ others) =
    if is_named owner name a then ok a else find_named owner name others

-- `Upsert`, which reads the row again.
unfoldable pub upsert : Agent → Db Agent
unfolding upsert_row find_named
upsert new = do
  statement db_error (upsert_row new)
  query db_error (λ t. find_named new.owner_id new.name t.agents)

-- `Get`
unfoldable pub find_agent : String → List Agent → Result RegistryError Agent
find_agent id [] = err not_found
find_agent id (a ∷ others) = if a.id == id then ok a else find_agent id others

abbrev pub is_owned : String → String → Agent → Bool
is_owned id owner a = a.id == id && a.owner_id == owner

unfoldable pub has_owned : String → String → List Agent → Bool
has_owned id owner [] = false
has_owned id owner (a ∷ others) = is_owned id owner a || has_owned id owner others

unfoldable pub touch_rows : String → String → ℕ → List Agent → List Agent
touch_rows id owner now [] = []
touch_rows id owner now (a ∷ others) =
    (if is_owned id owner a then record a { last_heartbeat_at = now; updated_at = now } else a)
    ∷ touch_rows id owner now others

unfoldable pub has_other_times : String → String → ℕ → List Agent → Bool
has_other_times id owner now [] = false
has_other_times id owner now (a ∷ others) =
    (is_owned id owner a && not (eqb a.last_heartbeat_at now && eqb a.updated_at now))
    || has_other_times id owner now others

-- Whether the update counts a row.
unfoldable pub touched : Driver → String → String → ℕ → List Agent → Bool
touched Driver.sqlite id owner now agents = has_owned id owner agents
touched Driver.mysql id owner now agents = has_other_times id owner now agents

-- `Touch`: where the update counts no row, a query tells whether there is one.
unfoldable pub touch : Driver → String → String → ℕ → Db (Unit {0})
unfolding touched touch_rows
touch driver id owner now = do
  counted ← statement db_error (λ t. (
    ok (touched driver id owner now t.agents),
    record t { agents = touch_rows id owner now t.agents },
  ))
  if counted
      then pure tt
      else query db_error (λ t. if has_owned id owner t.agents then ok tt else err not_found)

unfoldable pub delete_owned_rows : String → String → List Agent → List Agent
delete_owned_rows id owner [] = []
delete_owned_rows id owner (a ∷ others) =
    let rest = delete_owned_rows id owner others in if is_owned id owner a then rest else a ∷ rest

-- `Delete`
unfoldable pub delete_owned : String → String → Db (Unit {0})
unfolding delete_owned_rows
delete_owned id owner = statement db_error (λ t. (
  if has_owned id owner t.agents then ok tt else err not_found,
  record t { agents = delete_owned_rows id owner t.agents },
))

unfoldable pub delete_id_rows : String → List Agent → List Agent
delete_id_rows id [] = []
delete_id_rows id (a ∷ others) =
    let rest = delete_id_rows id others in if a.id == id then rest else a ∷ rest

-- `DeleteByID`
unfoldable pub delete_by_id : String → Db (Unit {0})
unfolding delete_id_rows
delete_by_id id = statement db_error (λ t. (
  if has_id id t.agents then ok tt else err not_found,
  record t { agents = delete_id_rows id t.agents },
))

unfoldable pub delete_stale_rows : ℕ → List Agent → List Agent
delete_stale_rows cutoff [] = []
delete_stale_rows cutoff (a ∷ others) =
    let rest = delete_stale_rows cutoff others in
    if ltb a.last_heartbeat_at cutoff then rest else a ∷ rest

-- `DeleteHeartbeatBefore`; how many rows went is only logged.
unfoldable pub delete_heartbeat_before : ℕ → Db (Unit {0})
unfolding delete_stale_rows
delete_heartbeat_before cutoff =
    exec db_error (λ t. record t { agents = delete_stale_rows cutoff t.agents })

-- What `column LIKE '%pattern%'` answers.
abbrev pub Like : Type 0
Like = String → String → Bool

unfoldable pub like_any : Like → Option String → List String → Bool
like_any like none ts = true
like_any like (some pattern) ts = like (marshal_string_list ts) pattern

unfoldable pub coarse : Like → Filter → Agent → Bool
unfolding like_any
coarse like f a =
    (f.owner_id == "" || a.owner_id == f.owner_id)
    && (f.exclude_id == "" || not (a.id == f.exclude_id))
    && like_any like (json_elem_like f.capability) a.capabilities
    && like_any like (json_elem_like f.tag) a.tags

-- `ORDER BY name`
unfoldable pub place : Agent → List Agent → List Agent
place a [] = a ∷ []
place a (b ∷ bs) = let later = b ∷ place a bs in if text_le a.name b.name then a ∷ b ∷ bs else later

unfoldable pub listed : Like → Filter → List Agent → List Agent
unfolding coarse place
listed like f [] = []
listed like f (a ∷ others) =
    let rest = listed like f others in if coarse like f a then place a rest else rest

-- `A2AKeyRepository.GetActive`: of the active keys, the one created last.
unfoldable pub newest_active : List A2aKey → Option A2aKey
newest_active [] = none
newest_active (k ∷ ks) =
    let others = newest_active ks in
    if not k.active then others else elim others [
      | none ↦ some k
      | some j ↦ if ltb k.created_at j.created_at then some j else some k
    ]

unfoldable pub get_active : Tables → Result RegistryError A2aKey
unfolding newest_active
get_active t = elim (newest_active t.keys) [ none ↦ err not_found | some k ↦ ok k ]

unfoldable pub has_kid : String → List A2aKey → Bool
has_kid kid [] = false
has_kid kid (k ∷ ks) = k.kid == kid || has_kid kid ks

-- `A2AKeyRepository.Save`
unfoldable pub save_key_row : A2aKey → Tables → Result RegistryError (Unit {0}) × Tables
unfolding has_kid
save_key_row k t =
    if has_kid k.kid t.keys then (err db_error, t) else (ok tt, record t { keys = k ∷ t.keys })
