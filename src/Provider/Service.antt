-- ===== src/Provider/Service.antt =====
-- application/llmprovider/usecase.go, over the cache and the factory of adapter/out/llm. The clock, in
-- unix seconds, the fresh id, the gate, the cipher and the call of a provider are arguments.
use Prim.Native.String.{String}
use oma_server.Common.{
  ℕ, Bool, true, false, List, Option, none, some, if◌then◌else◌, ◌==◌, starts, Driver, Result, ok,
  err, Action, World, ◌>>=◌, ◌>>◌, pure, lift, query, statement,
}
use oma_server.Auth.Role.{AuthError}
use oma_server.Provider.Model.{
  LlmProvider, ProviderConfig, CreateCommand, UpdateConfigCommand, ProviderError, validation,
  denied, decrypt_error, unknown_type, db_error, type_local, type_external, normalize_create,
  normalize_update, validate_create, validate_config,
}
use oma_server.Provider.Tables.{
  Table, get_active, find_by_id, save, update_config_row, activate_row, delete_row, listed,
}

-- The repository's database, and the cached provider.
pub record Providers : Type 0 where
  pub db : World Table
  pub cache : Option LlmProvider

abbrev pub Call : Type 0 → Type 0
Call A = Action Providers ProviderError A

abbrev pub on_db : {A : Type 0} → Action (World Table) ProviderError A → Call A
on_db m s = let (r, w) = m s.db in (r, record s { db = w })

-- `Cache.Set` and `Cache.Invalidate`
abbrev pub set_cache : Option LlmProvider → Call (Unit {0})
set_cache c s = (ok tt, record s { cache = c })

-- The ports `Cipher` and `accessGate`.
pub record Cipher : Type 0 where
  pub encrypt : String → Option String
  pub decrypt : String → Option String

abbrev pub Gate : Type 0
Gate = String → Option AuthError

abbrev pub require_admin : Gate → String → Call (Unit {0})
require_admin gate actor_id s = (elim (gate actor_id) [ none ↦ ok tt | some e ↦ err (denied e) ], s)

-- What the factory makes: a client of one kind with its configuration.
pub data Adapter : Type 0 where
  ollama claude gemini openai : ProviderConfig → Adapter

unfoldable pub create_adapter : (String → String) → LlmProvider → Result ProviderError Adapter
create_adapter lower p =
    let model = lower p.config.model in
    if p.provider_type == type_local
    then ok (Adapter.ollama p.config)
    else if p.provider_type == type_external
    then (if starts model "claude"
        then ok (Adapter.claude p.config)
        else if starts model "gemini"
        then ok (Adapter.gemini p.config)
        else ok (Adapter.openai p.config))
    else err unknown_type

unfoldable pub encrypted : Option String → Result ProviderError String
encrypted none = err (validation "APP_ENCRYPTION_SECRET is required to store an API key")
encrypted (some enc) = ok enc

unfoldable pub encrypt_key : Cipher → String → Result ProviderError String
unfolding encrypted
encrypt_key c plain = if plain == "" then ok "" else encrypted (c.encrypt plain)

unfoldable pub decrypted : Option String → Result ProviderError String
decrypted none = err decrypt_error
decrypted (some plain) = ok plain

-- The key in the clear; an empty one is not encrypted.
unfoldable pub open_key : Cipher → String → Result ProviderError String
unfolding decrypted
open_key c key = if key == "" then ok "" else decrypted (c.decrypt key)

unfoldable pub build_adapter :
    (String → String) → Cipher → LlmProvider → Result ProviderError Adapter
unfolding open_key create_adapter
build_adapter lower c p = elim (open_key c p.config.api_key) [
  | err e ↦ err e
  | ok plain ↦ create_adapter lower (record p { config = record p.config { api_key = plain } })
]

unfoldable pub list_providers : Call (List LlmProvider)
list_providers = on_db (query db_error (λ t. ok (listed t)))

unfoldable pub get_provider : String → Call LlmProvider
get_provider id = on_db (query db_error (find_by_id id))

-- A new provider is stored as not active.
unfoldable pub new_provider : ℕ → String → String → CreateCommand → LlmProvider
new_provider now new_id enc cmd = record {
  id = new_id;
  name = cmd.name;
  is_active = false;
  provider_type = cmd.provider_type;
  config = record cmd.config { api_key = enc };
  created_at = now;
  updated_at = now;
  created_by = cmd.actor_id;
  updated_by = cmd.actor_id;
}

-- The writes of `Create`: the insertion, and the activation where it is wanted.
unfoldable pub insert_provider : LlmProvider → Bool → ℕ → String → Call LlmProvider
insert_provider p wanted now actor_id = do
  on_db (statement db_error (save p))
  if wanted
      then (do
        on_db (statement db_error (activate_row p.id now actor_id))
        set_cache none
        pure (record p { is_active = true }))
      else pure p

unfoldable pub create :
    (String → String) → Cipher → Gate → ℕ → String → CreateCommand → Call LlmProvider
unfolding encrypt_key insert_provider
create lower cipher gate now new_id raw = do
  let cmd = normalize_create lower raw
  lift (validate_create cmd)
  require_admin gate cmd.actor_id
  enc ← lift (encrypt_key cipher cmd.config.api_key)
  insert_provider (new_provider now new_id enc cmd) cmd.is_active now cmd.actor_id

-- The key that an update stores: the one there was, where none is given.
unfoldable pub next_key : Cipher → String → String → Result ProviderError String
unfolding encrypt_key
next_key c old given = if given == "" then ok old else encrypt_key c given

-- The write of `UpdateConfig`.
unfoldable pub store_config : Driver → String → ProviderConfig → ℕ → String → Call (Unit {0})
store_config driver id config now actor_id = do
  on_db (statement db_error (update_config_row driver id config now actor_id))
  set_cache none

-- What `UpdateConfig` does with the configuration that it stores.
unfoldable pub replace_config : Driver → String → ProviderConfig → ℕ → String → Call LlmProvider
unfolding store_config
replace_config driver id config now actor_id = do
  store_config driver id config now actor_id
  on_db (query db_error (find_by_id id))

unfoldable pub update_config :
    (String → String) → Cipher → Gate → Driver → ℕ → UpdateConfigCommand → Call LlmProvider
unfolding next_key replace_config
update_config lower cipher gate driver now raw = do
  let cmd = normalize_update lower raw
  lift (validate_config cmd.config)
  require_admin gate cmd.actor_id
  existing ← on_db (query db_error (find_by_id cmd.id))
  enc ← lift (next_key cipher existing.config.api_key cmd.config.api_key)
  replace_config driver cmd.id (record cmd.config { api_key = enc }) now cmd.actor_id

unfoldable pub activate : Gate → ℕ → String → String → Call (Unit {0})
activate gate now actor_id id = do
  require_admin gate actor_id
  on_db (statement db_error (activate_row id now actor_id))
  set_cache none

unfoldable pub delete : Gate → String → String → Call (Unit {0})
delete gate actor_id id = do
  require_admin gate actor_id
  on_db (statement db_error (delete_row id))
  set_cache none

-- `ask` is the call of the provider with the probe: its error, if any.
unfoldable pub test_connection :
    (String → String)
    → Cipher
    → Gate
    → (Adapter → Result ProviderError (Unit {0}))
    → String
    → String
    → Call (Unit {0})
unfolding build_adapter
test_connection lower cipher gate ask actor_id id = do
  require_admin gate actor_id
  p ← on_db (query db_error (find_by_id id))
  adapter ← lift (build_adapter lower cipher p)
  lift (ask adapter)

unfoldable pub load_active : Call LlmProvider
load_active = do p ← on_db (query db_error get_active); set_cache (some p); pure p

unfoldable pub active_provider : Call LlmProvider
unfolding load_active
active_provider s = elim s.cache [ some p ↦ (ok p, s) | none ↦ load_active s ]

unfoldable pub get_active_adapter : (String → String) → Cipher → Call Adapter
unfolding active_provider build_adapter
get_active_adapter lower cipher = do p ← active_provider; lift (build_adapter lower cipher p)
