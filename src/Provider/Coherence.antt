-- ===== src/Provider/Coherence.antt =====
-- The cache has the active provider of the table, and an active provider that was created is the
-- one that is used, with its key in the clear.
use Prim.Native.String.{String}
use oma_server.Common.{
  ℕ, ◌≡◌, refl, subst, ◌∙◌, Bool, false, [], ◌∷◌, Option, none, some, Driver, Result, err, World,
  spent, arith, inl, inr, query, Option-cases, Result-cases,
}
use oma_server.Provider.Model.{
  LlmProvider, ProviderConfig, CreateCommand, UpdateConfigCommand, ProviderError, db_error,
  normalize_create, normalize_update, validate_create, validate_config,
}
use oma_server.Provider.Tables.{
  Table, newest_active, get_active, has_id, save, update_config_rows, update_config_row,
  same_config, is_updated, activate_row, delete_rows, delete_row, find_by_id,
}
use oma_server.Provider.Service.{
  Providers, Cipher, Gate, Adapter, create, update_config, activate, delete, test_connection,
  active_provider, load_active, get_active_adapter, encrypt_key, next_key, new_provider,
  store_config, replace_config, on_db, insert_provider,
}
use oma_server.Provider.Single.{
  IsTable, save-IsTable, update_config_row-IsTable, activate_row-IsTable, delete_row-IsTable,
}

-- What is cached is what the table has.
unfoldable pub IsFresh : Option LlmProvider → Table → Type 0
IsFresh none t = Unit {0}
IsFresh (some p) t = newest_active t ≡ some p

pub record IsCoherent (s : Providers) : Type 0 where
  pub table : IsTable s.db.tables
  pub fresh : IsFresh s.cache s.db.tables

is_updated_rows :
    (d : Driver) (id : String) (c : ProviderConfig) (at : ℕ) (by : String) (t : Table)
    → is_updated d id c at by t ≡ false
    → update_config_rows id c at by t ≡ t
unfolding is_updated update_config_rows same_config
is_updated_rows d id c at by [] h = refl
is_updated_rows Driver.sqlite id c at by (p ∷ ps) h =
    ground (arith, is_updated_rows Driver.sqlite id c at by ps)
is_updated_rows Driver.mysql id c at by (p ∷ ps) h =
    ground (arith, is_updated_rows Driver.mysql id c at by ps)

delete_rows_absent : (id : String) (t : Table) → has_id id t ≡ false → delete_rows id t ≡ t
unfolding has_id delete_rows
delete_rows_absent id [] h = refl
delete_rows_absent id (p ∷ ps) h = ground (arith, delete_rows_absent id ps)

-- A statement that writes, and the cache that is emptied where it succeeds: on an error the table is
-- as it was.
delete_row-err :
    (id : String) (t : Table) (e : ProviderError)
    → (delete_row id t).0 ≡ err e
    → (delete_row id t).1 ≡ t
unfolding delete_row
delete_row-err id t e h = ground (arith, delete_rows_absent id t)

activate_row-err :
    (id : String) (at : ℕ) (by : String) (t : Table) (e : ProviderError)
    → (activate_row id at by t).0 ≡ err e
    → (activate_row id at by t).1 ≡ t
unfolding activate_row
activate_row-err id at by t e h = ground arith

update_config_row-err :
    (d : Driver) (id : String) (c : ProviderConfig) (at : ℕ) (by : String) (t : Table)
    (e : ProviderError)
    → (update_config_row d id c at by t).0 ≡ err e
    → (update_config_row d id c at by t).1 ≡ t
unfolding update_config_row
update_config_row-err d id c at by t e h = ground (arith, is_updated_rows d id c at by t)

newest_active-save :
    (p : LlmProvider) (t : Table)
    → p.is_active ≡ false
    → newest_active (save p t).1 ≡ newest_active t
unfolding save newest_active
newest_active-save p t h = ground arith

pub delete-IsCoherent :
    (gate : Gate) (actor id : String) (s : Providers)
    → IsCoherent s
    → IsCoherent (delete gate actor id s).1
unfolding delete IsFresh
delete-IsCoherent gate actor id s i =
    let t = i.table in
    let f = i.fresh in
    elim (Result-cases (delete_row id s.db.tables).0) [
      | inl (u, k) ↦ record {
        table = ground (arith, delete_row-IsTable id s.db.tables);
        fresh = ground arith;
      }
      | inr (e, k) ↦
          let same = delete_row-err id s.db.tables e k in
          record { table = ground arith; fresh = ground arith }
    ]

pub activate-IsCoherent :
    (gate : Gate) (now : ℕ) (actor id : String) (s : Providers)
    → IsCoherent s
    → IsCoherent (activate gate now actor id s).1
unfolding activate IsFresh
activate-IsCoherent gate now actor id s i =
    let t = i.table in
    let f = i.fresh in
    elim (Result-cases (activate_row id now actor s.db.tables).0) [
      | inl (u, k) ↦ record {
        table = ground (arith, activate_row-IsTable id now actor s.db.tables);
        fresh = ground arith;
      }
      | inr (e, k) ↦
          let same = activate_row-err id now actor s.db.tables e k in
          record { table = ground arith; fresh = ground arith }
    ]

-- A new provider that is not active changes nothing of what is cached.
saved-IsCoherent :
    (p : LlmProvider) (w : World Table) (c : Option LlmProvider)
    → p.is_active ≡ false
    → IsCoherent (record { db = w; cache = c })
    → IsCoherent (record {
      db = record { tables = (save p w.tables).1; faults = spent w.faults };
      cache = c;
    })
unfolding IsFresh
saved-IsCoherent p w none h i =
    let t = i.table in record { table = ground (arith, save-IsTable p w.tables); fresh = tt }
saved-IsCoherent p w (some q) h i =
    let t = i.table in
    let f = i.fresh in
    record {
      table = ground (arith, save-IsTable p w.tables);
      fresh = newest_active-save p w.tables h ∙ f;
    }

load_active-IsCoherent : (s : Providers) → IsCoherent s → IsCoherent (active_provider s).1
unfolding active_provider load_active get_active IsFresh
load_active-IsCoherent s i =
    let t = i.table in
    let f = i.fresh in
    elim (Option-cases s.cache) [
      | inr (p, k) ↦ record { table = ground arith; fresh = ground arith }
      | inl k ↦ elim (Option-cases (newest_active s.db.tables)) [
        | inl n ↦ record { table = ground arith; fresh = ground arith }
        | inr (p, n) ↦ record { table = ground arith; fresh = ground arith }
      ]
    ]

-- The writes of `Create`, with the provider that is stored.
inserted-IsCoherent :
    (p : LlmProvider) (wanted : Bool) (now : ℕ) (actor : String) (s : Providers)
    → p.is_active ≡ false
    → IsCoherent s
    → IsCoherent (insert_provider p wanted now actor s).1
unfolding insert_provider IsFresh
inserted-IsCoherent p wanted now actor s h i =
    let t = i.table in
    let f = i.fresh in
    let stored = saved-IsCoherent p s.db s.cache h i in
    let t' = stored.table in
    let f' = stored.fresh in
    let after = (save p s.db.tables).1 in
    let active = activate_row-IsTable p.id now actor after t' in
    elim (Result-cases (activate_row p.id now actor after).0) [
      | inl (u, k) ↦ record { table = ground arith; fresh = ground arith }
      | inr (e, k) ↦
          let same = activate_row-err p.id now actor after e k in
          record { table = ground arith; fresh = ground arith }
    ]

pub create-IsCoherent :
    (lower : String → String) (c : Cipher) (gate : Gate) (now : ℕ) (new_id : String)
    (raw : CreateCommand) (s : Providers)
    → IsCoherent s
    → IsCoherent (create lower c gate now new_id raw s).1
unfolding create new_provider
create-IsCoherent lower c gate now new_id raw s i =
    let cmd = normalize_create lower raw in
    elim (Result-cases (encrypt_key c cmd.config.api_key)) [
      | inr (e, k) ↦ subst IsCoherent (ground arith) i
      | inl (enc, k) ↦
          let whole =
            inserted-IsCoherent (new_provider now new_id enc cmd) cmd.is_active now cmd.actor_id s
              refl i in
          elim (Result-cases (validate_create cmd)) [
            | inr (e, v) ↦ subst IsCoherent (ground arith) i
            | inl (u, v) ↦ elim (Option-cases (gate cmd.actor_id)) [
              | inr (e, g) ↦ subst IsCoherent (ground arith) i
              | inl g ↦ subst IsCoherent (ground arith) whole
            ]
          ]
    ]

-- Reading leaves all but the schedule of failures.
read-IsCoherent :
    {A : Type 0} (f : Table → Result ProviderError A) (s : Providers)
    → IsCoherent s
    → IsCoherent (on_db (query db_error f) s).1
unfolding IsFresh
read-IsCoherent f s i =
    let t = i.table in let h = i.fresh in record { table = ground arith; fresh = ground arith }

-- The write of `UpdateConfig`.
written-IsCoherent :
    (d : Driver) (id : String) (c : ProviderConfig) (now : ℕ) (by : String) (s : Providers)
    → IsCoherent s
    → IsCoherent (store_config d id c now by s).1
unfolding store_config IsFresh
written-IsCoherent d id c now by s i =
    let t = i.table in
    let f = i.fresh in
    elim (Result-cases (update_config_row d id c now by s.db.tables).0) [
      | inl (u, k) ↦ record {
        table = ground (arith, update_config_row-IsTable d id c now by s.db.tables);
        fresh = ground arith;
      }
      | inr (e, k) ↦
          let same = update_config_row-err d id c now by s.db.tables e k in
          record { table = ground arith; fresh = ground arith }
    ]

replaced-IsCoherent :
    (d : Driver) (id : String) (c : ProviderConfig) (now : ℕ) (by : String) (s : Providers)
    → IsCoherent s
    → IsCoherent (replace_config d id c now by s).1
unfolding replace_config
replaced-IsCoherent d id c now by s i =
    let i' = written-IsCoherent d id c now by s i in
    elim (Result-cases (store_config d id c now by s).0) [
      | inr (e, k) ↦ subst IsCoherent (ground arith) i'
      | inl (u, k) ↦
          subst IsCoherent (ground arith)
            (read-IsCoherent (find_by_id id) (store_config d id c now by s).1 i')
    ]

pub update_config-IsCoherent :
    (lower : String → String) (c : Cipher) (gate : Gate) (d : Driver) (now : ℕ)
    (raw : UpdateConfigCommand) (s : Providers)
    → IsCoherent s
    → IsCoherent (update_config lower c gate d now raw s).1
unfolding update_config
update_config-IsCoherent lower c gate d now raw s i =
    let cmd = normalize_update lower raw in
    let found = on_db (query db_error (find_by_id cmd.id)) s in
    let i' = read-IsCoherent (find_by_id cmd.id) s i in
    elim (Result-cases (validate_config cmd.config)) [
      | inr (e, v) ↦ subst IsCoherent (ground arith) i
      | inl (u, v) ↦ elim (Option-cases (gate cmd.actor_id)) [
        | inr (e, g) ↦ subst IsCoherent (ground arith) i
        | inl g ↦ elim (Result-cases found.0) [
          | inr (e, f) ↦ subst IsCoherent (ground arith) i'
          | inl (old, f) ↦ elim (Result-cases (next_key c old.config.api_key cmd.config.api_key)) [
            | inr (e, k) ↦ subst IsCoherent (ground arith) i'
            | inl (enc, k) ↦
                let config = record cmd.config { api_key = enc } in
                subst IsCoherent (ground arith)
                  (replaced-IsCoherent d cmd.id config now cmd.actor_id found.1 i')
          ]
        ]
      ]
    ]

pub test_connection-IsCoherent :
    (lower : String → String) (c : Cipher) (gate : Gate)
    (ask : Adapter → Result ProviderError (Unit {0})) (actor id : String) (s : Providers)
    → IsCoherent s
    → IsCoherent (test_connection lower c gate ask actor id s).1
unfolding test_connection
test_connection-IsCoherent lower c gate ask actor id s i =
    let i' = read-IsCoherent (find_by_id id) s i in
    elim (Option-cases (gate actor)) [
      | inr (e, g) ↦ subst IsCoherent (ground arith) i
      | inl g ↦ subst IsCoherent (ground arith) i'
    ]

pub get_active_adapter-IsCoherent :
    (lower : String → String) (c : Cipher) (s : Providers)
    → IsCoherent s
    → IsCoherent (get_active_adapter lower c s).1
unfolding get_active_adapter
get_active_adapter-IsCoherent lower c s i =
    subst IsCoherent (ground arith) (load_active-IsCoherent s i)
