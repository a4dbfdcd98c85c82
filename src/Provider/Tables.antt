-- ===== src/Provider/Tables.antt =====
-- adapter/out/db/llmprovider_repository.go: the table under its statements. The configuration is
-- stored as JSON text and read back as it was.
use oma_server.Common.{
  ℕ, Bool, true, false, not, ◌&&◌, ◌||◌, String, List, [], ◌∷◌, Option, none, some, if◌then◌else◌,
  ltb, eqb, ◌==◌, Driver, Result, ok, err,
}
use oma_server.Provider.Model.{
  LlmProvider, ProviderConfig, ProviderError, not_found, no_active_provider, db_error,
}

abbrev pub Table : Type 0
Table = List LlmProvider

-- Of the active rows, the one updated last; of two of the same time, the first.
unfoldable pub newest_active : Table → Option LlmProvider
newest_active [] = none
newest_active (p ∷ ps) =
    let others = newest_active ps in
    if not p.is_active then others else elim others [
      | none ↦ some p
      | some q ↦ if ltb p.updated_at q.updated_at then some q else some p
    ]

-- `GetActive`
unfoldable pub get_active : Table → Result ProviderError LlmProvider
unfolding newest_active
get_active t = elim (newest_active t) [ none ↦ err no_active_provider | some p ↦ ok p ]

-- `FindByID`
unfoldable pub find_by_id : String → Table → Result ProviderError LlmProvider
find_by_id id [] = err not_found
find_by_id id (p ∷ ps) = if p.id == id then ok p else find_by_id id ps

unfoldable pub has_id : String → Table → Bool
has_id id [] = false
has_id id (p ∷ ps) = p.id == id || has_id id ps

-- `Save`
unfoldable pub save : LlmProvider → Table → Result ProviderError (Unit {0}) × Table
save p t = if has_id p.id t then (err db_error, t) else (ok tt, p ∷ t)

unfoldable pub update_config_rows : String → ProviderConfig → ℕ → String → Table → Table
update_config_rows id c at by [] = []
update_config_rows id c at by (p ∷ ps) =
    (if p.id == id then record p { config = c; updated_at = at; updated_by = by } else p)
    ∷ update_config_rows id c at by ps

unfoldable pub same_config : ProviderConfig → ProviderConfig → Bool
same_config c d =
    c.endpoint == d.endpoint
    && c.model == d.model
    && c.api_key_env == d.api_key_env
    && c.api_key == d.api_key
    && eqb c.max_tokens d.max_tokens
    && c.reasoning == d.reasoning
    && c.api_style == d.api_style
    && c.extra_params == d.extra_params

-- Whether the update leaves a row as it was, which MySQL does not count.
unfoldable pub is_updated : Driver → String → ProviderConfig → ℕ → String → Table → Bool
is_updated d id c at by [] = false
is_updated Driver.sqlite id c at by (p ∷ ps) = p.id == id || is_updated Driver.sqlite id c at by ps
is_updated Driver.mysql id c at by (p ∷ ps) =
    (p.id == id && not (same_config p.config c && eqb p.updated_at at && p.updated_by == by))
    || is_updated Driver.mysql id c at by ps

-- `UpdateConfig`
unfoldable pub update_config_row :
    Driver → String → ProviderConfig → ℕ → String → Table → Result ProviderError (Unit {0}) × Table
unfolding is_updated update_config_rows
update_config_row d id c at by t =
    (if is_updated d id c at by t then ok tt else err not_found, update_config_rows id c at by t)

unfoldable pub deactivate_rows : ℕ → String → Table → Table
deactivate_rows at by [] = []
deactivate_rows at by (p ∷ ps) =
    (if p.is_active then record p { is_active = false; updated_at = at; updated_by = by } else p)
    ∷ deactivate_rows at by ps

unfoldable pub activate_rows : String → ℕ → String → Table → Table
activate_rows id at by [] = []
activate_rows id at by (p ∷ ps) =
    (if p.id == id then record p { is_active = true; updated_at = at; updated_by = by } else p)
    ∷ activate_rows id at by ps

-- The transaction of `Activate`. Its second update changes `is_active` of the row that it finds, so
-- both databases count it.
unfoldable pub activate_row : String → ℕ → String → Table → Result ProviderError (Unit {0}) × Table
unfolding deactivate_rows activate_rows
activate_row id at by t =
    if has_id id t
    then (ok tt, activate_rows id at by (deactivate_rows at by t))
    else (err not_found, t)

unfoldable pub delete_rows : String → Table → Table
delete_rows id [] = []
delete_rows id (p ∷ ps) = let rest = delete_rows id ps in if p.id == id then rest else p ∷ rest

-- `Delete`
unfoldable pub delete_row : String → Table → Result ProviderError (Unit {0}) × Table
unfolding delete_rows
delete_row id t = (if has_id id t then ok tt else err not_found, delete_rows id t)

-- `List`: the newest first; rows of one second stand as they do in the table.
unfoldable pub place : LlmProvider → Table → Table
place p [] = p ∷ []
place p (q ∷ qs) =
    let later = q ∷ place p qs in if ltb p.created_at q.created_at then later else p ∷ q ∷ qs

unfoldable pub listed : Table → Table
unfolding place
listed [] = []
listed (p ∷ ps) = place p (listed ps)
