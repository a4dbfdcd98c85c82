-- ===== src/Provider/Single.antt =====
-- At most one provider is active, and an id stands once.
use oma_server.Common.{
  ℕ, ◌≡◌, refl, Bool, false, ◌&&◌, ◌||◌, String, [], ◌∷◌, ◌==◌, Driver, arith, inl, inr, Bool-cases,
}
use oma_server.Provider.Model.{LlmProvider, ProviderConfig}
use oma_server.Provider.Tables.{
  Table, has_id, save, update_config_rows, update_config_row, deactivate_rows, activate_rows,
  activate_row, delete_rows, delete_row,
}

unfoldable pub has_active : Table → Bool
has_active [] = false
has_active (p ∷ ps) = p.is_active || has_active ps

abbrev pub IsTable : Table → Type 0
IsTable [] = Unit {0}
IsTable (p ∷ ps) = (has_id p.id ps ≡ false) × ((p.is_active && has_active ps) ≡ false) × IsTable ps

pub save-IsTable :
    (p : LlmProvider) (t : Table) → p.is_active ≡ false → IsTable t → IsTable (save p t).1
unfolding save
save-IsTable p t h i = ground arith

has_id-update_config_rows :
    (id k : String) (c : ProviderConfig) (at : ℕ) (by : String) (t : Table)
    → has_id k (update_config_rows id c at by t) ≡ has_id k t
unfolding has_id update_config_rows
has_id-update_config_rows id k c at by [] = refl
has_id-update_config_rows id k c at by (p ∷ ps) =
    ground (arith, has_id-update_config_rows id k c at by ps)

has_active-update_config_rows :
    (id : String) (c : ProviderConfig) (at : ℕ) (by : String) (t : Table)
    → has_active (update_config_rows id c at by t) ≡ has_active t
unfolding has_active update_config_rows
has_active-update_config_rows id c at by [] = refl
has_active-update_config_rows id c at by (p ∷ ps) =
    ground (arith, has_active-update_config_rows id c at by ps)

update_config_rows-IsTable :
    (id : String) (c : ProviderConfig) (at : ℕ) (by : String) (t : Table)
    → IsTable t
    → IsTable (update_config_rows id c at by t)
unfolding update_config_rows
update_config_rows-IsTable id c at by [] i = tt
update_config_rows-IsTable id c at by (p ∷ ps) i = ground (
  arith,
  has_id-update_config_rows id p.id c at by ps,
  has_active-update_config_rows id c at by ps,
  update_config_rows-IsTable id c at by ps,
)

pub has_id-deactivate_rows :
    (k : String) (at : ℕ) (by : String) (t : Table)
    → has_id k (deactivate_rows at by t) ≡ has_id k t
unfolding has_id deactivate_rows
has_id-deactivate_rows k at by [] = refl
has_id-deactivate_rows k at by (p ∷ ps) = ground (arith, has_id-deactivate_rows k at by ps)

pub has_active-deactivate_rows :
    (at : ℕ) (by : String) (t : Table) → has_active (deactivate_rows at by t) ≡ false
unfolding has_active deactivate_rows
has_active-deactivate_rows at by [] = refl
has_active-deactivate_rows at by (p ∷ ps) = ground (arith, has_active-deactivate_rows at by ps)

deactivate_rows-IsTable :
    (at : ℕ) (by : String) (t : Table) → IsTable t → IsTable (deactivate_rows at by t)
unfolding deactivate_rows
deactivate_rows-IsTable at by [] i = tt
deactivate_rows-IsTable at by (p ∷ ps) i = ground (
  arith,
  has_id-deactivate_rows p.id at by ps,
  has_active-deactivate_rows at by ps,
  deactivate_rows-IsTable at by ps,
)

pub activate_rows_absent :
    (id : String) (at : ℕ) (by : String) (t : Table)
    → has_id id t ≡ false
    → activate_rows id at by t ≡ t
unfolding has_id activate_rows
activate_rows_absent id at by [] h = refl
activate_rows_absent id at by (p ∷ ps) h = ground (arith, activate_rows_absent id at by ps)

has_id-activate_rows :
    (id k : String) (at : ℕ) (by : String) (t : Table)
    → has_id k (activate_rows id at by t) ≡ has_id k t
unfolding has_id activate_rows
has_id-activate_rows id k at by [] = refl
has_id-activate_rows id k at by (p ∷ ps) = ground (arith, has_id-activate_rows id k at by ps)

activate_rows-IsTable :
    (id : String) (at : ℕ) (by : String) (t : Table)
    → has_active t ≡ false
    → IsTable t
    → IsTable (activate_rows id at by t)
unfolding has_active activate_rows
activate_rows-IsTable id at by [] h i = tt
activate_rows-IsTable id at by (p ∷ ps) h i = elim (Bool-cases (p.id == id)) [
  | inl e ↦ ground (
    arith,
    activate_rows_absent id at by ps,
    activate_rows_absent p.id at by ps,
    has_id-activate_rows id p.id at by ps,
    activate_rows-IsTable id at by ps,
  )
  | inr e ↦ ground (arith, has_id-activate_rows id p.id at by ps, activate_rows-IsTable id at by ps)
]

pub activate_row-IsTable :
    (id : String) (at : ℕ) (by : String) (t : Table)
    → IsTable t
    → IsTable (activate_row id at by t).1
unfolding activate_row
activate_row-IsTable id at by t i = ground (
  arith,
  has_active-deactivate_rows at by t,
  deactivate_rows-IsTable at by t,
  activate_rows-IsTable id at by (deactivate_rows at by t),
)

has_id-delete_rows :
    (id k : String) (t : Table) → has_id k t ≡ false → has_id k (delete_rows id t) ≡ false
unfolding has_id delete_rows
has_id-delete_rows id k [] h = refl
has_id-delete_rows id k (p ∷ ps) h = ground (arith, has_id-delete_rows id k ps)

has_active-delete_rows :
    (id : String) (t : Table) → has_active t ≡ false → has_active (delete_rows id t) ≡ false
unfolding has_active delete_rows
has_active-delete_rows id [] h = refl
has_active-delete_rows id (p ∷ ps) h = ground (arith, has_active-delete_rows id ps)

pub delete_rows-IsTable : (id : String) (t : Table) → IsTable t → IsTable (delete_rows id t)
unfolding delete_rows
delete_rows-IsTable id [] i = tt
delete_rows-IsTable id (p ∷ ps) i =
    ground (
      arith,
      has_id-delete_rows id p.id ps,
      has_active-delete_rows id ps,
      delete_rows-IsTable id ps,
    )

pub delete_row-IsTable : (id : String) (t : Table) → IsTable t → IsTable (delete_row id t).1
unfolding delete_row
delete_row-IsTable id t i = delete_rows-IsTable id t i

pub update_config_row-IsTable :
    (d : Driver) (id : String) (c : ProviderConfig) (at : ℕ) (by : String) (t : Table)
    → IsTable t
    → IsTable (update_config_row d id c at by t).1
unfolding update_config_row
update_config_row-IsTable d id c at by t i = update_config_rows-IsTable id c at by t i
