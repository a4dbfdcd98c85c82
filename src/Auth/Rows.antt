-- ===== src/Auth/Rows.antt =====
-- The members table under its operations: keys stay unique, and rows that are not aimed at stay
-- as they are.
use oma_server.Common.{
  ℕ, ◌<◌, ◌≡◌, ◌≢◌, refl, Bool, false, List, [], ◌∷◌, some, String, if◌then◌else◌, leb, ◌==◌, subst,
  text_dec, ok, arith,
}
use oma_server.Auth.Role.{level_for_role_id}
use oma_server.Auth.Member.{Member}
use oma_server.Auth.Store.{
  MemberRow, Table, join, query_one, has_id, has_username, insert_row, update_rows, delete_rows,
  scan_member,
}

-- No two rows share an id.
abbrev pub IdsDistinct : Table → Type 0
IdsDistinct [] = Unit {0}
IdsDistinct (r ∷ t) = (has_id r.id t ≡ false) × IdsDistinct t

-- No two rows share a name.
abbrev pub NamesDistinct : Table → Type 0
NamesDistinct [] = Unit {0}
NamesDistinct (r ∷ t) = (has_username r.username t ≡ false) × NamesDistinct t

pub record IsValid (t : Table) : Type 0 where
  pub ids : IdsDistinct t
  pub names : NamesDistinct t

abbrev pub by_id : String → MemberRow → Bool
by_id id r = r.id == id

abbrev pub level_of_row : MemberRow → ℕ
level_of_row r = level_for_role_id r.role_id

join-level : (r : MemberRow) (m : Member) → join r ≡ some m → m.role.level ≡ level_of_row r
unfolding join level_for_role_id scan_member
join-level r m h = ground arith

pub query_one-absent :
    (id : String) (t : Table) (m : Member) → has_id id t ≡ false → query_one (by_id id) t ≢ ok m
unfolding query_one has_id
query_one-absent id [] m h e = cc
query_one-absent id (r ∷ t) m h e = ground (arith, query_one-absent id t m)

-- Each row with the id has a level below k.
abbrev pub LowRows : ℕ → String → Table → Type 0
LowRows k id [] = Unit {0}
LowRows k id (r ∷ t) = (r.id ≡ id → level_of_row r < k) × LowRows k id t

LowRows-absent : (k : ℕ) (id : String) (t : Table) → has_id id t ≡ false → LowRows k id t
unfolding has_id
LowRows-absent k id [] h = tt
LowRows-absent k id (r ∷ t) h = (λ e. ground arith, LowRows-absent k id t (ground arith))

-- What the look-up by id says of the one row with that id.
pub query_one-LowRows :
    (k : ℕ) (id : String) (t : Table) {m : Member}
    → IdsDistinct t
    → query_one (by_id id) t ≡ ok m
    → m.role.level < k
    → LowRows k id t
unfolding query_one
query_one-LowRows k id [] d h low = tt
query_one-LowRows k id (r ∷ t) {m} d h low = (
  λ e. ground (arith, query_one-absent id t m, join-level r m),
  elim (text_dec r.id id) [
    | yes e ↦ LowRows-absent k id t (subst (λ x. has_id x t ≡ false) e d.0)
    | no ne ↦ query_one-LowRows k id t {m = m} d.1 (ground arith) low
  ],
)

-- The rows at level k or above, with what a command might take from them.
unfoldable pub standing : ℕ → Table → List (String × ℕ × Bool)
standing k [] = []
standing k (r ∷ t) =
    if leb k (level_of_row r) then (r.id, r.role_id, r.active) ∷ standing k t else standing k t

pub standing-update_rows :
    (k : ℕ) (id : String) (f : MemberRow → MemberRow) (t : Table)
    → LowRows k id t
    → ((r : MemberRow) → level_of_row (f r) < k)
    → standing k (update_rows id f t) ≡ standing k t
unfolding standing update_rows
standing-update_rows k id f [] low new = refl
standing-update_rows k id f (r ∷ t) low new =
    ground (arith, standing-update_rows k id f t low.1 new, low.0, new r)

-- An update that leaves the id, the role and the flag alone.
pub standing-update_rows_same :
    (k : ℕ) (id : String) (f : MemberRow → MemberRow) (t : Table)
    → ((r : MemberRow) → (f r).id ≡ r.id)
    → ((r : MemberRow) → (f r).role_id ≡ r.role_id)
    → ((r : MemberRow) → (f r).active ≡ r.active)
    → standing k (update_rows id f t) ≡ standing k t
unfolding standing update_rows
standing-update_rows_same k id f [] i a b = refl
standing-update_rows_same k id f (r ∷ t) i a b =
    ground (arith, standing-update_rows_same k id f t i a b, i r, a r, b r)

pub standing-delete_rows :
    (k : ℕ) (id : String) (t : Table)
    → LowRows k id t
    → standing k (delete_rows id t) ≡ standing k t
unfolding standing delete_rows
standing-delete_rows k id [] low = refl
standing-delete_rows k id (r ∷ t) low = ground (arith, standing-delete_rows k id t low.1, low.0)

pub standing-insert_row :
    (k : ℕ) (m : Member) (t : Table)
    → level_for_role_id m.role.id < k
    → standing k (insert_row m t).1 ≡ standing k t
unfolding standing insert_row
standing-insert_row k m t low = ground arith

-- Keys.
has_id-update_rows :
    (x id : String) (f : MemberRow → MemberRow) (t : Table)
    → ((r : MemberRow) → (f r).id ≡ r.id)
    → has_id x (update_rows id f t) ≡ has_id x t
unfolding has_id update_rows
has_id-update_rows x id f [] i = refl
has_id-update_rows x id f (r ∷ t) i = ground (arith, has_id-update_rows x id f t i, i r)

has_username-update_rows :
    (x id : String) (f : MemberRow → MemberRow) (t : Table)
    → ((r : MemberRow) → (f r).username ≡ r.username)
    → has_username x (update_rows id f t) ≡ has_username x t
unfolding has_username update_rows
has_username-update_rows x id f [] i = refl
has_username-update_rows x id f (r ∷ t) i = ground (arith, has_username-update_rows x id f t i, i r)

has_id-delete_rows :
    (x id : String) (t : Table) → has_id x t ≡ false → has_id x (delete_rows id t) ≡ false
unfolding has_id delete_rows
has_id-delete_rows x id [] h = refl
has_id-delete_rows x id (r ∷ t) h = ground (arith, has_id-delete_rows x id t)

has_username-delete_rows :
    (x id : String) (t : Table)
    → has_username x t ≡ false
    → has_username x (delete_rows id t) ≡ false
unfolding has_username delete_rows
has_username-delete_rows x id [] h = refl
has_username-delete_rows x id (r ∷ t) h = ground (arith, has_username-delete_rows x id t)

update_rows-IdsDistinct :
    (id : String) (f : MemberRow → MemberRow) (t : Table)
    → ((r : MemberRow) → (f r).id ≡ r.id)
    → IdsDistinct t
    → IdsDistinct (update_rows id f t)
unfolding update_rows
update_rows-IdsDistinct id f [] i d = tt
update_rows-IdsDistinct id f (r ∷ t) i d =
    (ground (arith, has_id-update_rows r.id id f t i, i r), update_rows-IdsDistinct id f t i d.1)

update_rows-NamesDistinct :
    (id : String) (f : MemberRow → MemberRow) (t : Table)
    → ((r : MemberRow) → (f r).username ≡ r.username)
    → NamesDistinct t
    → NamesDistinct (update_rows id f t)
unfolding update_rows
update_rows-NamesDistinct id f [] i d = tt
update_rows-NamesDistinct id f (r ∷ t) i d = (
  ground (arith, has_username-update_rows r.username id f t i, i r),
  update_rows-NamesDistinct id f t i d.1,
)

delete_rows-IdsDistinct : (id : String) (t : Table) → IdsDistinct t → IdsDistinct (delete_rows id t)
unfolding delete_rows
delete_rows-IdsDistinct id [] d = tt
delete_rows-IdsDistinct id (r ∷ t) d =
    ground (arith, has_id-delete_rows r.id id t d.0, delete_rows-IdsDistinct id t d.1)

delete_rows-NamesDistinct :
    (id : String) (t : Table) → NamesDistinct t → NamesDistinct (delete_rows id t)
unfolding delete_rows
delete_rows-NamesDistinct id [] d = tt
delete_rows-NamesDistinct id (r ∷ t) d =
    ground (arith, has_username-delete_rows r.username id t d.0, delete_rows-NamesDistinct id t d.1)

pub update_rows-IsValid :
    (id : String) (f : MemberRow → MemberRow) (t : Table)
    → ((r : MemberRow) → (f r).id ≡ r.id)
    → ((r : MemberRow) → (f r).username ≡ r.username)
    → IsValid t
    → IsValid (update_rows id f t)
update_rows-IsValid id f t i n v = record {
  ids = update_rows-IdsDistinct id f t i v.ids;
  names = update_rows-NamesDistinct id f t n v.names;
}

pub delete_rows-IsValid : (id : String) (t : Table) → IsValid t → IsValid (delete_rows id t)
delete_rows-IsValid id t v = record {
  ids = delete_rows-IdsDistinct id t v.ids;
  names = delete_rows-NamesDistinct id t v.names;
}

pub insert_row-IsValid : (m : Member) (t : Table) → IsValid t → IsValid (insert_row m t).1
unfolding insert_row
insert_row-IsValid m t v = ground arith

-- The row that a look-up finds carries the id.
pub query_one-id :
    (id : String) (t : Table) (m : Member) → query_one (by_id id) t ≡ ok m → m.id ≡ id
unfolding query_one join scan_member
query_one-id id [] m h = cc
query_one-id id (r ∷ t) m h = ground (arith, query_one-id id t m)

-- Its level is that of its role id.
pub query_one-level :
    (id : String) (t : Table) (m : Member)
    → query_one (by_id id) t ≡ ok m
    → m.role.level ≡ level_for_role_id m.role.id
unfolding query_one join scan_member level_for_role_id
query_one-level id [] m h = cc
query_one-level id (r ∷ t) m h = ground (arith, query_one-level id t m)
