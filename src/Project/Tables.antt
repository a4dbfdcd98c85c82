-- ===== src/Project/Tables.antt =====
-- project_repository.go and conversation_repository.go: the two tables under their statements.
use oma_server.Common.{
  ℕ, suc, Bool, false, ◌&&◌, ◌||◌, String, List, [], ◌∷◌, Option, none, some, if◌then◌else◌, ◌==◌,
  Result, ok, err, Action, World, ◌>>=◌, ◌>>◌, query, statement,
}
use oma_server.Project.Model.{Project, Conversation, ProjectError, not_found, db_error}

pub record Tables : Type 0 where
  pub projects : List Project
  pub conversations : List Conversation

abbrev pub Db : Type 0 → Type 0
Db A = Action (World Tables) ProjectError A

abbrev pub is_project_of : String → String → Project → Bool
is_project_of owner client p = p.owner_id == owner && p.client_id == client

unfoldable pub has_project : String → String → List Project → Bool
has_project owner client [] = false
has_project owner client (p ∷ ps) = is_project_of owner client p || has_project owner client ps

unfoldable pub has_project_id : String → List Project → Bool
has_project_id id [] = false
has_project_id id (p ∷ ps) = p.id == id || has_project_id id ps

unfoldable pub rename_rows : Project → List Project → List Project
rename_rows new [] = []
rename_rows new (p ∷ ps) =
    (if is_project_of new.owner_id new.client_id p
      then record p { name = new.name; updated_utc = new.updated_utc }
      else p)
    ∷ rename_rows new ps

-- The upsert of one row; the fresh id of a new row is not to be taken.
unfoldable pub upsert_project_row : Project → Tables → Result ProjectError (Unit {0}) × Tables
unfolding rename_rows
upsert_project_row new t =
    if has_project new.owner_id new.client_id t.projects
    then (ok tt, record t { projects = rename_rows new t.projects })
    else if has_project_id new.id t.projects
    then (err db_error, t)
    else (ok tt, record t { projects = new ∷ t.projects })

unfoldable pub find_project : String → String → List Project → Result ProjectError Project
find_project owner client [] = err db_error
find_project owner client (p ∷ ps) =
    if is_project_of owner client p then ok p else find_project owner client ps

-- `UpsertProject`, with the id and the creation that the row has.
unfoldable pub upsert_project : Project → Db Project
unfolding upsert_project_row find_project
upsert_project new = do
  statement db_error (upsert_project_row new)
  row ← query db_error (λ t. find_project new.owner_id new.client_id t.projects)
  λ w. (ok (record new { id = row.id; created_utc = row.created_utc }), w)

-- `GetProject`
unfoldable pub get_project : String → String → List Project → Result ProjectError Project
get_project owner id [] = err not_found
get_project owner id (p ∷ ps) =
    if p.owner_id == owner && p.id == id then ok p else get_project owner id ps

unfoldable pub delete_project_rows : String → String → List Project → List Project
delete_project_rows owner id [] = []
delete_project_rows owner id (p ∷ ps) =
    let rest = delete_project_rows owner id ps in
    if p.owner_id == owner && p.id == id then rest else p ∷ rest

unfoldable pub delete_filed_rows : String → String → List Conversation → List Conversation
delete_filed_rows owner id [] = []
delete_filed_rows owner id (c ∷ cs) =
    let rest = delete_filed_rows owner id cs in
    if c.owner_id == owner && c.project_id == id then rest else c ∷ rest

-- The transaction of `DeleteProject`. A conversation without project has NULL in the column, which
-- no id equals; the ids of projects are not empty.
unfoldable pub delete_project_row :
    String → String → Tables → Result ProjectError (Unit {0}) × Tables
unfolding get_project delete_project_rows delete_filed_rows
delete_project_row owner id t = elim (get_project owner id t.projects) [
  | err e ↦ (err e, t)
  | ok _ ↦ (
    ok tt,
    record {
      projects = delete_project_rows owner id t.projects;
      conversations = delete_filed_rows owner id t.conversations;
    },
  )
]

abbrev pub is_conversation_of : String → String → Conversation → Bool
is_conversation_of owner client c = c.owner_id == owner && c.client_id == client

unfoldable pub has_conversation : String → String → List Conversation → Bool
has_conversation owner client [] = false
has_conversation owner client (c ∷ cs) =
    is_conversation_of owner client c || has_conversation owner client cs

unfoldable pub has_conversation_id : String → List Conversation → Bool
has_conversation_id id [] = false
has_conversation_id id (c ∷ cs) = c.id == id || has_conversation_id id cs

unfoldable pub refile_rows : Conversation → List Conversation → List Conversation
refile_rows new [] = []
refile_rows new (c ∷ cs) =
    (if is_conversation_of new.owner_id new.client_id c
      then record c {
        project_id = new.project_id;
        title = new.title;
        updated_utc = new.updated_utc;
        message_count = new.message_count;
      }
      else c)
    ∷ refile_rows new cs

-- The upsert of one row.
unfoldable pub upsert_conversation_row :
    Conversation → Tables → Result ProjectError (Unit {0}) × Tables
unfolding refile_rows
upsert_conversation_row new t =
    if has_conversation new.owner_id new.client_id t.conversations
    then (ok tt, record t { conversations = refile_rows new t.conversations })
    else if has_conversation_id new.id t.conversations
    then (err db_error, t)
    else (ok tt, record t { conversations = new ∷ t.conversations })

unfoldable pub find_conversation : String → String → List Conversation → Option Conversation
find_conversation owner client [] = none
find_conversation owner client (c ∷ cs) =
    if is_conversation_of owner client c then some c else find_conversation owner client cs

unfoldable pub reloaded : Conversation → Option Conversation → Result ProjectError Conversation
reloaded new none = err db_error
reloaded new (some c) = ok (record new { id = c.id; created_utc = c.created_utc })

-- `UpsertConversation`, with the id and the creation that the row has.
unfoldable pub upsert_conversation : Conversation → Db Conversation
unfolding upsert_conversation_row reloaded
upsert_conversation new = do
  statement db_error (upsert_conversation_row new)
  query db_error (λ t. reloaded new (find_conversation new.owner_id new.client_id t.conversations))

-- `CountByOwner`
unfoldable pub count_by_owner : String → List Conversation → ℕ
count_by_owner owner [] = 0
count_by_owner owner (c ∷ cs) =
    let rest = count_by_owner owner cs in if c.owner_id == owner then suc rest else rest

unfoldable pub id_of : Option Conversation → Option String
id_of none = none
id_of (some c) = some c.id

-- `FindIDByClient`
unfoldable pub find_id_by_client : String → String → List Conversation → Option String
unfolding find_conversation id_of
find_id_by_client owner client cs = id_of (find_conversation owner client cs)

unfoldable pub has_owned : String → String → List Conversation → Bool
has_owned owner id [] = false
has_owned owner id (c ∷ cs) = (c.owner_id == owner && c.id == id) || has_owned owner id cs

unfoldable pub delete_conversation_rows : String → String → List Conversation → List Conversation
delete_conversation_rows owner id [] = []
delete_conversation_rows owner id (c ∷ cs) =
    let rest = delete_conversation_rows owner id cs in
    if c.owner_id == owner && c.id == id then rest else c ∷ rest

-- `DeleteConversation`
unfoldable pub delete_conversation_row :
    String → String → Tables → Result ProjectError (Unit {0}) × Tables
unfolding delete_conversation_rows
delete_conversation_row owner id t = (
  if has_owned owner id t.conversations then ok tt else err not_found,
  record t { conversations = delete_conversation_rows owner id t.conversations },
)
