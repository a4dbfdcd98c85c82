-- ===== src/Project/Service.antt =====
-- application/project/service.go. The clock, the fresh id, gzip, the limit of the session manager and
-- the store of contents are arguments; the store answers whether it kept a text under a key.
use Prim.Native.String.{String, ◌++◌}
use oma_server.Common.{
  ℕ, Bool, Option, none, some, if◌then◌else◌, leb, eqb, ◌==◌, Result, ok, err, ◌>>=◌, ◌>>◌, pure,
  fail, lift, query, statement,
}
use oma_server.Project.Model.{
  Project, Conversation, UpsertProjectCommand, UpsertConversationCommand, ProjectError,
  session_limit_exceeded, store_error, db_error, normalize_project, validate_project,
  normalize_conversation, validate_conversation,
}
use oma_server.Project.Tables.{
  Db, upsert_project, get_project, delete_project_row, upsert_conversation, count_by_owner,
  find_id_by_client, delete_conversation_row,
}

-- What the program around the service gives it.
pub record Surroundings : Type 0 where
  pub cut : String → String
  pub gzip : String → Option String
  pub keep : String → String → Bool
  pub max_sessions : String → Option ℕ

unfoldable pub sync_project : (String → String) → ℕ → String → UpsertProjectCommand → Db Project
sync_project cut now new_id raw = do
  let cmd = normalize_project cut raw
  lift (validate_project cmd)
  upsert_project (record {
    id = new_id;
    owner_id = cmd.owner_id;
    client_id = cmd.client_id;
    name = cmd.name;
    created_utc = now;
    updated_utc = now;
  })

unfoldable pub delete_project : String → String → Db (Unit {0})
delete_project owner_id id = statement db_error (delete_project_row owner_id id)

-- The owner has the project, where one is given.
unfoldable pub check_project : String → String → Db (Unit {0})
check_project owner_id project_id =
    if project_id == ""
    then pure tt
    else query db_error
        (λ t. elim (get_project owner_id project_id t.projects) [ err e ↦ err e | ok _ ↦ ok tt ])

-- `max > 0` and `count >= max`
unfoldable pub check_count : String → ℕ → Db (Unit {0})
check_count owner_id max =
    if leb max 0
    then pure tt
    else query db_error (λ t.
      if leb max (count_by_owner owner_id t.conversations)
      then err session_limit_exceeded
      else ok tt)

-- The cap, which is for a new conversation only.
unfoldable pub check_cap : (String → Option ℕ) → String → Option String → Db (Unit {0})
unfolding check_count
check_cap max_sessions owner_id (some _) = pure tt
check_cap max_sessions owner_id none = elim (max_sessions owner_id) [
  | none ↦ fail db_error
  | some max ↦ check_count owner_id max
]

unfoldable pub chosen_id : String → Option String → String
chosen_id new_id none = new_id
chosen_id new_id (some id) = if id == "" then new_id else id

unfoldable pub time_or : ℕ → ℕ → ℕ
time_or now t = if eqb t 0 then now else t

unfoldable pub new_conversation : ℕ → String → UpsertConversationCommand → Conversation
unfolding time_or
new_conversation now id cmd = record {
  id = id;
  project_id = cmd.project_id;
  owner_id = cmd.owner_id;
  client_id = cmd.client_id;
  title = cmd.title;
  created_utc = time_or now cmd.created_utc;
  updated_utc = time_or now cmd.updated_utc;
  message_count = cmd.message_count;
}

-- `contentKey`
unfoldable pub content_key : Conversation → String
content_key c =
    c.owner_id
    ++ "/"
    ++ (if c.project_id == "" then "_unfiled" else c.project_id)
    ++ "/"
    ++ c.id
    ++ ".json.gz"

unfoldable pub store_content : Surroundings → Conversation → String → Result ProjectError (Unit {0})
unfolding content_key
store_content env c messages = elim (env.gzip messages) [
  | none ↦ err store_error
  | some gz ↦ if env.keep (content_key c) gz then ok tt else err store_error
]

-- What is stored of a conversation that passed the tests.
unfoldable pub store_conversation :
    Surroundings → ℕ → String → UpsertConversationCommand → Db Conversation
unfolding store_content
store_conversation env now id cmd = do
  lift (store_content env (new_conversation now id cmd) cmd.messages)
  upsert_conversation (new_conversation now id cmd)

unfoldable pub admit_conversation :
    Surroundings → ℕ → String → UpsertConversationCommand → Db Conversation
unfolding check_cap store_conversation
admit_conversation env now new_id cmd = do
  found ← query db_error (λ t. ok (find_id_by_client cmd.owner_id cmd.client_id t.conversations))
  check_cap env.max_sessions cmd.owner_id found
  store_conversation env now (chosen_id new_id found) cmd

unfoldable pub sync_conversation :
    Surroundings → ℕ → String → UpsertConversationCommand → Db Conversation
unfolding check_project admit_conversation
sync_conversation env now new_id raw = do
  let cmd = normalize_conversation env.cut raw
  lift (validate_conversation cmd)
  check_project cmd.owner_id cmd.project_id
  admit_conversation env now new_id cmd

unfoldable pub delete_conversation : String → String → Db (Unit {0})
delete_conversation owner_id id = statement db_error (delete_conversation_row owner_id id)
