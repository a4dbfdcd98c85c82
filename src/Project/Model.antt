-- ===== src/Project/Model.antt =====
-- domain/project/model.go. Times are unix seconds, 0 where a command gives none.
use Prim.Native.String.{String, len}
use oma_server.Common.{ℕ, if◌then◌else◌, ltb, ◌==◌, trim_space, Result, ok, err}

pub data ProjectError : Type 0 where
  validation : String → ProjectError
  session_limit_exceeded not_found store_error db_error : ProjectError

abbrev pub max_name_len : ℕ
max_name_len = 255

-- How many conversations a project has is counted when it is read.
pub record Project : Type 0 where
  pub id : String
  pub owner_id : String
  pub client_id : String
  pub name : String
  pub created_utc : ℕ
  pub updated_utc : ℕ

pub record Conversation : Type 0 where
  pub id : String
  pub project_id : String
  pub owner_id : String
  pub client_id : String
  pub title : String
  pub created_utc : ℕ
  pub updated_utc : ℕ
  pub message_count : ℕ

pub record UpsertProjectCommand : Type 0 where
  pub owner_id : String
  pub client_id : String
  pub name : String

pub record UpsertConversationCommand : Type 0 where
  pub owner_id : String
  pub project_id : String
  pub client_id : String
  pub title : String
  pub created_utc : ℕ
  pub updated_utc : ℕ
  pub messages : String
  pub message_count : ℕ

-- `cut` is the slice of the first 255 bytes, which may end inside a character.
unfoldable pub shortened : (String → String) → String → String
shortened cut s = if ltb max_name_len (len s) then cut s else s

unfoldable pub normalize_project : (String → String) → UpsertProjectCommand → UpsertProjectCommand
unfolding shortened
normalize_project cut c = record c {
  client_id = trim_space c.client_id;
  name = shortened cut (trim_space c.name);
}

abbrev invalid : String → Result ProjectError (Unit {0})
invalid message = err (ProjectError.validation message)

unfoldable pub validate_project : UpsertProjectCommand → Result ProjectError (Unit {0})
validate_project c =
    if c.client_id == ""
    then invalid "client_id is required"
    else if c.name == ""
    then invalid "name is required"
    else ok tt

unfoldable pub normalize_conversation :
    (String → String) → UpsertConversationCommand → UpsertConversationCommand
unfolding shortened
normalize_conversation cut c = record c {
  client_id = trim_space c.client_id;
  title = shortened cut (trim_space c.title);
}

unfoldable pub validate_conversation : UpsertConversationCommand → Result ProjectError (Unit {0})
validate_conversation c =
    if c.client_id == ""
    then invalid "client_id is required"
    else if c.title == ""
    then invalid "title is required"
    else ok tt
