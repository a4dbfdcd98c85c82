-- ===== src/Messaging/Model.antt =====
-- domain/messaging/model.go, with the helpers of application/messaging/service.go on lists of ids.
-- Times are unix seconds.
use oma_server.Common.{
  ℕ, ◌*◌, Bool, true, false, String, List, [], ◌∷◌, ◌==◌, text_le, if◌then◌else◌, trim_space,
  distinct_from, keep_in, str_append,
}

pub data RoomType : Type 0 where
  group direct : RoomType

-- `RoomType` compared by `==`.
abbrev pub is_group : RoomType → Bool
is_group RoomType.group = true
is_group RoomType.direct = false

pub data ChatError : Type 0 where
  room_not_found not_member invalid_room message_not_found not_sender not_room_owner : ChatError
  attachment_not_found attachment_too_large attachment_empty db_error : ChatError

abbrev pub max_attachment_bytes : ℕ
max_attachment_bytes = 10 * 1048576

pub record Room : Type 0 where
  pub id : String
  pub type : RoomType
  pub name : String
  pub direct_key : String
  pub created_by : String
  pub created_at : ℕ

pub record Attachment : Type 0 where
  pub id : String
  pub file_name : String
  pub content_type : String
  pub size_bytes : ℕ
  pub url : String

pub record StoredAttachment : Type 0 where
  pub id : String
  pub file_name : String
  pub content_type : String
  pub size_bytes : ℕ
  pub uploader_id : String
  pub created_at : ℕ

-- `edited_at` and `deleted_at` are 0 where nothing was edited or deleted.
pub record Message : Type 0 where
  pub id : String
  pub room_id : String
  pub sender_id : String
  pub content : String
  pub created_at : ℕ
  pub edited_at : ℕ
  pub deleted_at : ℕ
  pub mentions : List String
  pub attachments : List Attachment

pub record ReadState : Type 0 where
  pub member_id : String
  pub last_read_at : ℕ

-- `func DirectKey(a, b string) string`
unfoldable pub direct_key : String → String → String
direct_key a b =
    if text_le a b then str_append a (str_append ":" b) else str_append b (str_append ":" a)

unfoldable pub trimmed : List String → List String
trimmed [] = []
trimmed (v ∷ vs) = let t = trim_space v in if t == "" then trimmed vs else t ∷ trimmed vs

-- `dedupe`: each item trimmed, the empty ones and the repeated ones left out.
unfoldable pub dedupe : List String → List String
unfolding trimmed
dedupe vs = distinct_from [] (trimmed vs)

-- `filterToMembers`
unfoldable pub filter_to_members : List String → List String → List String
filter_to_members ids members = keep_in members ids

-- `for _, m := range members { if m != actorID { … append } }`
unfoldable pub without : String → List String → List String
without actor [] = []
without actor (m ∷ ms) = if m == actor then without actor ms else m ∷ without actor ms
