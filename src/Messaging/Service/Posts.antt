-- ===== src/Messaging/Service/Posts.antt =====
-- The calls on messages and attachments.
use oma_server.Common.{
  ℕ, Bool, false, ◌||◌, ◌&&◌, String, List, [], ◌∷◌, ◌++◌, if◌then◌else◌, ltb, eqb, ◌==◌, Result,
  ok, err, ◌>>=◌, ◌>>◌, pure, refuse, query, exec, statement, is_empty, attempt, trim_space,
  str_append,
}
use oma_server.Messaging.Model.{
  Message, Attachment, StoredAttachment, ChatError, invalid_room, message_not_found,
  attachment_empty, attachment_too_large, attachment_not_found, db_error, dedupe, filter_to_members,
  max_attachment_bytes,
}
use oma_server.Messaging.Tables.{
  Tables, find_message, save_message, update_content_rows, mark_deleted_rows,
}
use oma_server.Messaging.Service.State.{
  Call, Event, on_db, broadcast, members_of, members_requiring, own_message, msg_to_dto,
}

unfoldable pub new_message :
    ℕ → String → String → String → String → List String → List String → List Attachment → Message
new_message now new_id actor room content mentions members attachments = record {
  id = new_id;
  room_id = room;
  sender_id = actor;
  content = content;
  created_at = now;
  edited_at = 0;
  deleted_at = 0;
  mentions = filter_to_members (dedupe mentions) members;
  attachments = attachments;
}

unfoldable pub send_message :
    ℕ → String → String → String → String → List String → List Attachment → Call Message
send_message now new_id actor room raw mentions attachments = do
  refuse (trim_space raw == "" && is_empty attachments) invalid_room
  members ← members_requiring room actor
  on_db (
      statement db_error (
        save_message
          (new_message now new_id actor room (trim_space raw) mentions members attachments)))
  broadcast members (
      Event.message (
        msg_to_dto
          (new_message now new_id actor room (trim_space raw) mentions members attachments)))
  pure (new_message now new_id actor room (trim_space raw) mentions members attachments)

unfoldable pub edited : ℕ → String → Message → Message
edited now content m = record m { content = content; edited_at = now }

unfoldable pub edit_message : ℕ → String → String → String → String → Call Message
edit_message now actor room id raw = do
  refuse (trim_space raw == "") invalid_room
  own ← own_message actor room id
  refuse (ltb 0 own.0.deleted_at) message_not_found
  on_db (
      exec db_error
        (λ t. record t { messages = update_content_rows id (trim_space raw) now t.messages }))
  broadcast own.1 (Event.message_edited (msg_to_dto (edited now (trim_space raw) own.0)))
  pure (edited now (trim_space raw) own.0)

unfoldable pub deleted : ℕ → Message → Message
deleted now m = record m { content = ""; deleted_at = now }

unfoldable pub erase_message : ℕ → String → Message → List String → Call (Unit {0})
unfolding deleted
erase_message now id m members = do
  on_db (exec db_error (λ t. record t { messages = mark_deleted_rows id now t.messages }))
  broadcast members (Event.message_deleted (msg_to_dto (deleted now m)))

unfoldable pub delete_message : ℕ → String → String → String → Call (Unit {0})
unfolding erase_message
delete_message now actor room id = do
  own ← own_message actor room id
  if ltb 0 own.0.deleted_at then pure tt else erase_message now id own.0 own.1

-- No membership is asked for here: the admin console decides who may call. A failure to read the
-- members costs the broadcast alone.
unfoldable pub admin_erase : ℕ → String → Message → Call (Unit {0})
unfolding deleted
admin_erase now id m = do
  on_db (exec db_error (λ t. record t { messages = mark_deleted_rows id now t.messages }))
  members ← attempt (members_of m.room_id)
  elim members [
    | err _ ↦ pure tt
    | ok ms ↦ broadcast ms (Event.message_deleted (msg_to_dto (deleted now m)))
  ]

unfoldable pub admin_delete_message : ℕ → String → Call (Unit {0})
unfolding admin_erase
admin_delete_message now id = do
  m ← on_db (query db_error (λ t. find_message id t.messages))
  if ltb 0 m.deleted_at then pure tt else admin_erase now id m

or_default : String → String → String
or_default s d = if s == "" then d else s

unfoldable pub stored : ℕ → String → String → String → String → ℕ → StoredAttachment
unfolding or_default
stored now new_id uploader file_name content_type size = record {
  id = new_id;
  file_name = or_default (trim_space file_name) "file";
  content_type = or_default content_type "application/octet-stream";
  size_bytes = size;
  uploader_id = uploader;
  created_at = now;
}

unfoldable pub has_attachment : String → List StoredAttachment → Bool
has_attachment id [] = false
has_attachment id (a ∷ rest) = a.id == id || has_attachment id rest

-- `Put`, of the metadata: the id is a primary key.
unfoldable pub put_attachment : StoredAttachment → Tables → Result ChatError (Unit {0}) × Tables
put_attachment a t =
    if has_attachment a.id t.attachments
    then (err db_error, t)
    else (ok tt, record t { attachments = t.attachments ++ a ∷ [] })

unfoldable pub link : StoredAttachment → Attachment
link a = record {
  id = a.id;
  file_name = a.file_name;
  content_type = a.content_type;
  size_bytes = a.size_bytes;
  url = str_append "/api/v1/chat/attachments/" a.id;
}

-- The bytes count by their number only.
unfoldable pub upload_attachment : ℕ → String → String → String → String → ℕ → Call Attachment
upload_attachment now new_id uploader file_name content_type size = do
  refuse (eqb size 0) attachment_empty
  refuse (ltb max_attachment_bytes size) attachment_too_large
  on_db
      (statement db_error (put_attachment (stored now new_id uploader file_name content_type size)))
  pure (link (stored now new_id uploader file_name content_type size))

find_attachment : String → List StoredAttachment → Result ChatError StoredAttachment
find_attachment id [] = err attachment_not_found
find_attachment id (a ∷ rest) = if a.id == id then ok a else find_attachment id rest

unfoldable pub download_attachment : String → Call StoredAttachment
unfolding find_attachment
download_attachment id = on_db (query db_error (λ t. find_attachment id t.attachments))
