-- ===== src/Messaging/Tables.antt =====
-- adapter/out/db/messaging_repository.go and the attachments of chat_attachment_store.go: the chat
-- tables under their statements. A transaction is one statement: it commits whole or not at all.
use oma_server.Common.{
  ℕ, Bool, false, not, ◌&&◌, ◌||◌, String, List, [], ◌∷◌, ◌++◌, Option, none, some, ◌==◌,
  if◌then◌else◌, ltb, eqb, contains, distinct_from, Result, ok, err,
}
use oma_server.Messaging.Model.{
  Room, Message, ReadState, StoredAttachment, ChatError, room_not_found, message_not_found,
  db_error,
}

-- A row of `chat_room_members`.
pub record Membership : Type 0 where
  pub room_id : String
  pub member_id : String
  pub joined_at : ℕ
  pub last_read_at : ℕ

pub record Tables : Type 0 where
  pub rooms : List Room
  pub memberships : List Membership
  pub messages : List Message
  pub attachments : List StoredAttachment

unfoldable pub find_room : String → List Room → Result ChatError Room
find_room id [] = err room_not_found
find_room id (r ∷ rs) = if r.id == id then ok r else find_room id rs

unfoldable pub find_direct_room : String → List Room → Result ChatError Room
find_direct_room key [] = err room_not_found
find_direct_room key (r ∷ rs) = if r.direct_key == key then ok r else find_direct_room key rs

-- `SELECT member_id … WHERE room_id=?`
unfoldable pub members_in : String → List Membership → List String
members_in room [] = []
members_in room (m ∷ ms) =
    if m.room_id == room then m.member_id ∷ members_in room ms else members_in room ms

unfoldable pub is_in : String → String → List Membership → Bool
is_in room member [] = false
is_in room member (m ∷ ms) = (m.room_id == room && m.member_id == member) || is_in room member ms

unfoldable pub has_room : String → List Room → Bool
has_room id [] = false
has_room id (r ∷ rs) = r.id == id || has_room id rs

-- A NULL key ("" here) is no value of the unique index.
unfoldable pub has_direct_key : String → List Room → Bool
has_direct_key key [] = false
has_direct_key key (r ∷ rs) = (not (key == "") && r.direct_key == key) || has_direct_key key rs

-- The rows `(room, member)` to insert, with the primary key checked one after the other.
unfoldable pub insert_members :
    String → ℕ → List String → List Membership → Option (List Membership)
unfolding is_in
insert_members room at [] ms = some ms
insert_members room at (x ∷ xs) ms =
    let row : Membership = record {
      room_id = room;
      member_id = x;
      joined_at = at;
      last_read_at = 0;
    } in
    let others = insert_members room at xs (ms ++ row ∷ []) in
    if is_in room x ms then none else others

-- `Create`
unfoldable pub create_room : Room → List String → Tables → Result ChatError (Unit {0}) × Tables
unfolding has_room has_direct_key insert_members
create_room room members t =
    if has_room room.id t.rooms || has_direct_key room.direct_key t.rooms
    then (err db_error, t)
    else elim (insert_members room.id room.created_at members t.memberships) [
      | none ↦ (err db_error, t)
      | some ms ↦ (ok tt, record t { rooms = t.rooms ++ room ∷ []; memberships = ms })
    ]

-- `MarkRead`: only forward.
unfoldable pub mark_read_rows : String → String → ℕ → List Membership → List Membership
mark_read_rows room member at [] = []
mark_read_rows room member at (m ∷ ms) =
    (if m.room_id == room && m.member_id == member && ltb m.last_read_at at
      then record m { last_read_at = at }
      else m)
    ∷ mark_read_rows room member at ms

-- `AddMembers`: who is a member already is left as they are.
unfoldable pub add_member_rows : String → List String → ℕ → List Membership → List Membership
unfolding is_in
add_member_rows room [] at ms = ms
add_member_rows room (x ∷ xs) at ms =
    let row : Membership = record {
      room_id = room;
      member_id = x;
      joined_at = at;
      last_read_at = at;
    } in
    add_member_rows room xs at (if is_in room x ms then ms else ms ++ row ∷ [])

-- `RemoveMember`
unfoldable pub remove_member_rows : String → String → List Membership → List Membership
remove_member_rows room member [] = []
remove_member_rows room member (m ∷ ms) =
    if m.room_id == room && m.member_id == member
    then remove_member_rows room member ms
    else m ∷ remove_member_rows room member ms

unfoldable pub find_message : String → List Message → Result ChatError Message
find_message id [] = err message_not_found
find_message id (m ∷ ms) = if m.id == id then ok m else find_message id ms

unfoldable pub has_message : String → List Message → Bool
has_message id [] = false
has_message id (m ∷ ms) = m.id == id || has_message id ms

-- `Save`: neither edited nor deleted at first.
unfoldable pub save_message : Message → Tables → Result ChatError (Unit {0}) × Tables
save_message m t = if has_message m.id t.messages then (err db_error, t) else (
  ok tt,
  record t { messages = t.messages ++ record m { edited_at = 0; deleted_at = 0 } ∷ [] },
)

-- `UpdateContent`: deleted messages are left alone.
unfoldable pub update_content_rows : String → String → ℕ → List Message → List Message
update_content_rows id content at [] = []
update_content_rows id content at (m ∷ ms) =
    (if m.id == id && eqb m.deleted_at 0 then record m { content = content; edited_at = at } else m)
    ∷ update_content_rows id content at ms

-- `MarkDeleted`
unfoldable pub mark_deleted_rows : String → ℕ → List Message → List Message
mark_deleted_rows id at [] = []
mark_deleted_rows id at (m ∷ ms) =
    (if m.id == id then record m { deleted_at = at; content = "" } else m)
    ∷ mark_deleted_rows id at ms

-- `DeleteRoom`
unfoldable pub drop_messages : String → List Message → List Message
drop_messages room [] = []
drop_messages room (m ∷ ms) =
    if m.room_id == room then drop_messages room ms else m ∷ drop_messages room ms

unfoldable pub drop_memberships : String → List Membership → List Membership
drop_memberships room [] = []
drop_memberships room (m ∷ ms) =
    if m.room_id == room then drop_memberships room ms else m ∷ drop_memberships room ms

unfoldable pub drop_rooms : String → List Room → List Room
drop_rooms room [] = []
drop_rooms room (r ∷ rs) = if r.id == room then drop_rooms room rs else r ∷ drop_rooms room rs

unfoldable pub delete_room_rows : String → Tables → Tables
delete_room_rows room t = record t {
  rooms = drop_rooms room t.rooms;
  memberships = drop_memberships room t.memberships;
  messages = drop_messages room t.messages;
}

-- `CoMembers`
rooms_of : String → List Membership → List String
rooms_of member [] = []
rooms_of member (m ∷ ms) =
    if m.member_id == member then m.room_id ∷ rooms_of member ms else rooms_of member ms

members_of_any : List String → List Membership → List String
members_of_any rooms [] = []
members_of_any rooms (m ∷ ms) =
    if contains rooms m.room_id
    then m.member_id ∷ members_of_any rooms ms
    else members_of_any rooms ms

unfoldable pub co_members : String → List Membership → List String
unfolding rooms_of members_of_any
co_members member ms = distinct_from [] (members_of_any (rooms_of member ms) ms)

-- `ReadStates`
unfoldable pub read_states_in : String → List Membership → List ReadState
read_states_in room [] = []
read_states_in room (m ∷ ms) =
    let state : ReadState = record { member_id = m.member_id; last_read_at = m.last_read_at } in
    if m.room_id == room then state ∷ read_states_in room ms else read_states_in room ms
