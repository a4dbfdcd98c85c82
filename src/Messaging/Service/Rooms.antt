-- ===== src/Messaging/Service/Rooms.antt =====
-- The calls on rooms and their members.
use oma_server.Common.{
  ℕ, ◌||◌, String, List, [], ◌∷◌, ◌++◌, if◌then◌else◌, ◌==◌, contains, Result, ok, err, ◌>>=◌, ◌>>◌,
  pure, fail, require, refuse, query, exec, statement, is_empty, attempt, trim_space,
}
use oma_server.Messaging.Model.{
  RoomType, Room, ChatError, is_group, invalid_room, room_not_found, not_room_owner, not_member,
  db_error, direct_key, dedupe, without,
}
use oma_server.Messaging.Tables.{
  Tables, create_room, find_direct_room, is_in, add_member_rows, remove_member_rows,
  delete_room_rows,
}
use oma_server.Messaging.Cache.{invalidate}
use oma_server.Messaging.Service.State.{
  Call, Event, on_db, on_cache, broadcast, broadcast_each, members_of, get_room, members_requiring,
}

unfoldable pub group_room : ℕ → String → String → String → Room
group_room now new_id actor name = record {
  id = new_id;
  type = RoomType.group;
  name = name;
  direct_key = "";
  created_by = actor;
  created_at = now;
}

unfoldable pub create_group : ℕ → String → String → String → List String → Call Room
create_group now new_id actor raw_name member_ids = do
  refuse (trim_space raw_name == "") invalid_room
  refuse (is_empty (dedupe (actor ∷ member_ids))) invalid_room
  on_db (
      statement db_error (
        create_room (group_room now new_id actor (trim_space raw_name))
          (dedupe (actor ∷ member_ids))))
  pure (group_room now new_id actor (trim_space raw_name))

unfoldable pub direct_room : ℕ → String → String → String → Room
direct_room now new_id actor key = record {
  id = new_id;
  type = RoomType.direct;
  name = "";
  direct_key = key;
  created_by = actor;
  created_at = now;
}

abbrev pub find_direct : String → Call Room
find_direct key = on_db (query db_error (λ t. find_direct_room key t.rooms))

-- `meanwhile` is what other requests commit between the look-up and the insert.
unfoldable pub insert_direct : (Tables → Tables) → Room → String → String → Call Room
insert_direct meanwhile room actor other = do
  λ s. (ok tt, record s { db = record (s.db) { tables = meanwhile s.db.tables } })
  made ← attempt (on_db (statement db_error (create_room room (actor ∷ other ∷ []))))
  elim made [
    | ok _ ↦ pure room
    | err e ↦ do
      found ← attempt (find_direct room.direct_key)
      elim found [ ok existing ↦ pure existing | err _ ↦ fail e ]
  ]

-- Only a room that is not there is made.
unfoldable pub unless_found :
    (Tables → Tables) → Room → String → String → Result ChatError Room → Call Room
unfolding insert_direct
unless_found meanwhile room actor other (ok existing) = pure existing
unless_found meanwhile room actor other (err room_not_found) =
    insert_direct meanwhile room actor other
unless_found meanwhile room actor other (err e) = fail e

unfoldable pub create_direct : (Tables → Tables) → ℕ → String → String → String → Call Room
unfolding unless_found
create_direct meanwhile now new_id actor raw_other = do
  refuse (trim_space raw_other == "" || trim_space raw_other == actor) invalid_room
  found ← attempt (find_direct (direct_key actor (trim_space raw_other)))
  unless_found meanwhile (direct_room now new_id actor (direct_key actor (trim_space raw_other)))
      actor (trim_space raw_other) found

unfoldable pub kick_member : String → String → String → Call (Unit {0})
kick_member actor room target = do
  refuse (target == "" || target == actor) invalid_room
  found ← get_room room
  require (is_group found.type) invalid_room
  require (found.created_by == actor) not_room_owner
  there ← on_db (query db_error (λ t. ok (is_in room target t.memberships)))
  require there not_member
  members ← members_of room
  on_db
      (exec db_error (λ t. record t { memberships = remove_member_rows room target t.memberships }))
  on_cache (invalidate room)
  broadcast members (Event.member_left room target)

-- The new ones among those to add.
unfoldable pub newcomers : List String → List String → List String
newcomers existing [] = []
newcomers existing (m ∷ ms) =
    if contains existing m then newcomers existing ms else m ∷ newcomers existing ms

unfoldable pub add_new : ℕ → String → List String → List String → Call (List String)
add_new now room existing [] = pure existing
add_new now room existing (x ∷ xs) = do
  on_db (
      exec db_error
        (λ t. record t { memberships = add_member_rows room (x ∷ xs) now t.memberships }))
  on_cache (invalidate room)
  broadcast_each (existing ++ x ∷ xs) (λ m. Event.member_joined room m) (x ∷ xs)
  pure (existing ++ x ∷ xs)

unfoldable pub add_members : ℕ → String → String → List String → Call (List String)
add_members now actor room member_ids = do
  existing ← members_requiring room actor
  found ← get_room room
  require (is_group found.type) invalid_room
  add_new now room existing (newcomers existing (dedupe member_ids))

unfoldable pub leave_room : String → String → Call (Unit {0})
leave_room actor room = do
  members ← members_requiring room actor
  found ← get_room room
  require (is_group found.type) invalid_room
  on_db
      (exec db_error (λ t. record t { memberships = remove_member_rows room actor t.memberships }))
  on_cache (invalidate room)
  broadcast (without actor members) (Event.member_left room actor)

unfoldable pub admin_delete_room : String → Call (Unit {0})
admin_delete_room room = on_db (exec db_error (delete_room_rows room))

unfoldable pub room_members : String → String → Call (List String)
room_members actor room = members_requiring room actor
