-- ===== src/Messaging/Service/Signals.antt =====
-- The calls on what is read, typed and online.
use oma_server.Common.{
  ℕ, Bool, true, false, not, String, List, [], ◌∷◌, none, some, if◌then◌else◌, ◌==◌, contains,
  Result, ok, err, ◌>>=◌, ◌>>◌, pure, require, query, exec, attempt, Map, lookup,
}
use oma_server.Messaging.Model.{ChatError, ReadState, not_member, db_error, without}
use oma_server.Messaging.Tables.{mark_read_rows, read_states_in, co_members}
use oma_server.Messaging.Hub.{Client, register, unregister, online_among}
use oma_server.Messaging.Service.State.{
  Call, Event, on_db, on_hub, broadcast, require_member, members_requiring, typing_room_members,
}

unfoldable pub mark_read : ℕ → String → String → Call ℕ
mark_read now actor room = do
  members ← members_requiring room actor
  on_db
      (exec db_error (λ t. record t { memberships = mark_read_rows room actor now t.memberships }))
  broadcast members (Event.read room actor now)
  pure now

unfoldable pub typing_event : String → String → String → Event
typing_event state room actor =
    if not (state == "stop") then Event.typing_start room actor else Event.typing_stop room actor

-- `now` is the clock of the cache.
unfoldable pub typing : ℕ → String → String → String → Call (Unit {0})
unfolding typing_event
typing now actor room state = do
  members ← typing_room_members now room
  require (contains members actor) not_member
  broadcast (without actor members) (typing_event state room actor)

unfoldable pub read_states : String → String → Call (List ReadState)
read_states actor room = do
  require_member room actor
  on_db (query db_error (λ t. ok (read_states_in room t.memberships)))

-- A failure to read the co-members costs the event alone.
unfoldable pub broadcast_presence : String → Bool → Call (Unit {0})
broadcast_presence member online = do
  targets ← attempt (on_db (query db_error (λ t. ok (co_members member t.memberships))))
  elim targets [ err _ ↦ pure tt | ok ids ↦ broadcast ids (Event.presence member online) ]

-- `pointer` is the address of the new client.
unfoldable pub connect : ℕ → String → Call (Client Event)
connect pointer member = do
  first ← on_hub (register (record { pointer = pointer; member_id = member; queue = [] }))
  if first then broadcast_presence member true else pure tt
  pure (record { pointer = pointer; member_id = member; queue = [] })

unfoldable pub disconnect : Client Event → Call (Unit {0})
disconnect c = do
  last ← on_hub (unregister c)
  if last then broadcast_presence c.member_id false else pure tt

unfoldable pub room_presence : String → String → Call (List String)
room_presence actor room = do
  members ← members_requiring room actor
  λ s. (ok (online_among members s.hub), s)

pub record MemberInfo : Type 0 where
  pub id : String
  pub username : String
  pub display_name : String

-- An id that the directory does not know keeps its place, without names.
unfoldable pub detail : Map MemberInfo → List String → List MemberInfo
detail names [] = []
detail names (id ∷ ids) =
    (elim (lookup id names) [
      | some info ↦ info
      | none ↦ record { id = id; username = ""; display_name = "" }
    ])
    ∷ detail names ids

-- The port `MemberDirectory`: the names for the ids, or an error.
unfoldable pub room_members_detail :
    (List String → Result ChatError (Map MemberInfo)) → String → String → Call (List MemberInfo)
room_members_detail directory actor room = do
  ids ← members_requiring room actor
  names ← λ s. (directory ids, s)
  pure (detail names ids)
