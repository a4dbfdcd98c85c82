-- ===== src/Messaging/Service/State.antt =====
-- The state and the helpers that the calls share: `broadcast`, `membersRequiring`, `requireMember`,
-- `ownMessage` and `typingRoomMembers` of application/messaging/service.go.
use oma_server.Common.{
  ℕ, Bool, String, List, [], ◌∷◌, ◌++◌, Option, none, some, if◌then◌else◌, ltb, ◌==◌, contains, ok,
  Action, World, ◌>>=◌, ◌>>◌, pure, require, query, is_empty,
}
use oma_server.Messaging.Model.{
  Room, Message, Attachment, ChatError, not_member, not_sender, message_not_found, db_error,
}
use oma_server.Messaging.Tables.{Tables, members_in, is_in, find_message, find_room}
use oma_server.Messaging.Cache.{Cache, get, put}
use oma_server.Messaging.Hub.{Hub}

-- `messageDTO`
pub record MessageDto : Type 0 where
  pub id : String
  pub room_id : String
  pub sender_id : String
  pub content : String
  pub created_at : ℕ
  pub edited_at : ℕ
  pub deleted : Bool
  pub mentions : List String
  pub attachments : List Attachment

unfoldable pub msg_to_dto : Message → MessageDto
msg_to_dto m = record {
  id = m.id;
  room_id = m.room_id;
  sender_id = m.sender_id;
  content = m.content;
  created_at = m.created_at;
  edited_at = m.edited_at;
  deleted = ltb 0 m.deleted_at;
  mentions = m.mentions;
  attachments = m.attachments;
}

-- `outboundEvent`, with a constructor for each `Type`.
pub data Event : Type 0 where
  message message_edited message_deleted : MessageDto → Event
  read : String → String → ℕ → Event
  typing_start typing_stop : String → String → Event
  member_joined member_left : String → String → Event
  presence : String → Bool → Event

pub record Delivery : Type 0 where
  pub targets : List String
  pub event : Event

pub record Chat : Type 0 where
  pub db : World Tables
  pub cache : Cache
  pub hub : Hub Event
  pub outbox : List Delivery

abbrev pub Call : Type 0 → Type 0
Call A = Action Chat ChatError A

abbrev pub on_db : {A : Type 0} → Action (World Tables) ChatError A → Call A
on_db m s = let (r, w) = m s.db in (r, record s { db = w })

abbrev pub on_cache : (Cache → Cache) → Call (Unit {0})
on_cache f s = (ok tt, record s { cache = f s.cache })

abbrev pub on_hub : (Hub Event → Hub Event × Bool) → Call Bool
on_hub f s = let (h, b) = f s.hub in (ok b, record s { hub = h })

-- Nothing is sent to nobody.
unfoldable pub broadcast : List String → Event → Call (Unit {0})
broadcast targets event s = (
  ok tt,
  if is_empty targets
      then s
      else record s { outbox = s.outbox ++ record { targets = targets; event = event } ∷ [] },
)

-- One event for each of the members, all to the same targets.
unfoldable pub broadcast_each : List String → (String → Event) → List String → Call (Unit {0})
broadcast_each targets event [] = pure tt
broadcast_each targets event (m ∷ ms) =
    let others = broadcast_each targets event ms in do broadcast targets (event m); others

abbrev pub members_of : String → Call (List String)
members_of room = on_db (query db_error (λ t. ok (members_in room t.memberships)))

abbrev pub get_room : String → Call Room
get_room room = on_db (query db_error (λ t. find_room room t.rooms))

unfoldable pub require_member : String → String → Call (Unit {0})
require_member room member = do
  there ← on_db (query db_error (λ t. ok (is_in room member t.memberships)))
  require there not_member

unfoldable pub members_requiring : String → String → Call (List String)
members_requiring room actor = do
  members ← members_of room
  require (contains members actor) not_member
  pure members

unfoldable pub own_message : String → String → String → Call (Message × List String)
own_message actor room id = do
  msg ← on_db (query db_error (λ t. find_message id t.messages))
  require (msg.room_id == room) message_not_found
  members ← members_requiring room actor
  require (msg.sender_id == actor) not_sender
  pure (msg, members)

-- The cache first, then the table.
unfoldable pub load_members : ℕ → String → Option (List String) → Call (List String)
load_members now room (some members) = pure members
load_members now room none = do
  members ← members_of room
  on_cache (put now room members)
  pure members

unfoldable pub typing_room_members : ℕ → String → Call (List String)
unfolding load_members
typing_room_members now room s = load_members now room (get now room s.cache) s
