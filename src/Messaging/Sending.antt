-- ===== src/Messaging/Sending.antt =====
-- What sending a message to a room leaves in the table and tells the room.
use oma_server.Common.{◌≡◌, true, false, ◌&&◌, String, List, [], ◌∷◌, ◌++◌, contains, IsDistinct}
use oma_server.Messaging.Model.{Message, dedupe}
use oma_server.Messaging.Tables.{members_in, is_in, has_message}
use oma_server.Messaging.Service.{Chat, Event, msg_to_dto}
use oma_server.Messaging.Posts.{told}

-- The state after a message was sent.
pub record Sends (s t : Chat) (new_id actor room text : String) (mentions : List String)
    (m : Message) : Type 0 where
  pub inside : is_in room actor s.db.tables.memberships ≡ true
  pub id : m.id ≡ new_id
  pub sender : m.sender_id ≡ actor
  pub in_room : m.room_id ≡ room
  pub content : m.content ≡ text
  pub fresh : has_message new_id s.db.tables.messages ≡ false
  pub saved : t.db.tables.messages ≡ s.db.tables.messages ++ m ∷ []
  pub mentions_distinct : IsDistinct m.mentions
  pub mentioned :
      (v : String)
      → contains m.mentions v
        ≡ (contains (dedupe mentions) v && is_in room v s.db.tables.memberships)
  pub broadcasted :
      t.outbox ≡ told s (members_in room s.db.tables.memberships) (Event.message (msg_to_dto m))
