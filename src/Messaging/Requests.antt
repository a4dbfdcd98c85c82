-- ===== src/Messaging/Requests.antt =====
-- The calls of the members on the chat as one type of requests, each with the member who makes it.
use oma_server.Common.{ℕ, String, List, ◌>>=◌, pure}
use oma_server.Messaging.Model.{Attachment}
use oma_server.Messaging.Service.{
  Call, create_group, create_direct, kick_member, add_members, leave_room, send_message,
  edit_message, delete_message, mark_read, typing,
}

pub data Request : Type 0 where
  open_group : String → String → List String → Request
  open_direct : String → String → Request
  kick : String → String → Request
  invite : String → List String → Request
  leave : String → Request
  send : String → String → String → List String → List Attachment → Request
  edit : String → String → String → Request
  erase : String → String → Request
  see : String → Request
  type : String → String → Request

abbrev discard : {A : Type 0} → Call A → Call (Unit {0})
discard m = m >>= λ _. pure tt

-- Requests are served one at a time.
unfoldable pub serve : ℕ → String → Request → Call (Unit {0})
serve now actor (open_group id name ids) = discard (create_group now id actor name ids)
serve now actor (open_direct id other) = discard (create_direct (λ t. t) now id actor other)
serve now actor (kick room target) = kick_member actor room target
serve now actor (invite room ids) = discard (add_members now actor room ids)
serve now actor (leave room) = leave_room actor room
serve now actor (send id room text mentions attachments) =
    discard (send_message now id actor room text mentions attachments)
serve now actor (edit room id text) = discard (edit_message now actor room id text)
serve now actor (erase room id) = delete_message now actor room id
serve now actor (see room) = discard (mark_read now actor room)
serve now actor (type room state) = typing now actor room state
