-- ===== src/Messaging/Tests.antt =====
-- A group room of two members with one message, and the calls on it.
use oma_server.Common.{
  ℕ, ◌≡◌, ◌≢◌, refl, false, String, List, [], ◌∷◌, ok, err, arith, contains, trim_space, text_dec,
  Bool-cases, ne_of_false, fails, spent, distinct_from,
}
use oma_server.Messaging.Model.{RoomType, Room, Message, dedupe, direct_key, not_member}
use oma_server.Messaging.Tables.{
  Tables, Membership, is_in, find_message, find_direct_room, members_in, find_room, create_room,
}
use oma_server.Messaging.Hub.Bounds.{IsHub}
use oma_server.Messaging.Service.{
  Chat, kick_member, add_members, create_direct, edit_message, delete_message, mark_read,
  direct_room, members_requiring, broadcast, add_new, newcomers, broadcast_each, own_message,
  edited,
}
use oma_server.Messaging.Requests.{Request, serve}
use oma_server.Messaging.Gates.{Untouched, serve_outsider, serve-Untouched}
use oma_server.Messaging.Posts.{Edits, edit_message-Edits, Erases, delete_message-Erases}
use oma_server.Messaging.Members.{Kicks, kick_member-Kicks}
use oma_server.Messaging.Invites.{Invites, add_members-Invites}
use oma_server.Messaging.Reads.{Reads, mark_read-Reads}
use oma_server.Messaging.Meetings.{serve_all, create_direct-meets}
use oma_server.Messaging.Typing.{IsSmall, serve-IsSmall}
use oma_server.Messaging.Presence.{Signal, react_all, history-IsHub}

abbrev lab : Room
lab = record {
  id = "lab";
  type = RoomType.group;
  name = "Lab";
  direct_key = "";
  created_by = "ada";
  created_at = 1;
}

abbrev joined : String → Membership
joined id = record { room_id = "lab"; member_id = id; joined_at = 1; last_read_at = 0 }

abbrev hello : Message
hello = record {
  id = "m1";
  room_id = "lab";
  sender_id = "ada";
  content = "hello";
  created_at = 2;
  edited_at = 0;
  deleted_at = 0;
  mentions = [];
  attachments = [];
}

abbrev tables : List Message → Tables
tables ms = record {
  rooms = lab ∷ [];
  memberships = joined "ada" ∷ joined "bob" ∷ [];
  messages = ms;
  attachments = [];
}

abbrev chat : List Message → Chat
chat ms = record {
  db = record { tables = tables ms; faults = [] };
  cache = [];
  hub = [];
  outbox = [];
}

abbrev start : Chat
start = chat (hello ∷ [])

eve_outside : is_in "lab" "eve" (joined "ada" ∷ joined "bob" ∷ []) ≡ false
unfolding is_in text_dec Bool-cases
eve_outside = refl

serve_outsider_example : (serve 5 "eve" (Request.see "lab") start).0 ≢ ok tt
serve_outsider_example = serve_outsider 5 "eve" (Request.see "lab") "lab" start refl eve_outside

eve_refused : (serve 5 "eve" (Request.see "lab") start).0 ≡ err not_member
unfolding serve mark_read members_requiring fails contains members_in text_dec Bool-cases
eve_refused = refl

serve-Untouched_example : Untouched start (serve 5 "eve" (Request.see "lab") start).1
serve-Untouched_example = serve-Untouched 5 "eve" (Request.see "lab") start not_member eve_refused

kicked : (kick_member "ada" "lab" "bob" start).0 ≡ ok tt
unfolding kick_member text_dec Bool-cases fails find_room spent is_in broadcast
kicked = refl

kick_member-Kicks_example :
    (r : Room) × Kicks start (kick_member "ada" "lab" "bob" start).1 "ada" "lab" "bob" r
kick_member-Kicks_example = kick_member-Kicks "ada" "lab" "bob" start kicked

invited : (add_members 3 "bob" "lab" ("eve" ∷ []) start).0 ≡ ok ("ada" ∷ "bob" ∷ "eve" ∷ [])
unfolding add_members members_requiring fails contains members_in text_dec Bool-cases spent
    find_room add_new newcomers dedupe distinct_from trim_space broadcast_each broadcast
invited = refl

add_members-Invites_example :
    (r : Room) × Invites start
      (add_members 3 "bob" "lab" ("eve" ∷ []) start).1
      "bob"
      "lab"
      (dedupe ("eve" ∷ []))
      ("ada" ∷ "bob" ∷ "eve" ∷ [])
      r
add_members-Invites_example =
    add_members-Invites 3 "bob" "lab" ("eve" ∷ []) ("ada" ∷ "bob" ∷ "eve" ∷ []) start invited

abbrev question : Message
question = record {
  id = "m2";
  room_id = "lab";
  sender_id = "bob";
  content = "who?";
  created_at = 4;
  edited_at = 0;
  deleted_at = 0;
  mentions = "ada" ∷ [];
  attachments = [];
}

hello_found : find_message "m1" (hello ∷ []) ≡ ok hello
unfolding find_message text_dec Bool-cases
hello_found = refl

erased : (delete_message 7 "ada" "lab" "m1" start).0 ≡ ok tt
unfolding delete_message own_message fails find_message text_dec Bool-cases members_requiring spent
    contains members_in broadcast
erased = refl

delete_message-Erases_example :
    (ms : List String) × Erases start
      (delete_message 7 "ada" "lab" "m1" start).1
      7
      "ada"
      "lab"
      "m1"
      hello
      ms
delete_message-Erases_example =
    delete_message-Erases 7 "ada" "lab" "m1" start hello hello_found refl erased

seen : (mark_read 9 "bob" "lab" start).0 ≡ ok 9
unfolding mark_read members_requiring fails contains members_in text_dec Bool-cases spent broadcast
seen = refl

abbrev revised : Message
revised = record hello { content = "bye"; edited_at = 6 }

edit_done : (edit_message 6 "ada" "lab" "m1" " bye " start).0 ≡ ok revised
unfolding edit_message text_dec Bool-cases trim_space own_message fails find_message
    members_requiring spent contains members_in broadcast edited
edit_done = refl

edit_message-Edits_example :
    (old : Message) × (ms : List String) × Edits start
      (edit_message 6 "ada" "lab" "m1" " bye " start).1
      6
      "ada"
      "lab"
      "m1"
      (trim_space " bye ")
      old
      revised
      ms
edit_message-Edits_example = edit_message-Edits 6 "ada" "lab" "m1" " bye " start revised edit_done

mark_read-Reads_example :
    (◌≡◌ {A = ℕ} 9 9) × Reads start (mark_read 9 "bob" "lab" start).1 "bob" "lab" 9
mark_read-Reads_example = mark_read-Reads 9 "bob" "lab" start 9 seen

abbrev same : Tables → Tables
same t = t

abbrev pair : Room
pair = direct_room 3 "d1" "ada" (direct_key "ada" "bob")

opened : (create_direct same 3 "d1" "ada" "bob" start).0 ≡ ok pair
unfolding create_direct text_dec Bool-cases trim_space fails find_direct_room direct_key spent
    create_room direct_room
opened = refl

bob_trimmed : trim_space "bob" ≡ "bob"
unfolding trim_space
bob_trimmed = refl

ada_trimmed : trim_space "ada" ≡ "ada"
unfolding trim_space
ada_trimmed = refl

-- One member looks into the group room in between.
abbrev asked : List (ℕ × String × Request)
asked = (5, "bob", Request.see "lab") ∷ []

still_up : fails (serve_all asked (create_direct same 3 "d1" "ada" "bob" start).1).db ≡ false
unfolding fails serve_all serve mark_read members_requiring create_direct text_dec Bool-cases
    trim_space find_direct_room direct_key spent create_room direct_room contains members_in
    broadcast
still_up = refl

create_direct-meets_example :
    let v = serve_all asked (create_direct same 3 "d1" "ada" "bob" start).1 in
    ((create_direct same 8 "d2" "bob" "ada" v).0 ≡ ok pair)
    × ((create_direct same 8 "d2" "bob" "ada" v).1.db.tables ≡ v.db.tables)
create_direct-meets_example =
    create_direct-meets same same 3 8 "d1" "d2" "ada" "bob" asked start pair bob_trimmed ada_trimmed
      (ne_of_false "ada" "" refl) (ne_of_false "ada" "bob" refl) opened still_up

start-IsSmall : IsSmall start
start-IsSmall = omega arith

serve-IsSmall_example : IsSmall (serve 5 "ada" (Request.type "lab" "start") start).1
serve-IsSmall_example = serve-IsSmall 5 "ada" (Request.type "lab" "start") start start-IsSmall

abbrev signals : List (Signal String)
signals = Signal.arrive 1 "ada" ∷ Signal.push "hi" ("ada" ∷ "bob" ∷ []) ∷ []

history-IsHub_example : IsHub (react_all signals [])
history-IsHub_example = history-IsHub signals
