-- ===== src/Messaging/Meetings.antt =====
-- A direct room that is there stays there, whatever the members ask for.
use oma_server.Common.{
  ℕ, ◌≡◌, ◌≢◌, refl, false, String, List, [], ◌∷◌, ◌++◌, ok, arith, fails, trim_space, inl, inr,
  Result-cases,
}
use oma_server.Messaging.Model.{Room, direct_key, dedupe}
use oma_server.Messaging.Tables.{Tables, create_room, find_direct_room, save_message}
use oma_server.Messaging.Service.{
  Chat, Event, typing, typing_room_members, load_members, broadcast, create_group, create_direct,
  kick_member, add_members, leave_room, send_message, edit_message, delete_message, mark_read,
  members_requiring, own_message, broadcast_each, add_new, unless_found, insert_direct,
  erase_message, newcomers, get_room,
}
use oma_server.Messaging.Requests.{Request, serve}
use oma_server.Messaging.Gates.{broadcast_each-ok}
use oma_server.Messaging.Keys.{direct_key_comm}
use oma_server.Messaging.Directs.{create_direct-found, create_direct-joins}

abbrev Finds : String → Room → Chat → Type 0
Finds key r s = find_direct_room key s.db.tables.rooms ≡ ok r

find_direct_room-append :
    (key : String) (rs new : List Room) (r : Room)
    → find_direct_room key rs ≡ ok r
    → find_direct_room key (rs ++ new) ≡ ok r
unfolding find_direct_room
find_direct_room-append key [] new r h = absurd (ground arith)
find_direct_room-append key (x ∷ rs) new r h = ground (arith, find_direct_room-append key rs new r)

create_room-found_still :
    (key : String) (r new : Room) (ms : List String) (t : Tables)
    → find_direct_room key t.rooms ≡ ok r
    → find_direct_room key (create_room new ms t).1.rooms ≡ ok r
unfolding create_room
create_room-found_still key r new ms t h =
    ground (arith, find_direct_room-append key t.rooms (new ∷ []) r)

typing-Finds :
    (now : ℕ) (actor room state key : String) (r : Room) (s : Chat)
    → Finds key r s
    → Finds key r (typing now actor room state s).1
unfolding typing typing_room_members load_members broadcast
typing-Finds now actor room state key r s h = ground arith

broadcast_each-db :
    (targets : List String) (event : String → Event) (ms : List String) (s : Chat)
    → (broadcast_each targets event ms s).1.db ≡ s.db
unfolding broadcast_each broadcast
broadcast_each-db targets event [] s = refl
broadcast_each-db targets event (m ∷ ms) s =
    let t = (broadcast targets (event m) s).1 in
    ground (arith, broadcast_each-db targets event ms t)

add_new-Finds :
    (now : ℕ) (room : String) (existing new : List String) (key : String) (r : Room) (s : Chat)
    → Finds key r s
    → Finds key r (add_new now room existing new s).1
unfolding add_new
add_new-Finds now room existing [] key r s h = h
add_new-Finds now room existing (x ∷ xs) key r s h =
    grind (arith, broadcast_each-ok, broadcast_each-db)

add_members-Finds :
    (now : ℕ) (actor room : String) (ids : List String) (key : String) (r : Room) (s : Chat)
    → Finds key r s
    → Finds key r (add_members now actor room ids s).1
unfolding add_members members_requiring
add_members-Finds now actor room ids key r s h =
    let s1 = (members_requiring room actor s).1 in
    let s2 = (get_room room s1).1 in
    elim (Result-cases (members_requiring room actor s).0) [
      | inr (e, k) ↦ ground arith
      | inl (existing, k) ↦ elim (Result-cases (get_room room s1).0) [
        | inr (e, g) ↦ ground arith
        | inl (found, g) ↦
            let new = newcomers existing (dedupe ids) in
            ground (arith, add_new-Finds now room existing new key r s2 (ground arith))
      ]
    ]

serve-Finds :
    (now : ℕ) (actor : String) (q : Request) (key : String) (r : Room) (s : Chat)
    → Finds key r s
    → Finds key r (serve now actor q s).1
unfolding serve create_group create_direct kick_member add_members leave_room send_message
    edit_message delete_message mark_read save_message broadcast members_requiring own_message
    unless_found insert_direct erase_message
serve-Finds now actor (Request.open_group id name ids) key r s h =
    grind (arith, create_room-found_still)
serve-Finds now actor (Request.open_direct id other) key r s h =
    grind (arith, create_room-found_still)
serve-Finds now actor (Request.kick room target) key r s h = ground arith
serve-Finds now actor (Request.invite room ids) key r s h =
    ground (arith, add_members-Finds now actor room ids key r s h)
serve-Finds now actor (Request.leave room) key r s h = ground arith
serve-Finds now actor (Request.send id room text mentions attachments) key r s h = ground arith
serve-Finds now actor (Request.edit room id text) key r s h = ground arith
serve-Finds now actor (Request.erase room id) key r s h = ground arith
serve-Finds now actor (Request.see room) key r s h = ground arith
serve-Finds now actor (Request.type room state) key r s h =
    typing-Finds now actor room state key r s h

-- Requests of members, each with its time and the member who makes it.
unfoldable pub serve_all : List (ℕ × String × Request) → Chat → Chat
serve_all [] s = s
serve_all ((now, actor, q) ∷ qs) s = serve_all qs (serve now actor q s).1

serve_all-Finds :
    (qs : List (ℕ × String × Request)) (key : String) (r : Room) (s : Chat)
    → Finds key r s
    → Finds key r (serve_all qs s)
unfolding serve_all
serve_all-Finds [] key r s h = h
serve_all-Finds ((now, actor, q) ∷ qs) key r s h =
    serve_all-Finds qs key r (serve now actor q s).1 (serve-Finds now actor q key r s h)

-- Two different members whose ids are trimmed and not empty: after one has opened the direct room,
-- also where others wrote to the tables meanwhile, and after any further requests of any members,
-- whichever of them fail, the other who opens the direct room is given the same room, where the
-- first statement does not fail, and the tables stay as they are.
pub create_direct-meets :
    (meanwhile later : Tables → Tables) (now now' : ℕ) (id id' actor other : String)
    (qs : List (ℕ × String × Request)) (s : Chat) (r : Room)
    → trim_space other ≡ other
    → trim_space actor ≡ actor
    → actor ≢ ""
    → actor ≢ other
    → (create_direct meanwhile now id actor other s).0 ≡ ok r
    → fails (serve_all qs (create_direct meanwhile now id actor other s).1).db ≡ false
    → let v = serve_all qs (create_direct meanwhile now id actor other s).1 in
      ((create_direct later now' id' other actor v).0 ≡ ok r)
      × ((create_direct later now' id' other actor v).1.db.tables ≡ v.db.tables)
create_direct-meets meanwhile later now now' id id' actor other qs s r t1 t2 ne ne' h q =
    let after = (create_direct meanwhile now id actor other s).1 in
    let found : Finds (direct_key actor other) r after =
      ground (arith, create_direct-found meanwhile now id actor other s r h) in
    create_direct-joins later now' id' other actor (serve_all qs after) r (ground arith)
      (ground arith) q
      (rw (t2, direct_key_comm other actor)
        (serve_all-Finds qs (direct_key actor other) r after found))
