-- ===== src/Messaging/Gates.antt =====
-- Who gets through: the calls on a room by somebody outside it, and the calls that fail.
use oma_server.Common.{
  ℕ, ◌≡◌, ◌≢◌, refl, true, false, String, List, [], ◌∷◌, Option, none, some, ok, err, arith,
  contains, inl, inr, Result-cases, is_empty,
}
use oma_server.Messaging.Model.{ChatError, Message}
use oma_server.Messaging.Tables.{
  Membership, members_in, is_in, find_message, create_room, save_message,
}
use oma_server.Messaging.Service.{
  Chat, create_group, create_direct, kick_member, add_members, leave_room, send_message,
  edit_message, delete_message, mark_read, typing, members_requiring, own_message, broadcast,
  typing_room_members, broadcast_each, add_new, Event,
}
use oma_server.Messaging.Requests.{Request, serve}

pub contains-members_in :
    (room : String) (ms : List Membership) (v : String)
    → contains (members_in room ms) v ≡ is_in room v ms
unfolding contains members_in is_in
contains-members_in room [] v = refl
contains-members_in room (m ∷ ms) v = ground (arith, contains-members_in room ms v)

-- What a call may not touch where it fails.
pub record Untouched (s t : Chat) : Type 0 where
  pub tables : t.db.tables ≡ s.db.tables
  pub outbox : t.outbox ≡ s.outbox
  pub hub : t.hub ≡ s.hub

pub members_requiring-Untouched :
    (room actor : String) (s : Chat) → Untouched s (members_requiring room actor s).1
unfolding members_requiring
members_requiring-Untouched room actor s = ground arith

pub members_requiring-ok :
    (room actor : String) (s : Chat) (ms : List String)
    → (members_requiring room actor s).0 ≡ ok ms
    → (ms ≡ members_in room s.db.tables.memberships)
      × (is_in room actor s.db.tables.memberships ≡ true)
unfolding members_requiring
members_requiring-ok room actor s ms h =
    ground (arith, contains-members_in room s.db.tables.memberships actor)

pub is_empty-contains : (ms : List String) (v : String) → contains ms v ≡ true → is_empty ms ≡ false
unfolding contains
is_empty-contains [] v h = cc
is_empty-contains (m ∷ ms) v h = refl

-- Who gets through finds at least oneself among the members.
pub members_requiring-inhabited :
    (room actor : String) (s : Chat) (ms : List String)
    → (members_requiring room actor s).0 ≡ ok ms
    → is_empty ms ≡ false
unfolding contains
members_requiring-inhabited room actor s ms h =
    let g = members_requiring-ok room actor s ms h in
    let g0 = g.0 in
    let g1 = g.1 in ground (arith, contains-members_in room s.db.tables.memberships actor)

pub own_message-Untouched :
    (actor room id : String) (s : Chat) → Untouched s (own_message actor room id s).1
unfolding own_message members_requiring
own_message-Untouched actor room id s = ground arith

-- What `ownMessage` vouches for.
pub record Owns (s : Chat) (actor room id : String) (m : Message) (ms : List String) : Type 0 where
  pub found : find_message id s.db.tables.messages ≡ ok m
  pub in_room : m.room_id ≡ room
  pub sent : m.sender_id ≡ actor
  pub members : ms ≡ members_in room s.db.tables.memberships
  pub inside : is_in room actor s.db.tables.memberships ≡ true

pub own_message-Owns :
    (actor room id : String) (s : Chat) (p : Message × List String)
    → (own_message actor room id s).0 ≡ ok p
    → Owns s actor room id p.0 p.1
unfolding own_message members_requiring
own_message-Owns actor room id s p h =
    ground (arith, contains-members_in room s.db.tables.memberships actor)

-- The room that a request asks membership of.
abbrev pub room_asked : Request → Option String
room_asked (Request.invite room _) = some room
room_asked (Request.leave room) = some room
room_asked (Request.send _ room _ _ _) = some room
room_asked (Request.edit room _ _) = some room
room_asked (Request.erase room _) = some room
room_asked (Request.see room) = some room
room_asked _ = none

members_requiring_outside :
    (room actor : String) (s : Chat)
    → is_in room actor s.db.tables.memberships ≡ false
    → (e : ChatError) × ((members_requiring room actor s).0 ≡ err e)
members_requiring_outside room actor s out =
    elim (Result-cases (members_requiring room actor s).0) [
      | inl (ms, k) ↦ absurd (ground (arith, members_requiring-ok room actor s ms k))
      | inr (x, k) ↦ (x, k)
    ]

own_message_outside :
    (actor room id : String) (s : Chat)
    → is_in room actor s.db.tables.memberships ≡ false
    → (e : ChatError) × ((own_message actor room id s).0 ≡ err e)
own_message_outside actor room id s out = elim (Result-cases (own_message actor room id s).0) [
  | inl (p, k) ↦
      let o = own_message-Owns actor room id s p k in absurd (let i = o.inside in ground arith)
  | inr (x, k) ↦ (x, k)
]

asked_same :
    (r room actor : String) (s : Chat)
    → some r ≡ some room
    → is_in room actor s.db.tables.memberships ≡ false
    → is_in r actor s.db.tables.memberships ≡ false
asked_same r room actor s e out = ground arith

-- Somebody who is not a member of a room neither invites to it, leaves it, writes to it, edits or
-- deletes in it, nor marks it as read.
pub serve_outsider :
    (now : ℕ) (actor : String) (q : Request) (room : String) (s : Chat)
    → room_asked q ≡ some room
    → is_in room actor s.db.tables.memberships ≡ false
    → (serve now actor q s).0 ≢ ok tt
unfolding serve add_members leave_room send_message edit_message delete_message mark_read
serve_outsider now actor (Request.invite r ids) room s e out h =
    let k = members_requiring_outside r actor s (asked_same r room actor s e out) in
    ground (arith, k.1)
serve_outsider now actor (Request.leave r) room s e out h =
    let k = members_requiring_outside r actor s (asked_same r room actor s e out) in
    ground (arith, k.1)
serve_outsider now actor (Request.send id r text mentions attachments) room s e out h =
    let k = members_requiring_outside r actor s (asked_same r room actor s e out) in
    ground (arith, k.1)
serve_outsider now actor (Request.edit r id text) room s e out h =
    let k = own_message_outside actor r id s (asked_same r room actor s e out) in
    ground (arith, k.1)
serve_outsider now actor (Request.erase r id) room s e out h =
    let k = own_message_outside actor r id s (asked_same r room actor s e out) in
    ground (arith, k.1)
serve_outsider now actor (Request.see r) room s e out h =
    let k = members_requiring_outside r actor s (asked_same r room actor s e out) in
    ground (arith, k.1)
serve_outsider now actor (Request.open_group id name ids) room s e out h = cc
serve_outsider now actor (Request.open_direct id other) room s e out h = cc
serve_outsider now actor (Request.kick r target) room s e out h = cc
serve_outsider now actor (Request.type r state) room s e out h = cc

pub broadcast_each-ok :
    (targets : List String) (event : String → Event) (ms : List String) (s : Chat)
    → (broadcast_each targets event ms s).0 ≡ ok tt
unfolding broadcast_each broadcast
broadcast_each-ok targets event [] s = refl
broadcast_each-ok targets event (m ∷ ms) s =
    let t = (broadcast targets (event m) s).1 in
    ground (arith, broadcast_each-ok targets event ms t)

add_new-Untouched :
    (now : ℕ) (room : String) (existing new : List String) (s : Chat) (e : ChatError)
    → (add_new now room existing new s).0 ≡ err e
    → Untouched s (add_new now room existing new s).1
unfolding add_new
add_new-Untouched now room existing [] s e h = cc
add_new-Untouched now room existing (x ∷ xs) s e h = grind (arith, broadcast_each-ok)

-- A request that returns an error has written nothing to the tables, told nobody and left the
-- connections alone.
pub serve-Untouched :
    (now : ℕ) (actor : String) (q : Request) (s : Chat) (e : ChatError)
    → (serve now actor q s).0 ≡ err e
    → Untouched s (serve now actor q s).1
unfolding serve create_group create_direct kick_member add_members leave_room send_message
    edit_message delete_message mark_read typing typing_room_members create_room save_message
    broadcast
serve-Untouched now actor (Request.open_group id name ids) s e h = ground arith
serve-Untouched now actor (Request.open_direct id other) s e h = ground arith
serve-Untouched now actor (Request.kick r target) s e h = ground arith
serve-Untouched now actor (Request.invite r ids) s e h =
    grind (arith, members_requiring-Untouched r actor s, add_new-Untouched)
serve-Untouched now actor (Request.leave r) s e h =
    ground (arith, members_requiring-Untouched r actor s)
serve-Untouched now actor (Request.send id r text mentions attachments) s e h =
    ground (arith, members_requiring-Untouched r actor s)
serve-Untouched now actor (Request.edit r id text) s e h =
    ground (arith, own_message-Untouched actor r id s)
serve-Untouched now actor (Request.erase r id) s e h =
    ground (arith, own_message-Untouched actor r id s)
serve-Untouched now actor (Request.see r) s e h =
    ground (arith, members_requiring-Untouched r actor s)
serve-Untouched now actor (Request.type r state) s e h = ground arith
