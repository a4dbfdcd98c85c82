-- ===== src/Messaging/Members.antt =====
-- What kicking and leaving do to the members of a room, and who hears of it.
use oma_server.Common.{
  ℕ, ◌≡◌, ◌≢◌, refl, true, false, not, ◌&&◌, String, List, [], ◌∷◌, ◌==◌, ok, arith, inl, inr,
  Result-cases, none, is_empty, if◌then◌else◌,
}
use oma_server.Messaging.Model.{Room, is_group, without}
use oma_server.Messaging.Tables.{Membership, members_in, is_in, find_room, remove_member_rows}
use oma_server.Messaging.Cache.{get, get-invalidate}
use oma_server.Messaging.Service.{
  Chat, Event, broadcast, members_requiring, kick_member, leave_room, typing, typing_room_members,
  load_members,
}
use oma_server.Messaging.Gates.{
  members_requiring-ok, members_requiring-Untouched, contains-members_in, is_empty-contains,
}
use oma_server.Messaging.Posts.{told}

-- Removing takes one member out of one room and nobody else.
pub is_in-remove_member_rows :
    (room member r x : String) (ms : List Membership)
    → is_in r x (remove_member_rows room member ms)
      ≡ (is_in r x ms && not (r == room && x == member))
unfolding is_in remove_member_rows
is_in-remove_member_rows room member r x [] = refl
is_in-remove_member_rows room member r x (m ∷ ms) =
    ground (arith, is_in-remove_member_rows room member r x ms)

-- The state after a member was taken out of a room by somebody who may.
pub record Kicks (s t : Chat) (actor room target : String) (r : Room) : Type 0 where
  pub found : find_room room s.db.tables.rooms ≡ ok r
  pub group : is_group r.type ≡ true
  pub by_creator : r.created_by ≡ actor
  pub of_other : target ≢ actor
  pub was_in : is_in room target s.db.tables.memberships ≡ true
  pub members :
      (q x : String)
      → is_in q x t.db.tables.memberships
        ≡ (is_in q x s.db.tables.memberships && not (q == room && x == target))
  pub forgotten : (now : ℕ) → get now room t.cache ≡ none
  pub broadcasted :
      t.outbox ≡ told s (members_in room s.db.tables.memberships) (Event.member_left room target)

-- A kick that succeeds was made by the creator of a group room against another member of it; then
-- the target is out of the room, everybody else is in the rooms as before, the typing cache has
-- forgotten the room, and all who were members, the target too, are told.
pub kick_member-Kicks :
    (actor room target : String) (s : Chat)
    → (kick_member actor room target s).0 ≡ ok tt
    → (r : Room) × Kicks s (kick_member actor room target s).1 actor room target r
unfolding kick_member broadcast
kick_member-Kicks actor room target s h = elim (Result-cases (find_room room s.db.tables.rooms)) [
  | inl (r, k) ↦ (
    r,
    record {
      found = k;
      group = ground arith;
      by_creator = ground arith;
      of_other = ground arith;
      was_in = ground arith;
      members =
          λ q x. ground (arith, is_in-remove_member_rows room target q x s.db.tables.memberships);
      forgotten = λ now. ground (arith, get-invalidate now room room s.cache);
      broadcasted = ground (
        arith,
        contains-members_in room s.db.tables.memberships target,
        is_empty-contains (members_in room s.db.tables.memberships) target,
      );
    },
  )
  | inr (x, k) ↦ absurd (ground arith)
]

-- Nobody who is out of the table and of the cache types into the room.
typing_outside :
    (now : ℕ) (x room state : String) (s : Chat)
    → get now room s.cache ≡ none
    → is_in room x s.db.tables.memberships ≡ false
    → (typing now x room state s).0 ≢ ok tt
unfolding typing typing_room_members load_members
typing_outside now x room state s g o h =
    ground (arith, contains-members_in room s.db.tables.memberships x)

-- A member who was kicked out cannot send typing signals to the room any more, at no time.
pub kick_member-silences :
    (actor room target state : String) (now : ℕ) (s : Chat)
    → (kick_member actor room target s).0 ≡ ok tt
    → (typing now target room state (kick_member actor room target s).1).0 ≢ ok tt
kick_member-silences actor room target state now s h =
    let k = (kick_member-Kicks actor room target s h).1 in
    typing_outside now target room state _ (k.forgotten now)
      (let m = k.members room target in ground arith)

-- The state after a member left a room.
pub record Leaves (s t : Chat) (actor room : String) (r : Room) : Type 0 where
  pub found : find_room room s.db.tables.rooms ≡ ok r
  pub group : is_group r.type ≡ true
  pub was_in : is_in room actor s.db.tables.memberships ≡ true
  pub members :
      (q x : String)
      → is_in q x t.db.tables.memberships
        ≡ (is_in q x s.db.tables.memberships && not (q == room && x == actor))
  pub forgotten : (now : ℕ) → get now room t.cache ≡ none
  pub heard : t.outbox ≡ (
      if is_empty (without actor (members_in room s.db.tables.memberships))
      then s.outbox
      else told s
          (without actor (members_in room s.db.tables.memberships))
          (Event.member_left room actor))

-- A member who has left was a member of a group room; then the member is out of it, everybody else
-- is in the rooms as before, the typing cache has forgotten the room, and the other members are
-- told, if there are any.
pub leave_room-Leaves :
    (actor room : String) (s : Chat)
    → (leave_room actor room s).0 ≡ ok tt
    → (r : Room) × Leaves s (leave_room actor room s).1 actor room r
unfolding leave_room broadcast
leave_room-Leaves actor room s h = elim (Result-cases (members_requiring room actor s).0) [
  | inl (ms, k) ↦
      let g = members_requiring-ok room actor s ms k in
      let g0 = g.0 in
      let g1 = g.1 in
      let u = members_requiring-Untouched room actor s in
      let ut = u.tables in
      let uo = u.outbox in
      elim (Result-cases (find_room room s.db.tables.rooms)) [
        | inl (r, f) ↦ (
          r,
          record {
            found = f;
            group = ground arith;
            was_in = g1;
            members = λ q x.
                ground (arith, is_in-remove_member_rows room actor q x s.db.tables.memberships);
            heard = ground arith;
            forgotten = λ now.
                ground
                  (arith, get-invalidate now room room (members_requiring room actor s).1.cache);
          },
        )
        | inr (x, f) ↦ absurd (ground arith)
      ]
  | inr (x, k) ↦ absurd (ground arith)
]
