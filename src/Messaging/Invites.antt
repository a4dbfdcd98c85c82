-- ===== src/Messaging/Invites.antt =====
-- What inviting does to the members of a room.
use oma_server.Common.{
  ℕ, ◌≡◌, refl, true, not, ◌&&◌, ◌||◌, String, List, [], ◌∷◌, ◌++◌, ◌==◌, if◌then◌else◌, ok, arith,
  contains, inl, inr, Result-cases, contains-append,
}
use oma_server.Messaging.Model.{Room, is_group, dedupe}
use oma_server.Messaging.Tables.{Membership, is_in, find_room, add_member_rows}
use oma_server.Messaging.Service.{
  Chat, Event, broadcast, members_requiring, add_members, add_new, newcomers, broadcast_each,
  get_room,
}
use oma_server.Messaging.Gates.{
  members_requiring-ok, members_requiring-Untouched, contains-members_in, broadcast_each-ok,
}

is_in-append :
    (r x : String) (ms : List Membership) (m : Membership)
    → is_in r x (ms ++ m ∷ []) ≡ (is_in r x ms || (m.room_id == r && m.member_id == x))
unfolding is_in
is_in-append r x [] m = ground arith
is_in-append r x (a ∷ ms) m = ground (arith, is_in-append r x ms m)

-- Adding puts the given ones into the room and moves nobody else.
is_in-add_member_rows :
    (room : String) (xs : List String) (at : ℕ) (r x : String) (ms : List Membership)
    → is_in r x (add_member_rows room xs at ms) ≡ (is_in r x ms || (r == room && contains xs x))
unfolding add_member_rows contains
is_in-add_member_rows room [] at r x ms = ground arith
is_in-add_member_rows room (y ∷ ys) at r x ms =
    let row : Membership = record {
      room_id = room;
      member_id = y;
      joined_at = at;
      last_read_at = at;
    } in
    let next = if is_in room y ms then ms else ms ++ row ∷ [] in
    ground (arith, is_in-add_member_rows room ys at r x next, is_in-append r x ms row)

contains-newcomers :
    (existing ms : List String) (v : String)
    → contains (newcomers existing ms) v ≡ (contains ms v && not (contains existing v))
unfolding newcomers contains
contains-newcomers existing [] v = refl
contains-newcomers existing (m ∷ ms) v = ground (arith, contains-newcomers existing ms v)

broadcast_each-tables :
    (targets : List String) (event : String → Event) (ms : List String) (s : Chat)
    → (broadcast_each targets event ms s).1.db.tables ≡ s.db.tables
unfolding broadcast_each broadcast
broadcast_each-tables targets event [] s = refl
broadcast_each-tables targets event (m ∷ ms) s =
    let t = (broadcast targets (event m) s).1 in
    ground (arith, broadcast_each-tables targets event ms t)

-- The state after an invitation by a member.
pub record Invites (s t : Chat) (actor room : String) (ids all : List String) (r : Room)
    : Type 0 where
  pub inside : is_in room actor s.db.tables.memberships ≡ true
  pub found : find_room room s.db.tables.rooms ≡ ok r
  pub group : is_group r.type ≡ true
  pub members :
      (q x : String)
      → is_in q x t.db.tables.memberships
        ≡ (is_in q x s.db.tables.memberships || (q == room && contains ids x))
  pub listed : (x : String) → contains all x ≡ is_in room x t.db.tables.memberships

-- The members after `add_new`, and the list it returns.
record Grown (s t : Chat) (room : String) (existing new all : List String) : Type 0 where
  pub rows :
      (q x : String)
      → is_in q x t.db.tables.memberships
        ≡ (is_in q x s.db.tables.memberships || (q == room && contains new x))
  pub result : all ≡ existing ++ new

append-nil : (xs : List String) → xs ≡ xs ++ []
append-nil [] = refl
append-nil (x ∷ xs) = ground (arith, append-nil xs)

add_new-Grown :
    (now : ℕ) (room : String) (existing new all : List String) (s : Chat)
    → (add_new now room existing new s).0 ≡ ok all
    → Grown s (add_new now room existing new s).1 room existing new all
unfolding add_new contains
add_new-Grown now room existing [] all s h = record {
  rows = λ q x. ground arith;
  result = ground (arith, append-nil existing);
}
add_new-Grown now room existing (y ∷ ys) all s h = record {
  rows = λ q x. grind (
    arith,
    broadcast_each-ok,
    broadcast_each-tables,
    is_in-add_member_rows room (y ∷ ys) now q x s.db.tables.memberships,
  );
  result = grind (arith, broadcast_each-ok);
}

-- An invitation that succeeds was made by a member of a group room; then the invited, trimmed and
-- without the blank ones, are in the room with those who were, everybody else is where they were,
-- and the ids returned are the members of the room in the table.
pub add_members-Invites :
    (now : ℕ) (actor room : String) (ids all : List String) (s : Chat)
    → (add_members now actor room ids s).0 ≡ ok all
    → (r : Room) × Invites s (add_members now actor room ids s).1 actor room (dedupe ids) all r
unfolding add_members
add_members-Invites now actor room ids all s h =
    elim (Result-cases (members_requiring room actor s).0) [
      | inl (ms, k) ↦
          let g = members_requiring-ok room actor s ms k in
          let g1 = g.1 in
          let g0 = g.0 in
          let u = members_requiring-Untouched room actor s in
          let ut = u.tables in
          let v = (get_room room (members_requiring room actor s).1).1 in
          let new = newcomers ms (dedupe ids) in
          let vt : v.db.tables ≡ s.db.tables = ground arith in
          elim (Result-cases (find_room room s.db.tables.rooms)) [
            | inl (r, f) ↦
                let step : add_members now actor room ids s ≡ add_new now room ms new v =
                  ground arith in
                let grown = add_new-Grown now room ms new all v (ground arith) in
                let res = grown.result in
                let rows : (q x : String)
                    → is_in q x (add_members now actor room ids s).1.db.tables.memberships ≡ (
                        is_in q x s.db.tables.memberships
                        || (q == room && contains (dedupe ids) x)) =
                  λ q x. ground (
                    arith,
                    grown.rows q x,
                    contains-newcomers ms (dedupe ids) x,
                    contains-members_in room s.db.tables.memberships x,
                  ) in
                (
                  r,
                  record {
                    inside = g1;
                    found = f;
                    group = ground arith;
                    members = rows;
                    listed = λ x. ground (
                      arith,
                      rows room x,
                      contains-append ms new x,
                      contains-newcomers ms (dedupe ids) x,
                      contains-members_in room s.db.tables.memberships x,
                    );
                  },
                )
            | inr (x, f) ↦ absurd (ground arith)
          ]
      | inr (x, k) ↦ absurd (ground arith)
    ]
