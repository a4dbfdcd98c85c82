-- ===== src/Messaging/Reads.antt =====
-- What marking a room as read does to the read states.
use oma_server.Common.{
  ℕ, ◌≡◌, true, ◌&&◌, String, List, [], ◌∷◌, ◌==◌, if◌then◌else◌, ltb, ok, arith, inl, inr,
  Result-cases, Option, none, some,
}
use oma_server.Messaging.Tables.{Membership, members_in, is_in, mark_read_rows}
use oma_server.Messaging.Service.{Chat, Event, broadcast, members_requiring, mark_read}
use oma_server.Messaging.Gates.{
  members_requiring-ok, members_requiring-Untouched, members_requiring-inhabited,
}
use oma_server.Messaging.Posts.{told}

-- The time up to which a member has read a room.
unfoldable pub read_at : String → String → List Membership → Option ℕ
read_at room member [] = none
read_at room member (m ∷ ms) =
    if m.room_id == room && m.member_id == member
    then some m.last_read_at
    else read_at room member ms

-- The later of the time that is there and the new one.
abbrev pub moved_to : ℕ → Option ℕ → Option ℕ
moved_to at none = none
moved_to at (some t) = some (if ltb t at then at else t)

read_at-mark_read_rows :
    (room member : String) (at : ℕ) (r x : String) (ms : List Membership)
    → read_at r x (mark_read_rows room member at ms)
      ≡ (if r == room && x == member then moved_to at (read_at r x ms) else read_at r x ms)
unfolding read_at mark_read_rows
read_at-mark_read_rows room member at r x [] = ground arith
read_at-mark_read_rows room member at r x (m ∷ ms) =
    ground (arith, read_at-mark_read_rows room member at r x ms)

-- The state after a member has read a room.
pub record Reads (s t : Chat) (actor room : String) (at : ℕ) : Type 0 where
  pub inside : is_in room actor s.db.tables.memberships ≡ true
  pub times :
      (r x : String)
      → read_at r x t.db.tables.memberships ≡ (
          if r == room && x == actor
          then moved_to at (read_at r x s.db.tables.memberships)
          else read_at r x s.db.tables.memberships)
  pub broadcasted :
      t.outbox ≡ told s (members_in room s.db.tables.memberships) (Event.read room actor at)

-- A member who marks a room as read moves the own read time in that room to now or leaves it where
-- it is later; no other read time changes, and all members of the room are told.
pub mark_read-Reads :
    (now : ℕ) (actor room : String) (s : Chat) (at : ℕ)
    → (mark_read now actor room s).0 ≡ ok at
    → (at ≡ now) × Reads s (mark_read now actor room s).1 actor room now
unfolding mark_read broadcast
mark_read-Reads now actor room s at h = elim (Result-cases (members_requiring room actor s).0) [
  | inl (ms, k) ↦
      let g = members_requiring-ok room actor s ms k in
      let g0 = g.0 in
      let g1 = g.1 in
      let u = members_requiring-Untouched room actor s in
      let ut = u.tables in
      let uo = u.outbox in
      let inh = members_requiring-inhabited room actor s ms k in
      (
        ground arith,
        record {
          inside = g1;
          times = λ r x.
              ground (arith, read_at-mark_read_rows room actor now r x s.db.tables.memberships);
          broadcasted = ground arith;
        },
      )
  | inr (x, k) ↦ absurd (ground arith)
]
