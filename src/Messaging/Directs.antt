-- ===== src/Messaging/Directs.antt =====
-- Direct rooms: one for each pair of members, however they are opened.
use Prim.Native.String.{len}
use text.Mathlib.TextPositions.{len-append}
use oma_server.Common.{
  ℕ, ◌≡◌, ◌≢◌, refl, false, String, List, [], ◌∷◌, ◌++◌, ◌==◌, if◌then◌else◌, Result, ok, err,
  arith, fails, str_append, trim_space, ap,
}
use oma_server.Messaging.Model.{Room, ChatError, direct_key, room_not_found}
use oma_server.Messaging.Tables.{Tables, create_room, find_direct_room, has_direct_key}
use oma_server.Messaging.Service.{
  Chat, create_direct, unless_found, insert_direct, direct_room, find_direct,
}

direct_key_ne : (a b : String) → direct_key a b ≢ ""
unfolding direct_key
direct_key_ne a b h = ground (
  arith,
  ap len h,
  len-append a (str_append ":" b),
  len-append b (str_append ":" a),
  len-append ":" a,
  len-append ":" b,
)

find_direct_room-snoc :
    (key : String) (rs : List Room) (r : Room)
    → key ≢ ""
    → has_direct_key key rs ≡ false
    → find_direct_room key (rs ++ r ∷ [])
      ≡ (if r.direct_key == key then ok r else err room_not_found)
unfolding find_direct_room has_direct_key
find_direct_room-snoc key [] r ne h = refl
find_direct_room-snoc key (x ∷ rs) r ne h = ground (arith, find_direct_room-snoc key rs r ne)

create_room-found :
    (r : Room) (ms : List String) (t : Tables)
    → r.direct_key ≢ ""
    → (create_room r ms t).0 ≡ ok tt
    → find_direct_room r.direct_key (create_room r ms t).1.rooms ≡ ok r
unfolding create_room
create_room-found r ms t ne h = ground (arith, find_direct_room-snoc r.direct_key t.rooms r ne)

insert_direct-found :
    (meanwhile : Tables → Tables) (room r : Room) (actor other : String) (s : Chat)
    → room.direct_key ≢ ""
    → (insert_direct meanwhile room actor other s).0 ≡ ok r
    → find_direct_room room.direct_key
        (insert_direct meanwhile room actor other s).1.db.tables.rooms
      ≡ ok r
unfolding insert_direct
insert_direct-found meanwhile room r actor other s ne h =
    ground (arith, create_room-found room (actor ∷ other ∷ []) (meanwhile s.db.tables) ne)

unless_found-found :
    (meanwhile : Tables → Tables) (room r : Room) (actor other : String)
    (found : Result ChatError Room) (s : Chat)
    → room.direct_key ≢ ""
    → ((x : Room) → found ≡ ok x → find_direct_room room.direct_key s.db.tables.rooms ≡ ok x)
    → (unless_found meanwhile room actor other found s).0 ≡ ok r
    → find_direct_room room.direct_key
        (unless_found meanwhile room actor other found s).1.db.tables.rooms
      ≡ ok r
unfolding unless_found
unless_found-found meanwhile room r actor other (ok x) s ne f h = ground (arith, f x refl)
unless_found-found meanwhile room r actor other (err room_not_found) s ne f h =
    insert_direct-found meanwhile room r actor other s ne h
unless_found-found meanwhile room r actor other (err e) s ne f h = cc

-- The direct room that a call returns is the one that the key of the two members then finds,
-- whether it was there, was made by the call, or was made meanwhile by somebody else.
pub create_direct-found :
    (meanwhile : Tables → Tables) (now : ℕ) (id actor raw : String) (s : Chat) (r : Room)
    → (create_direct meanwhile now id actor raw s).0 ≡ ok r
    → find_direct_room
        (direct_key actor (trim_space raw))
        (create_direct meanwhile now id actor raw s).1.db.tables.rooms
      ≡ ok r
unfolding create_direct direct_room
create_direct-found meanwhile now id actor raw s r h =
    let key = direct_key actor (trim_space raw) in
    let room = direct_room now id actor key in
    let look = find_direct key s in
    let step : create_direct meanwhile now id actor raw s
        ≡ unless_found meanwhile room actor (trim_space raw) look.0 look.1 =
      ground arith in
    rw step (
      unless_found-found meanwhile room r actor (trim_space raw) look.0 look.1
        (direct_key_ne actor (trim_space raw)) (λ x f. ground arith) (ground arith))

pub create_direct-joins :
    (meanwhile : Tables → Tables) (now : ℕ) (id actor raw : String) (s : Chat) (r : Room)
    → trim_space raw ≢ ""
    → trim_space raw ≢ actor
    → fails s.db ≡ false
    → find_direct_room (direct_key actor (trim_space raw)) s.db.tables.rooms ≡ ok r
    → ((create_direct meanwhile now id actor raw s).0 ≡ ok r)
      × ((create_direct meanwhile now id actor raw s).1.db.tables ≡ s.db.tables)
unfolding create_direct unless_found
create_direct-joins meanwhile now id actor raw s r n1 n2 q f = ground arith
