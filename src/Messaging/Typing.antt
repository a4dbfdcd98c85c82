-- ===== src/Messaging/Typing.antt =====
-- Typing signals: who may send them, who hears of them, and the cache of members behind them.
use oma_server.Common.{
  ℕ, ◌≤◌, ◌≡◌, refl, true, false, String, List, [], ◌∷◌, if◌then◌else◌, ok, arith, inl, inr,
  contains, is_empty, Option-cases, none, some, length,
}
use oma_server.Messaging.Model.{without}
use oma_server.Messaging.Tables.{members_in, create_room, save_message}
use oma_server.Messaging.Cache.{get, typing_cache_max_rooms, length-put, length-invalidate}
use oma_server.Messaging.Service.{
  Chat, Event, typing, typing_room_members, load_members, typing_event, broadcast, create_group,
  create_direct, kick_member, add_members, leave_room, send_message, edit_message, delete_message,
  mark_read, members_requiring, own_message, broadcast_each, add_new, unless_found, insert_direct,
  erase_message,
}
use oma_server.Messaging.Requests.{Request, serve}
use oma_server.Messaging.Gates.{broadcast_each-ok}
use oma_server.Messaging.Keys.{contains-without}
use oma_server.Messaging.Posts.{told}

-- The members that a typing signal goes by: those in the cache, or else those in the table.
unfoldable pub known_members : ℕ → String → Chat → List String
known_members now room s = elim (get now room s.cache) [
  | none ↦ members_in room s.db.tables.memberships
  | some ms ↦ ms
]

-- What a typing signal does.
pub record Types (now : ℕ) (actor room state : String) (s t : Chat) : Type 0 where
  pub inside : contains (known_members now room s) actor ≡ true
  pub not_sender : contains (without actor (known_members now room s)) actor ≡ false
  pub tables : t.db.tables ≡ s.db.tables
  pub heard : t.outbox ≡ (
      if is_empty (without actor (known_members now room s))
      then s.outbox
      else told s (without actor (known_members now room s)) (typing_event state room actor))

-- A typing signal that succeeds is by one of the members that the cache knows or, where it knows
-- none, the table; it writes nothing to the tables and is told to all of these but the sender.
pub typing-Types :
    (now : ℕ) (actor room state : String) (s : Chat)
    → (typing now actor room state s).0 ≡ ok tt
    → Types now actor room state s (typing now actor room state s).1
unfolding typing typing_room_members load_members broadcast known_members
typing-Types now actor room state s h = elim (Option-cases (get now room s.cache)) [
  | inl k ↦ record {
    inside = ground arith;
    not_sender = ground (arith, contains-without actor (known_members now room s) actor);
    tables = ground arith;
    heard = ground arith;
  }
  | inr (ms, k) ↦ record {
    inside = ground arith;
    not_sender = ground (arith, contains-without actor (known_members now room s) actor);
    tables = ground arith;
    heard = ground arith;
  }
]

-- The cache is within its limit.
abbrev pub IsSmall : Chat → Type 0
IsSmall s = length s.cache ≤ typing_cache_max_rooms

typing-IsSmall :
    (now : ℕ) (actor room state : String) (s : Chat)
    → IsSmall s
    → IsSmall (typing now actor room state s).1
unfolding typing typing_room_members load_members broadcast
typing-IsSmall now actor room state s h = elim (Option-cases (get now room s.cache)) [
  | inl k ↦ ground (arith, length-put now room (members_in room s.db.tables.memberships) s.cache)
  | inr (ms, k) ↦ ground arith
]

broadcast_each-cache :
    (targets : List String) (event : String → Event) (ms : List String) (s : Chat)
    → (broadcast_each targets event ms s).1.cache ≡ s.cache
unfolding broadcast_each broadcast
broadcast_each-cache targets event [] s = refl
broadcast_each-cache targets event (m ∷ ms) s =
    let t = (broadcast targets (event m) s).1 in
    ground (arith, broadcast_each-cache targets event ms t)

add_new-IsSmall :
    (now : ℕ) (room : String) (existing new : List String) (s : Chat)
    → IsSmall s
    → IsSmall (add_new now room existing new s).1
unfolding add_new
add_new-IsSmall now room existing [] s h = h
add_new-IsSmall now room existing (x ∷ xs) s h =
    grind (arith, broadcast_each-ok, broadcast_each-cache, length-invalidate room s.cache)

-- Where the typing cache holds no more than its 4096 rooms, it does so after every request.
pub serve-IsSmall :
    (now : ℕ) (actor : String) (q : Request) (s : Chat)
    → IsSmall s
    → IsSmall (serve now actor q s).1
unfolding serve create_group create_direct kick_member add_members leave_room send_message
    edit_message delete_message mark_read create_room save_message broadcast members_requiring
    own_message unless_found insert_direct erase_message
serve-IsSmall now actor (Request.open_group id name ids) s h = ground arith
serve-IsSmall now actor (Request.open_direct id other) s h = ground arith
serve-IsSmall now actor (Request.kick r target) s h = ground (arith, length-invalidate r s.cache)
serve-IsSmall now actor (Request.invite r ids) s h = grind (arith, add_new-IsSmall)
serve-IsSmall now actor (Request.leave r) s h = ground (arith, length-invalidate r s.cache)
serve-IsSmall now actor (Request.send id r text mentions attachments) s h = ground arith
serve-IsSmall now actor (Request.edit r id text) s h = ground arith
serve-IsSmall now actor (Request.erase r id) s h = ground arith
serve-IsSmall now actor (Request.see r) s h = ground arith
serve-IsSmall now actor (Request.type r state) s h = typing-IsSmall now actor r state s h
