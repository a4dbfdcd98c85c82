-- ===== src/Messaging/Posts.antt =====
-- What sending, editing and deleting a message leave in the table and tell the room.
use oma_server.Common.{
  text_dec, ℕ, ◌<◌, ◌≡◌, ◌≢◌, refl, false, String, List, [], ◌∷◌, ◌++◌, ◌==◌, if◌then◌else◌, ok,
  arith, contains, is_empty, inl, inr, Result-cases, trim_space,
}
use oma_server.Messaging.Model.{Message}
use oma_server.Messaging.Tables.{find_message, update_content_rows, mark_deleted_rows}
use oma_server.Messaging.Service.{
  Chat, Delivery, Event, edit_message, delete_message, edited, deleted, msg_to_dto, broadcast,
  own_message, erase_message,
}
use oma_server.Messaging.Gates.{
  Owns, Untouched, own_message-Owns, own_message-Untouched, contains-members_in,
}

find_message-update_content :
    (id content : String) (at : ℕ) (ms : List Message) (m : Message)
    → find_message id ms ≡ ok m
    → m.deleted_at ≡ 0
    → find_message id (update_content_rows id content at ms) ≡ ok (edited at content m)
unfolding find_message update_content_rows edited
find_message-update_content id content at [] m h d = cc
find_message-update_content id content at (x ∷ ms) m h d =
    ground (arith, find_message-update_content id content at ms m)

find_message-update_content_ne :
    (id x content : String) (at : ℕ) (ms : List Message)
    → x ≢ id
    → find_message x (update_content_rows id content at ms) ≡ find_message x ms
unfolding find_message update_content_rows
find_message-update_content_ne id x content at [] ne = refl
find_message-update_content_ne id x content at (m ∷ ms) ne =
    ground (arith, find_message-update_content_ne id x content at ms ne)

find_message-mark_deleted :
    (id : String) (at : ℕ) (ms : List Message) (m : Message)
    → find_message id ms ≡ ok m
    → find_message id (mark_deleted_rows id at ms) ≡ ok (deleted at m)
unfolding find_message mark_deleted_rows deleted
find_message-mark_deleted id at [] m h = cc
find_message-mark_deleted id at (x ∷ ms) m h = ground (arith, find_message-mark_deleted id at ms m)

find_message-mark_deleted_ne :
    (id x : String) (at : ℕ) (ms : List Message)
    → x ≢ id
    → find_message x (mark_deleted_rows id at ms) ≡ find_message x ms
unfolding find_message mark_deleted_rows
find_message-mark_deleted_ne id x at [] ne = refl
find_message-mark_deleted_ne id x at (m ∷ ms) ne =
    ground (arith, find_message-mark_deleted_ne id x at ms ne)

-- The outbox after one more broadcast.
abbrev pub told : Chat → List String → Event → List Delivery
told s targets event = s.outbox ++ record { targets = targets; event = event } ∷ []

inhabited :
    (s : Chat) (actor room id : String) (m : Message) (ms : List String)
    → Owns s actor room id m ms
    → is_empty ms ≡ false
unfolding contains
inhabited s actor room id m ms o =
    let i = o.inside in
    let e = o.members in ground (arith, contains-members_in room s.db.tables.memberships actor)

-- The state after an edit of the message that the actor owns.
pub record Edits (s t : Chat) (now : ℕ) (actor room id text : String) (old new : Message)
    (ms : List String) : Type 0 where
  pub owns : Owns s actor room id old ms
  pub not_deleted : old.deleted_at ≡ 0
  pub has_text : (text == "") ≡ false
  pub result : new ≡ record old { content = text; edited_at = now }
  pub lookups :
      (x : String)
      → find_message x t.db.tables.messages
        ≡ (if x == id then ok new else find_message x s.db.tables.messages)
  pub broadcasted : t.outbox ≡ told s ms (Event.message_edited (msg_to_dto new))

broadcast-told :
    (s : Chat) (ms : List String) (e : Event)
    → is_empty ms ≡ false
    → (broadcast ms e s).1.outbox ≡ told s ms e
unfolding broadcast
broadcast-told s ms e h = ground arith

-- An edit that succeeds is by the sender, a member of the message's room, of a message that was not
-- deleted, and the trimmed text is not empty; then the id finds the returned message, which is the
-- old one with that text and now as the time of the edit, all other ids find what they did, and the
-- members of the room are told of it.
pub edit_message-Edits :
    (now : ℕ) (actor room id raw : String) (s : Chat) (m : Message)
    → (edit_message now actor room id raw s).0 ≡ ok m
    → (old : Message) × (ms : List String) × Edits s
        (edit_message now actor room id raw s).1
        now
        actor
        room
        id
        (trim_space raw)
        old
        m
        ms
unfolding edit_message edited broadcast
edit_message-Edits now actor room id raw s m h =
    elim (Result-cases (own_message actor room id s).0) [
      | inl (p, k) ↦
          let o = own_message-Owns actor room id s p k in
          let u = own_message-Untouched actor room id s in
          let f = o.found in
          let ut = u.tables in
          let uo = u.outbox in
          let inh = inhabited s actor room id p.0 p.1 o in
          (
            p.0,
            p.1,
            record {
              owns = o;
              not_deleted = ground arith;
              has_text = ground arith;
              result = ground arith;
              lookups = λ x. elim (text_dec x id) [
                | yes same ↦ ground (
                  arith,
                  same,
                  find_message-update_content id (trim_space raw) now s.db.tables.messages p.0,
                )
                | no other ↦ ground (
                  arith,
                  find_message-update_content_ne id x (trim_space raw) now s.db.tables.messages
                      other,
                )
              ];
              broadcasted = ground arith;
            },
          )
      | inr (x, k) ↦ absurd (ground arith)
    ]

owned_as :
    (actor room id : String) (s : Chat) (p : Message × List String) (m : Message)
    → find_message id s.db.tables.messages ≡ ok m
    → Owns s actor room id p.0 p.1
    → Owns s actor room id m p.1
owned_as actor room id s p m f o =
    let g = o.found in
    let r = o.in_room in
    let q = o.sent in
    record {
      found = f;
      in_room = ground arith;
      sent = ground arith;
      members = o.members;
      inside = o.inside;
    }

-- The state after the deletion of the message that the actor owns.
pub record Erases (s t : Chat) (now : ℕ) (actor room id : String) (old : Message) (ms : List String)
    : Type 0 where
  pub owns : Owns s actor room id old ms
  pub lookups :
      (x : String)
      → find_message x t.db.tables.messages
        ≡ (if x == id then ok (deleted now old) else find_message x s.db.tables.messages)
  pub broadcasted : t.outbox ≡ told s ms (Event.message_deleted (msg_to_dto (deleted now old)))

-- The deletion of a message that was not deleted, where it succeeds, is by the sender, a member of
-- the room; then the id finds the message without its text and with the time of the deletion, all
-- other ids find what they did, and the members of the room are told.
pub delete_message-Erases :
    (now : ℕ) (actor room id : String) (s : Chat) (m : Message)
    → find_message id s.db.tables.messages ≡ ok m
    → m.deleted_at ≡ 0
    → (delete_message now actor room id s).0 ≡ ok tt
    → (ms : List String) × Erases s (delete_message now actor room id s).1 now actor room id m ms
unfolding delete_message erase_message broadcast
delete_message-Erases now actor room id s m f d h =
    elim (Result-cases (own_message actor room id s).0) [
      | inl (p, k) ↦
          let o = own_message-Owns actor room id s p k in
          let u = own_message-Untouched actor room id s in
          let g = o.found in
          let ut = u.tables in
          let uo = u.outbox in
          let inh = inhabited s actor room id p.0 p.1 o in
          (
            p.1,
            record {
              owns = owned_as actor room id s p m f o;
              lookups = λ x. elim (text_dec x id) [
                | yes same ↦
                    ground (arith, same, find_message-mark_deleted id now s.db.tables.messages m)
                | no other ↦
                    ground (arith, find_message-mark_deleted_ne id x now s.db.tables.messages other)
              ];
              broadcasted = ground arith;
            },
          )
      | inr (x, k) ↦ absurd (ground arith)
    ]

-- A deletion of a message that was already deleted writes nothing and tells nobody.
pub delete_message-again :
    (now : ℕ) (actor room id : String) (s : Chat) (m : Message)
    → find_message id s.db.tables.messages ≡ ok m
    → 0 < m.deleted_at
    → Untouched s (delete_message now actor room id s).1
unfolding delete_message
delete_message-again now actor room id s m f d =
    elim (Result-cases (own_message actor room id s).0) [
      | inl (p, k) ↦
          let o = own_message-Owns actor room id s p k in
          let u = own_message-Untouched actor room id s in let g = o.found in ground arith
      | inr (x, k) ↦ let u = own_message-Untouched actor room id s in ground arith
    ]
