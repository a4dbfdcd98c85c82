-- ===== src/Messaging/Keys.antt =====
-- The canonical key of a direct room, and the lists of ids that the service cleans.
use oma_server.Common.{
  ◌≡◌, refl, not, ◌&&◌, String, List, [], ◌∷◌, ◌==◌, arith, text_le_total, text_le_antisym,
  contains, IsDistinct, contains-keep_in, distinct_from-IsDistinct, keep_in-IsDistinct,
}
use oma_server.Messaging.Model.{direct_key, dedupe, filter_to_members, without}

-- The key of a direct room does not depend on who opens it.
pub direct_key_comm : (a b : String) → direct_key a b ≡ direct_key b a
unfolding direct_key
direct_key_comm a b = ground (arith, text_le_total a b, text_le_antisym a b)

pub dedupe-IsDistinct : (vs : List String) → IsDistinct (dedupe vs)
unfolding dedupe
dedupe-IsDistinct vs = distinct_from-IsDistinct [] _

pub filter_to_members-IsDistinct :
    (ids members : List String) → IsDistinct ids → IsDistinct (filter_to_members ids members)
unfolding filter_to_members
filter_to_members-IsDistinct ids members d = keep_in-IsDistinct members ids d

pub contains-filter_to_members :
    (ids members : List String) (v : String)
    → contains (filter_to_members ids members) v ≡ (contains ids v && contains members v)
unfolding filter_to_members
contains-filter_to_members ids members v = contains-keep_in members ids v

pub contains-without :
    (actor : String) (ms : List String) (v : String)
    → contains (without actor ms) v ≡ (contains ms v && not (v == actor))
unfolding contains without
contains-without actor [] v = refl
contains-without actor (m ∷ ms) v = ground (arith, contains-without actor ms v)
