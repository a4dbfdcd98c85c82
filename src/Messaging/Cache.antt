-- ===== src/Messaging/Cache.antt =====
-- application/messaging/typing_cache.go: the member lists for typing signals, kept for a short
-- time. The clock is an argument, in nanoseconds; the lock is left out, each call being atomic.
use oma_server.Common.{
  ℕ, ◌+◌, ◌*◌, ◌≤◌, ◌<◌, ◌≡◌, Bool, String, List, [], ◌∷◌, Option, none, some, if◌then◌else◌, ltb,
  leb, ◌==◌, Map, lookup, insert, remove, length, lookup-insert, lookup-remove, length-insert,
  length-remove, arith,
}

abbrev pub typing_members_ttl : ℕ
typing_members_ttl = 5 * 1000000000

abbrev pub typing_cache_max_rooms : ℕ
typing_cache_max_rooms = 4096

pub record Entry : Type 0 where
  pub members : List String
  pub expires : ℕ

abbrev pub Cache : Type 0
Cache = Map Entry

-- `now.After(e.expires)`
abbrev expired : ℕ → Entry → Bool
expired now e = ltb e.expires now

unfoldable pub get : ℕ → String → Cache → Option (List String)
get now room c = elim (lookup room c) [
  | none ↦ none
  | some e ↦ if expired now e then none else some e.members
]

-- `pruneExpiredLocked`
unfoldable pub prune : ℕ → Cache → Cache
prune now [] = []
prune now ((k, e) ∷ c) = if expired now e then prune now c else (k, e) ∷ prune now c

make_room : ℕ → Cache → Cache
unfolding prune
make_room now c =
    if leb typing_cache_max_rooms (length c)
    then (if leb typing_cache_max_rooms (length (prune now c)) then [] else prune now c)
    else c

unfoldable pub put : ℕ → String → List String → Cache → Cache
unfolding make_room
put now room members c =
    insert room (record { members = members; expires = now + typing_members_ttl }) (make_room now c)

unfoldable pub invalidate : String → Cache → Cache
invalidate room c = remove room c

length-make_room :
    (now : ℕ) (c : Cache)
    → length c ≤ typing_cache_max_rooms
    → length (make_room now c) < typing_cache_max_rooms
unfolding make_room
length-make_room now c h = ground arith

-- However it is used, the cache holds no more than its limit of rooms.
pub length-put :
    (now : ℕ) (room : String) (members : List String) (c : Cache)
    → length c ≤ typing_cache_max_rooms
    → length (put now room members c) ≤ typing_cache_max_rooms
unfolding put
length-put now room members c h = omega (
  arith,
  length-make_room now c h,
  length-insert room (record { members = members; expires = now + typing_members_ttl })
      (make_room now c),
)

pub length-invalidate :
    (room : String) (c : Cache)
    → length c ≤ typing_cache_max_rooms
    → length (invalidate room c) ≤ typing_cache_max_rooms
unfolding invalidate
length-invalidate room c h = omega (arith, length-remove room c)

-- A room that was just put is found with its members for exactly the time to live: until then and
-- at its end, and not after.
pub get-put :
    (now later : ℕ) (room : String) (members : List String) (c : Cache)
    → get later room (put now room members c)
      ≡ (if leb later (now + typing_members_ttl) then some members else none)
unfolding get put
get-put now later room members c = ground (
  arith,
  lookup-insert room room (record { members = members; expires = now + typing_members_ttl })
      (make_room now c),
)

-- A room that was invalidated is not found, at any time; the other rooms are as before.
pub get-invalidate :
    (now : ℕ) (room other : String) (c : Cache)
    → get now other (invalidate room c) ≡ (if room == other then none else get now other c)
unfolding get invalidate
get-invalidate now room other c = ground (arith, lookup-remove room other c)
