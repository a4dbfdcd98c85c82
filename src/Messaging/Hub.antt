-- ===== src/Messaging/Hub.antt =====
-- application/messaging/hub.go: the connections of the members on this instance. A client is the
-- pointer of a connection with its send queue; a map of clients is a list without repetition.
pub mod Bounds
pub mod Online
use oma_server.Common.{
  ℕ, suc, ◌+◌, ◌≤◌, ◌<◌, ◌≡◌, ◌≢◌, refl, Bool, true, false, not, ◌||◌, ◌&&◌, String, List, [], ◌∷◌,
  ◌++◌, Option, none, some, if◌then◌else◌, ltb, eqb, ◌==◌, Map, lookup, insert, remove, length,
  is_empty, arith, lookup-insert, lookup-remove, Option-cases, inl, inr, Bool-cases,
}

-- `wsSendBuffer`
abbrev pub ws_send_buffer : ℕ
ws_send_buffer = 64

-- The pointer is a number; a queue is oldest first.
pub record Client (P : Type 0) : Type 0 where
  pub pointer : ℕ
  pub member_id : String
  pub queue : List P

module _ {P : Type 0} where
  unfoldable pub has : ℕ → List (Client P) → Bool
  has p [] = false
  has p (c ∷ cs) = eqb c.pointer p || has p cs

  unfoldable pub drop_client : ℕ → List (Client P) → List (Client P)
  drop_client p [] = []
  drop_client p (c ∷ cs) = if eqb c.pointer p then drop_client p cs else c ∷ drop_client p cs

-- `map[string]map[*Client]struct{}`
abbrev pub Hub : Type 0 → Type 0
Hub P = Map (List (Client P))

module _ {P : Type 0} where
  unfoldable pub clients_of : String → Hub P → List (Client P)
  clients_of id h = elim (lookup id h) [ none ↦ [] | some cs ↦ cs ]

  -- The second part tells whether the member was offline.
  unfoldable pub register : Client P → Hub P → Hub P × Bool
  register c h = elim (lookup c.member_id h) [
    | none ↦ (insert c.member_id (c ∷ []) h, true)
    | some cs ↦ (insert c.member_id (if has c.pointer cs then cs else c ∷ cs) h, false)
  ]

  unfoldable pub after_drop : String → List (Client P) → Hub P → Hub P × Bool
  after_drop id [] h = (remove id h, true)
  after_drop id (c ∷ cs) h = (insert id (c ∷ cs) h, false)

  -- The second part tells whether the member went offline.
  unfoldable pub unregister : Client P → Hub P → Hub P × Bool
  unfolding after_drop
  unregister c h = elim (lookup c.member_id h) [
    | none ↦ (h, false)
    | some cs ↦ after_drop c.member_id (drop_client c.pointer cs) h
  ]

  unfoldable pub online : Hub P → String → Bool
  unfolding clients_of
  online h id = not (is_empty (clients_of id h))

  unfoldable pub online_among : List String → Hub P → List String
  online_among [] h = []
  online_among (id ∷ ids) h = if online h id then id ∷ online_among ids h else online_among ids h

  -- A full queue drops the payload.
  unfoldable pub offer : P → Client P → Client P
  offer p c =
      if ltb (length c.queue) ws_send_buffer then record c { queue = c.queue ++ p ∷ [] } else c

  unfoldable pub offer_all : P → List (Client P) → List (Client P)
  offer_all p [] = []
  offer_all p (c ∷ cs) = offer p c ∷ offer_all p cs

  -- `SendToMembers`
  unfoldable pub send_to_members : P → List String → Hub P → Hub P
  send_to_members p [] h = h
  send_to_members p (id ∷ ids) h =
      send_to_members p ids
        (elim (lookup id h) [ none ↦ h | some cs ↦ insert id (offer_all p cs) h ])

  -- `OnlineMembers`
  abbrev pub online_members : Hub P → ℕ
  online_members h = length h
