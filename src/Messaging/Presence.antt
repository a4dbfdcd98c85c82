-- ===== src/Messaging/Presence.antt =====
-- application/messaging/hub.go: histories of connections, disconnections and deliveries.
use oma_server.Common.{
  ℕ, ◌≡◌, ◌∙◌, refl, not, ◌||◌, ◌&&◌, String, List, [], ◌∷◌, if◌then◌else◌, ◌==◌, lookup, is_empty,
  insert, arith, Option-cases, inl, inr,
}
use oma_server.Messaging.Hub.{
  Client, Hub, register, unregister, online, drop_client, clients_of, send_to_members, offer_all,
}
use oma_server.Messaging.Hub.Bounds.{IsHub, hub_of, register-IsHub, unregister-IsHub, offered-IsHub}
use oma_server.Messaging.Hub.Online.{
  register-online, unregister-online, register_first, unregister_last, offered-online,
}

-- What happens to a hub; a client arrives with an empty queue.
pub data Signal (P : Type 0) : Type 0 where
  arrive : ℕ → String → Signal P
  depart : Client P → Signal P
  push : P → List String → Signal P

module _ {P : Type 0} where
  unfoldable pub react : Signal P → Hub P → Hub P
  react (arrive p id) h = (register (record { pointer = p; member_id = id; queue = [] }) h).0
  react (depart c) h = (unregister c h).0
  react (push p ids) h = send_to_members p ids h

  unfoldable pub react_all : List (Signal P) → Hub P → Hub P
  react_all [] h = h
  react_all (x ∷ xs) h = react_all xs (react x h)

  send_to_members-IsHub :
      (p : P) (ids : List String) (h : Hub P) → IsHub h → IsHub (send_to_members p ids h)
  unfolding send_to_members
  send_to_members-IsHub p [] h i = i
  send_to_members-IsHub p (id ∷ ids) h i =
      send_to_members-IsHub p ids _ (elim (Option-cases (lookup id h)) [
        | inl k ↦ rw k i
        | inr (cs, k) ↦ rw k (offered-IsHub p id cs h k i)
      ])

  -- A delivery changes nobody's presence.
  pub send_to_members-online :
      (p : P) (ids : List String) (h : Hub P) (x : String)
      → online (send_to_members p ids h) x ≡ online h x
  unfolding send_to_members
  send_to_members-online p [] h x = refl
  send_to_members-online p (id ∷ ids) h x = elim (Option-cases (lookup id h)) [
    | inl k ↦ rw k (send_to_members-online p ids h x)
    | inr (cs, k) ↦ rw k (
        send_to_members-online p ids (insert id (offer_all p cs) h) x
        ∙ offered-online p id cs h x k)
  ]

  react_all-IsHub : (xs : List (Signal P)) (h : Hub P) → IsHub h → IsHub (react_all xs h)
  unfolding react_all react
  react_all-IsHub [] h i = i
  react_all-IsHub (arrive p id ∷ xs) h i =
      react_all-IsHub xs _ (register-IsHub _ h (ground arith) i)
  react_all-IsHub (depart c ∷ xs) h i = react_all-IsHub xs _ (unregister-IsHub c h i)
  react_all-IsHub (push p ids ∷ xs) h i = react_all-IsHub xs _ (send_to_members-IsHub p ids h i)

  -- Whatever clients arrive, depart and are sent, no send queue holds more than its 64 payloads
  -- and no member is kept without a client.
  pub history-IsHub : (xs : List (Signal P)) → IsHub (react_all xs [])
  unfolding lookup
  history-IsHub xs = react_all-IsHub xs [] (hub_of (λ id cs l. cc) (λ id cs l. cc))

  -- In a hub that keeps no member without a client and no queue over its bound: registering a client
  -- tells that its member came online just where the member was offline; the member is online afterwards, and nobody else's
  -- presence changes.
  pub register-announces :
      (c : Client P) (h : Hub P)
      → IsHub h
      → ((register c h).1 ≡ not (online h c.member_id))
        × ((id : String) → online (register c h).0 id ≡ (c.member_id == id || online h id))
  register-announces c h i = (register_first c h i, λ id. register-online c h id i)

  -- In a hub that keeps no member without a client and no queue over its bound: unregistering a
  -- client tells that its member went offline just where the member was online and no longer is; the member stays online with what
  -- other clients there are, and nobody else's presence changes.
  pub unregister-announces :
      (c : Client P) (h : Hub P)
      → IsHub h
      → ((unregister c h).1 ≡ (online h c.member_id && not (online (unregister c h).0 c.member_id)))
        × ((id : String)
            → online (unregister c h).0 id ≡ (
                if c.member_id == id
                then not (is_empty (drop_client c.pointer (clients_of id h)))
                else online h id))
  unregister-announces c h i = (unregister_last c h i, unregister-online c h)
