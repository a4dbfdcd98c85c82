-- ===== src/Messaging/Hub/Online.antt =====
-- application/messaging/hub.go: who is online after each operation of the hub.
use oma_server.Common.{
  ℕ, ◌≡◌, refl, not, ◌||◌, ◌&&◌, String, List, [], ◌∷◌, none, some, if◌then◌else◌, ◌==◌, lookup,
  insert, is_empty, arith, lookup-insert, lookup-remove, Option-cases, inl, inr,
}
use oma_server.Messaging.Hub.{
  Client, Hub, has, drop_client, clients_of, register, unregister, online, offer_all, after_drop,
}
use oma_server.Messaging.Hub.Bounds.{
  IsHub, tidy, unregister_absent, unregister_present, is_empty-offer_all,
}

module _ {P : Type 0} where
  pub register-online :
      (c : Client P) (h : Hub P) (id : String)
      → IsHub h
      → online (register c h).0 id ≡ (c.member_id == id || online h id)
  unfolding register online clients_of
  register-online c h id i = elim (Option-cases (lookup c.member_id h)) [
    | inl k ↦ ground (arith, lookup-insert c.member_id id (c ∷ []) h)
    | inr (cs, k) ↦ ground (
      arith,
      tidy i c.member_id cs k,
      lookup-insert c.member_id id (if has c.pointer cs then cs else c ∷ cs) h,
    )
  ]

  pub after_drop-online :
      (id : String) (cs : List (Client P)) (h : Hub P) (x : String)
      → online (after_drop id cs h).0 x ≡ (if id == x then not (is_empty cs) else online h x)
  unfolding after_drop online clients_of
  after_drop-online id [] h x = ground (arith, lookup-remove id x h)
  after_drop-online id (c ∷ cs) h x = ground (arith, lookup-insert id x (c ∷ cs) h)

  pub clients_of-none : (h : Hub P) (x : String) → lookup x h ≡ none → clients_of x h ≡ []
  unfolding clients_of
  clients_of-none h x k = ground arith

  pub clients_of-some :
      (h : Hub P) (x : String) (cs : List (Client P)) → lookup x h ≡ some cs → clients_of x h ≡ cs
  unfolding clients_of
  clients_of-some h x cs k = ground arith

  pub drop_client_nil : (p : ℕ) (cs : List (Client P)) → cs ≡ [] → drop_client p cs ≡ []
  unfolding drop_client
  drop_client_nil p cs k = ground arith

  pub unregister-online :
      (c : Client P) (h : Hub P) (x : String)
      → online (unregister c h).0 x ≡ (
          if c.member_id == x
          then not (is_empty (drop_client c.pointer (clients_of x h)))
          else online h x)
  unfolding online
  unregister-online c h x = elim (Option-cases (lookup c.member_id h)) [
    | inl k ↦
        let n = clients_of-none h c.member_id k in
        ground (
          arith,
          unregister_absent c h k,
          n,
          drop_client_nil c.pointer (clients_of c.member_id h) n,
        )
    | inr (cs, k) ↦ ground (
      arith,
      unregister_present c h cs k,
      clients_of-some h c.member_id cs k,
      after_drop-online c.member_id (drop_client c.pointer cs) h x,
    )
  ]

  pub after_drop_last :
      (id : String) (cs : List (Client P)) (h : Hub P) → (after_drop id cs h).1 ≡ is_empty cs
  unfolding after_drop
  after_drop_last id [] h = refl
  after_drop_last id (c ∷ cs) h = refl

  -- The member who goes offline is announced, and nobody else.
  pub unregister_last :
      (c : Client P) (h : Hub P)
      → IsHub h
      → (unregister c h).1 ≡ (online h c.member_id && not (online (unregister c h).0 c.member_id))
  unfolding online
  unregister_last c h i = elim (Option-cases (lookup c.member_id h)) [
    | inl k ↦ ground (arith, unregister_absent c h k, clients_of-none h c.member_id k)
    | inr (cs, k) ↦ ground (
      arith,
      unregister_present c h cs k,
      tidy i c.member_id cs k,
      clients_of-some h c.member_id cs k,
      after_drop_last c.member_id (drop_client c.pointer cs) h,
      after_drop-online c.member_id (drop_client c.pointer cs) h c.member_id,
    )
  ]

  pub register_first :
      (c : Client P) (h : Hub P) → IsHub h → (register c h).1 ≡ not (online h c.member_id)
  unfolding register online
  register_first c h i = elim (Option-cases (lookup c.member_id h)) [
    | inl k ↦ ground (arith, clients_of-none h c.member_id k)
    | inr (cs, k) ↦ ground (arith, tidy i c.member_id cs k, clients_of-some h c.member_id cs k)
  ]

  pub offered-online :
      (p : P) (id : String) (cs : List (Client P)) (h : Hub P) (x : String)
      → lookup id h ≡ some cs
      → online (insert id (offer_all p cs) h) x ≡ online h x
  unfolding online clients_of
  offered-online p id cs h x k =
      ground (arith, is_empty-offer_all p cs, lookup-insert id x (offer_all p cs) h)
