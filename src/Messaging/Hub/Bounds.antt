-- ===== src/Messaging/Hub/Bounds.antt =====
-- application/messaging/hub.go: what the hub keeps true of its clients and their queues.
use oma_server.Common.{
  ℕ, ◌≤◌, ◌≡◌, refl, Bool, true, false, not, ◌&&◌, String, List, [], ◌∷◌, Option, none, some,
  if◌then◌else◌, ltb, lookup, insert, length, is_empty, arith, length-snoc, lookup-insert,
  lookup-remove, Option-cases, inl, inr,
}
use oma_server.Messaging.Hub.{
  Client, Hub, has, drop_client, register, unregister, offer, offer_all, ws_send_buffer, after_drop,
}

module _ {P : Type 0} where
  -- Every queue is within its buffer.
  unfoldable pub bounded : List (Client P) → Bool
  bounded [] = true
  bounded (c ∷ cs) = not (ltb ws_send_buffer (length c.queue)) && bounded cs

  -- A member of the map has a client, and no queue is over its buffer.
  unfoldable pub fits : Option (List (Client P)) → Bool
  fits none = true
  fits (some cs) = not (is_empty cs) && bounded cs

  pub record IsHub (h : Hub P) : Type 0 where
    pub fit : (id : String) → fits (lookup id h) ≡ true

  pub tidy :
      {h : Hub P}
      → IsHub h
      → (id : String) (cs : List (Client P)) → lookup id h ≡ some cs
      → is_empty cs ≡ false
  unfolding fits
  tidy i id cs k = ground (arith, i.fit id)

  pub queues :
      {h : Hub P}
      → IsHub h
      → (id : String) (cs : List (Client P)) → lookup id h ≡ some cs
      → bounded cs ≡ true
  unfolding fits
  queues i id cs k = ground (arith, i.fit id)

  pub hub_of :
      {h : Hub P}
      → ((id : String) (cs : List (Client P)) → lookup id h ≡ some cs → is_empty cs ≡ false)
      → ((id : String) (cs : List (Client P)) → lookup id h ≡ some cs → bounded cs ≡ true)
      → IsHub h
  unfolding fits
  hub_of {h} t q = record {
    fit = λ id. elim (Option-cases (lookup id h)) [
      | inl k ↦ ground arith
      | inr (cs, k) ↦ ground (arith, t id cs k, q id cs k)
    ];
  }

  pub register-IsHub :
      (c : Client P) (h : Hub P)
      → length c.queue ≤ ws_send_buffer
      → IsHub h
      → IsHub (register c h).0
  unfolding register bounded
  register-IsHub c h q i =
      hub_of
        (λ id ds l. elim (Option-cases (lookup c.member_id h)) [
          | inl k ↦ ground (arith, tidy i id ds, lookup-insert c.member_id id (c ∷ []) h)
          | inr (cs, k) ↦ ground (
            arith,
            tidy i id ds,
            tidy i c.member_id cs k,
            lookup-insert c.member_id id (if has c.pointer cs then cs else c ∷ cs) h,
          )
        ])
        (λ id ds l. elim (Option-cases (lookup c.member_id h)) [
          | inl k ↦ ground (arith, queues i id ds, lookup-insert c.member_id id (c ∷ []) h)
          | inr (cs, k) ↦ ground (
            arith,
            queues i id ds,
            queues i c.member_id cs k,
            lookup-insert c.member_id id (if has c.pointer cs then cs else c ∷ cs) h,
          )
        ])

  pub bounded-drop_client :
      (p : ℕ) (cs : List (Client P)) → bounded cs ≡ true → bounded (drop_client p cs) ≡ true
  unfolding bounded drop_client
  bounded-drop_client p [] h = refl
  bounded-drop_client p (c ∷ cs) h = ground (arith, bounded-drop_client p cs)

  pub length-offer :
      (x : P) (c : Client P)
      → length c.queue ≤ ws_send_buffer
      → length (offer x c).queue ≤ ws_send_buffer
  unfolding offer
  length-offer x c h = ground (arith, length-snoc c.queue x)

  pub bounded-offer_all :
      (x : P) (cs : List (Client P)) → bounded cs ≡ true → bounded (offer_all x cs) ≡ true
  unfolding bounded offer_all
  bounded-offer_all x [] h = refl
  bounded-offer_all x (c ∷ cs) h = ground (arith, bounded-offer_all x cs, length-offer x c)

  pub is_empty-offer_all : (x : P) (cs : List (Client P)) → is_empty (offer_all x cs) ≡ is_empty cs
  unfolding offer_all
  is_empty-offer_all x [] = refl
  is_empty-offer_all x (c ∷ cs) = refl

  pub after_drop-IsHub :
      (id : String) (cs : List (Client P)) (h : Hub P)
      → bounded cs ≡ true
      → IsHub h
      → IsHub (after_drop id cs h).0
  unfolding after_drop
  after_drop-IsHub id [] h b i =
      hub_of (λ x ds l. ground (arith, tidy i x ds, lookup-remove id x h))
        (λ x ds l. ground (arith, queues i x ds, lookup-remove id x h))
  after_drop-IsHub id (c ∷ cs) h b i =
      hub_of (λ x ds l. ground (arith, tidy i x ds, lookup-insert id x (c ∷ cs) h))
        (λ x ds l. ground (arith, queues i x ds, lookup-insert id x (c ∷ cs) h))

  pub unregister_absent :
      (c : Client P) (h : Hub P) → lookup c.member_id h ≡ none → unregister c h ≡ (h, false)
  unfolding unregister
  unregister_absent c h k = ground arith

  pub unregister_present :
      (c : Client P) (h : Hub P) (cs : List (Client P))
      → lookup c.member_id h ≡ some cs
      → unregister c h ≡ after_drop c.member_id (drop_client c.pointer cs) h
  unfolding unregister
  unregister_present c h cs k = ground arith

  pub unregister-IsHub : (c : Client P) (h : Hub P) → IsHub h → IsHub (unregister c h).0
  unregister-IsHub c h i = elim (Option-cases (lookup c.member_id h)) [
    | inl k ↦ rw (unregister_absent c h k) i
    | inr (cs, k) ↦ rw (unregister_present c h cs k) (
        after_drop-IsHub c.member_id (drop_client c.pointer cs) h
          (bounded-drop_client c.pointer cs (queues i c.member_id cs k)) i)
  ]

  pub offered-IsHub :
      (p : P) (id : String) (cs : List (Client P)) (h : Hub P)
      → lookup id h ≡ some cs
      → IsHub h
      → IsHub (insert id (offer_all p cs) h)
  offered-IsHub p id cs h k i =
      hub_of
        (λ x ds l. ground (
          arith,
          tidy i x ds,
          tidy i id cs k,
          is_empty-offer_all p cs,
          lookup-insert id x (offer_all p cs) h,
        ))
        (λ x ds l. ground (
          arith,
          queues i x ds,
          bounded-offer_all p cs (queues i id cs k),
          lookup-insert id x (offer_all p cs) h,
        ))
