-- ===== src/AgentRegistry/Minting.antt =====
-- What the tokens of the broker say.
use oma_server.Common.{
  ℕ, ◌≡◌, ◌≢◌, refl, ap, ◌∙◌, Bool, true, String, List, [], ◌∷◌, Option, false, ◌+◌, if◌then◌else◌,
  text_le, none, some, ◌==◌, ok, World, fails, arith, spend, inl, inr, Bool-cases, Option-cases,
  Result-cases, text_dec,
}
use oma_server.AgentRegistry.Model.{Agent, no_filter}
use oma_server.AgentRegistry.Tables.{
  Tables, Like, find_agent, listed, coarse, has_id, like_any, place,
}
use oma_server.AgentRegistry.Column.{json_elem_like}
use oma_server.AgentRegistry.Broker.{
  A2aToken, Broker, or_key_error, A2aClaims, mint_token, mint_with, caller_agent_id, only_id,
  claims_for,
}

-- The agents of a member.
unfoldable pub owned_by : String → List Agent → List Agent
owned_by member [] = []
owned_by member (a ∷ rows) =
    let rest = owned_by member rows in if a.owner_id == member then a ∷ rest else rest

-- The id of the agent of a list of one, and no id for any other list.
unfoldable pub sole : List Agent → String
sole [] = ""
sole (a ∷ []) = a.id
sole (_ ∷ _ ∷ _) = ""

-- Two lists that are both empty, both one same agent, or both longer.
abbrev Alike : List Agent → List Agent → Type 0
Alike xs [] = xs ≡ []
Alike xs (a ∷ []) = xs ≡ a ∷ []
Alike xs (_ ∷ _ ∷ _) = (x : Agent) × (y : Agent) × (zs : List Agent) × (xs ≡ x ∷ y ∷ zs)

place-cons : (a : Agent) (xs : List Agent) → (y : Agent) × (ys : List Agent) × (place a xs ≡ y ∷ ys)
unfolding place
place-cons a [] = (a, [], refl)
place-cons a (x ∷ xs) = elim (Bool-cases (text_le a.name x.name)) [
  | inl le ↦ (a, x ∷ xs, ground arith)
  | inr gt ↦ (x, place a xs, ground arith)
]

place-long :
    (a x : Agent) (xs : List Agent)
    → (y : Agent) × (z : Agent) × (zs : List Agent) × (place a (x ∷ xs) ≡ y ∷ z ∷ zs)
unfolding place
place-long a x xs = elim (Bool-cases (text_le a.name x.name)) [
  | inl le ↦ (a, x, xs, ground arith)
  | inr gt ↦ let (y, ys, e) = place-cons a xs in (x, y, ys, ground arith)
]

place-Alike : (a : Agent) (xs rows : List Agent) → Alike xs rows → Alike (place a xs) (a ∷ rows)
unfolding place
place-Alike a xs [] h = rw h refl
place-Alike a xs (b ∷ []) h = rw h (place-long a b [])
place-Alike a xs (b ∷ c ∷ rows) (x, y, zs, h) = rw h (place-long a x (y ∷ zs))

coarse_owned :
    (like : Like) (member : String) (a : Agent)
    → member ≢ ""
    → coarse like (record no_filter { owner_id = member }) a ≡ (a.owner_id == member)
unfolding coarse like_any json_elem_like text_dec Bool-cases
coarse_owned like member a ne = ground arith

kept-Alike :
    (kept : Bool) (a : Agent) (xs rows : List Agent)
    → Alike xs rows
    → Alike (if kept then place a xs else xs) (if kept then a ∷ rows else rows)
kept-Alike true a xs rows h = place-Alike a xs rows h
kept-Alike false a xs rows h = h

listed-Alike :
    (like : Like) (member : String) (rows : List Agent)
    → member ≢ ""
    → Alike (listed like (record no_filter { owner_id = member }) rows) (owned_by member rows)
unfolding listed owned_by
listed-Alike like member [] ne = refl
listed-Alike like member (a ∷ rows) ne = rw (coarse_owned like member a ne) (
    kept-Alike (a.owner_id == member) a (listed like (record no_filter { owner_id = member }) rows)
      (owned_by member rows) (listed-Alike like member rows ne))

only_id-Alike : (xs rows : List Agent) → Alike xs rows → only_id (ok xs) ≡ sole rows
unfolding only_id sole
only_id-Alike xs [] h = ground arith
only_id-Alike xs (a ∷ []) h = ground arith
only_id-Alike xs (a ∷ b ∷ rows) (x, y, zs, h) = ground arith

caller_agent_id_lem :
    (like : Like) (member : String) (w : World Tables) (caller : String)
    → member ≢ ""
    → (caller_agent_id like member w).0 ≡ ok caller
    → caller ≡ (if fails w then "" else sole (owned_by member w.tables.agents))
unfolding caller_agent_id only_id
caller_agent_id_lem like member w caller ne h =
    let one =
      only_id-Alike (listed like (record no_filter { owner_id = member }) w.tables.agents)
        (owned_by member w.tables.agents) (listed-Alike like member w.tables.agents ne) in
    elim (Bool-cases (fails w)) [ inl f ↦ ground arith | inr f ↦ ground arith ]

find_agent-id :
    (id : String) (rows : List Agent) (a : Agent)
    → find_agent id rows ≡ ok a
    → (a.id ≡ id) × (has_id id rows ≡ true)
unfolding find_agent has_id
find_agent-id id [] a h = absurd (ground arith)
find_agent-id id (b ∷ rows) a h = ground (arith, find_agent-id id rows a)

-- What a token for the agent `target` says, where `unread` tells that the member's agents could not
-- be read.
pub record Mints (now : ℕ) (jti : String) (b : Broker) (member target : String) (rows : List Agent)
    (unread : Bool) (token : A2aToken) : Type 0 where
  pub there : has_id target rows ≡ true
  pub claims : A2aClaims
  pub issuer : claims.issuer ≡ "ohmyagent-server"
  pub subject : claims.subject ≡ member
  pub caller : claims.caller_agent_id ≡ (if unread then "" else sole (owned_by member rows))
  pub audience : claims.audience ≡ target
  pub issued_at : claims.issued_at ≡ now
  pub expires_at : claims.expires_at ≡ now + b.token_ttl
  pub claimed_jti : claims.jti ≡ jti
  pub signed : b.signer.mint b.key claims ≡ some token.token
  pub expires_in : token.expires_in ≡ b.token_ttl
  pub audience_agent_id : token.audience_agent_id ≡ target

mint_with-Mints :
    (like : Like) (now : ℕ) (jti : String) (b : Broker) (member target : String) (w : World Tables)
    (token : A2aToken)
    → member ≢ ""
    → (mint_with like now jti b member target w).0 ≡ ok token
    → Mints now jti b member target w.tables.agents (fails (spend w)) token
unfolding mint_with or_key_error claims_for
mint_with-Mints like now jti b member target w token ne h = elim (Bool-cases (fails w)) [
  | inl f ↦ absurd (ground arith)
  | inr f ↦ elim (Result-cases (find_agent target w.tables.agents)) [
    | inr (e, k) ↦ absurd (ground arith)
    | inl (a, k) ↦
        let (named, there) = find_agent-id target w.tables.agents a k in
        elim (Result-cases (caller_agent_id like member (spend w)).0) [
          | inr (e, l) ↦ absurd (ground arith)
          | inl (caller, l) ↦
              elim (Option-cases
                (b.signer.mint b.key (claims_for now b.token_ttl jti member caller a.id))) [
                  | inl n ↦ absurd (ground arith)
                  | inr (text, n) ↦
                      let made : text ≡ token.token = ground arith in
                      record {
                        there = there;
                        claims = claims_for now b.token_ttl jti member caller a.id;
                        issuer = refl;
                        subject = refl;
                        caller = caller_agent_id_lem like member (spend w) caller ne l;
                        audience = named;
                        issued_at = refl;
                        expires_at = refl;
                        claimed_jti = refl;
                        signed = n ∙ ap some made;
                        expires_in = ground arith;
                        audience_agent_id = ground arith;
                      }
                ]
        ]
  ]
]

-- A token that is minted for a member with an id is for an agent that is there. It is signed with the
-- broker's key over claims that name the server as issuer, the member, the target, the id given for
-- the token, now and the end of the lifetime of tokens; as the caller they name the member's agent
-- where there is exactly one and the member's agents could be read, and otherwise none.
pub mint_token-Mints :
    (like : Like) (now : ℕ) (jti : String) (broker : Option Broker) (member target : String)
    (w : World Tables) (token : A2aToken)
    → member ≢ ""
    → (mint_token like now jti broker member target w).0 ≡ ok token
    → (b : Broker) × (broker ≡ some b)
      × Mints now jti b member target w.tables.agents (fails (spend w)) token
unfolding mint_token
mint_token-Mints like now jti none member target w token ne h = absurd (ground arith)
mint_token-Mints like now jti (some b) member target w token ne h =
    (b, refl, mint_with-Mints like now jti b member target w token ne h)
