-- ===== src/AgentRegistry/Broker.antt =====
-- application/agentregistry/broker.go: the signing key and the tokens for calls between agents. The
-- signer and the cipher are arguments; each may fail.
use oma_server.Common.{
  ℕ, ◌+◌, ◌*◌, true, String, List, [], ◌∷◌, Option, none, some, if◌then◌else◌, leb, Result, ok, err,
  ◌>>=◌, ◌>>◌, pure, fail, lift, attempt, query, statement,
}
use oma_server.AgentRegistry.Model.{Agent, RegistryError, no_broker, key_error, db_error, no_filter}
use oma_server.AgentRegistry.Tables.{A2aKey, Like, Db, find_agent, listed, get_active, save_key_row}
use oma_server.AgentRegistry.Service.{seconds}

abbrev pub default_token_ttl : ℕ
default_token_ttl = 120 * 1000000000

abbrev pub a2a_issuer : String
a2a_issuer = "ohmyagent-server"

abbrev pub a2a_alg : String
a2a_alg = "ES256"

pub record A2aClaims : Type 0 where
  pub issuer : String
  pub subject : String
  pub caller_agent_id : String
  pub audience : String
  pub issued_at : ℕ
  pub expires_at : ℕ
  pub jti : String

pub record A2aToken : Type 0 where
  pub token : String
  pub expires_in : ℕ
  pub audience_agent_id : String

-- The ports `TokenSigner` and `Cipher`. A generated key has its pair of PEM texts and its kid.
pub record TokenSigner : Type 0 where
  pub generate_key : Option A2aKey
  pub mint : A2aKey → A2aClaims → Option String

pub record Cipher : Type 0 where
  pub encrypt : String → Option String
  pub decrypt : String → Option String

pub record Broker : Type 0 where
  pub signer : TokenSigner
  pub token_ttl : ℕ
  pub key : A2aKey

unfoldable pub token_ttl_of : ℕ → ℕ
token_ttl_of ttl = if leb ttl 0 then default_token_ttl else ttl

unfoldable pub or_key_error : {A : Type 0} → Option A → Result RegistryError A
or_key_error none = err key_error
or_key_error (some a) = ok a

-- The first start: a key is made, and kept with its private half encrypted.
unfoldable pub bootstrap : TokenSigner → Cipher → ℕ → Db A2aKey
unfolding or_key_error
bootstrap signer cipher now = do
  made ← lift (or_key_error signer.generate_key)
  let key = record made { active = true; created_at = seconds now }
  enc ← lift (or_key_error (cipher.encrypt key.private_key_pem))
  statement db_error (save_key_row (record key { private_key_pem = enc }))
  pure key

-- A later start: the key is read and its private half decrypted.
unfoldable pub opened : Cipher → A2aKey → Db A2aKey
unfolding or_key_error
opened cipher key = do
  plain ← lift (or_key_error (cipher.decrypt key.private_key_pem))
  pure (record key { private_key_pem = plain })

unfoldable pub load_key : TokenSigner → Cipher → ℕ → Result RegistryError A2aKey → Db A2aKey
unfolding bootstrap opened
load_key signer cipher now (ok key) = opened cipher key
load_key signer cipher now (err RegistryError.not_found) = bootstrap signer cipher now
load_key signer cipher now (err e) = fail e

-- `EnableBroker`, which leaves the service with the broker it returns here.
unfoldable pub enable_broker : TokenSigner → Cipher → ℕ → ℕ → Db Broker
unfolding load_key token_ttl_of
enable_broker signer cipher ttl now = do
  found ← attempt (query db_error get_active)
  key ← load_key signer cipher now found
  pure (record { signer = signer; token_ttl = token_ttl_of ttl; key = key })

-- The one agent of the list, if it has one.
unfoldable pub only_id : Result RegistryError (List Agent) → String
only_id (ok (a ∷ [])) = a.id
only_id _ = ""

unfoldable pub caller_agent_id : Like → String → Db String
unfolding only_id
caller_agent_id like member_id = do
  owned ←
      attempt (
        query db_error (λ t. ok (listed like (record no_filter { owner_id = member_id }) t.agents)))
  pure (only_id owned)

unfoldable pub claims_for : ℕ → ℕ → String → String → String → String → A2aClaims
claims_for now ttl jti member_id caller audience = record {
  issuer = a2a_issuer;
  subject = member_id;
  caller_agent_id = caller;
  audience = audience;
  issued_at = now;
  expires_at = now + ttl;
  jti = jti;
}

unfoldable pub mint_with : Like → ℕ → String → Broker → String → String → Db A2aToken
unfolding caller_agent_id claims_for or_key_error
mint_with like now jti b member_id target_id = do
  target ← query db_error (λ t. find_agent target_id t.agents)
  caller ← caller_agent_id like member_id
  let claims = claims_for now b.token_ttl jti member_id caller target.id
  token ← lift (or_key_error (b.signer.mint b.key claims))
  pure (record { token = token; expires_in = b.token_ttl; audience_agent_id = target.id })

unfoldable pub mint_token : Like → ℕ → String → Option Broker → String → String → Db A2aToken
unfolding mint_with
mint_token like now jti none member_id target_id = fail no_broker
mint_token like now jti (some b) member_id target_id = mint_with like now jti b member_id target_id

-- The kid, the algorithm and the public key.
unfoldable pub public_key : Option Broker → String × String × String
public_key none = ("", "", "")
public_key (some b) = (b.key.kid, a2a_alg, b.key.public_key_pem)
