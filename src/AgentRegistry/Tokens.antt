-- ===== src/AgentRegistry/Tokens.antt =====
-- The broker's key over restarts.
use oma_server.Common.{
  ℕ, ◌≡◌, sym, ap, ◌∙◌, subst, true, String, List, none, some, ok, World, fails, arith, spend, inl,
  inr, Bool-cases, Option-cases, Result-cases,
}
use oma_server.AgentRegistry.Tables.{Tables, A2aKey, get_active, newest_active, save_key_row}
use oma_server.AgentRegistry.Service.{seconds}
use oma_server.AgentRegistry.Broker.{
  TokenSigner, Cipher, Broker, enable_broker, load_key, bootstrap, opened, or_key_error, a2a_alg,
  public_key,
}

-- What was encrypted is decrypted to what it was.
abbrev pub Decrypts : Cipher → Type 0
Decrypts c = (x y : String) → c.encrypt x ≡ some y → c.decrypt y ≡ some x

-- The broker's key is the newest active one of the table, decrypted.
record Opens (c : Cipher) (key : A2aKey) (keys : List A2aKey) : Type 0 where
  stored : A2aKey
  newest : newest_active keys ≡ some stored
  plain : c.decrypt stored.private_key_pem ≡ some key.private_key_pem
  kid : key.kid ≡ stored.kid
  public_key_pem : key.public_key_pem ≡ stored.public_key_pem
  active : key.active ≡ stored.active
  created_at : key.created_at ≡ stored.created_at

opened-Opens :
    (c : Cipher) (w : World Tables) (stored key : A2aKey)
    → newest_active w.tables.keys ≡ some stored
    → (opened c stored w).0 ≡ ok key
    → Opens c key (opened c stored w).1.tables.keys
unfolding opened or_key_error
opened-Opens c w stored key e h = record {
  stored = stored;
  newest = ground arith;
  plain = ground arith;
  kid = ground arith;
  public_key_pem = ground arith;
  active = ground arith;
  created_at = ground arith;
}

bootstrap-Opens :
    (signer : TokenSigner) (c : Cipher) (now : ℕ) (w : World Tables) (key : A2aKey)
    → Decrypts c
    → newest_active w.tables.keys ≡ none
    → (bootstrap signer c now w).0 ≡ ok key
    → Opens c key (bootstrap signer c now w).1.tables.keys
unfolding bootstrap or_key_error save_key_row newest_active
bootstrap-Opens signer c now w key d e h = elim (Option-cases signer.generate_key) [
  | inl g ↦ absurd (ground arith)
  | inr (made, g) ↦ elim (Option-cases (c.encrypt made.private_key_pem)) [
    | inl n ↦ absurd (ground arith)
    | inr (enc, n) ↦
        let back = d made.private_key_pem enc n in
        record {
          stored = record made { active = true; created_at = seconds now; private_key_pem = enc };
          newest = ground arith;
          plain = ground arith;
          kid = ground arith;
          public_key_pem = ground arith;
          active = ground arith;
          created_at = ground arith;
        }
  ]
]

Opens-unique :
    (c : Cipher) (key other : A2aKey) (keys : List A2aKey)
    → Opens c key keys
    → Opens c other keys
    → key ≡ other
Opens-unique c key other keys o p =
    let a1 = o.newest in
    let b1 = p.newest in
    let a2 = o.plain in
    let b2 = p.plain in
    let a3 = o.kid in
    let b3 = p.kid in
    let a4 = o.public_key_pem in
    let b4 = p.public_key_pem in
    let a5 = o.active in
    let b5 = p.active in
    let a6 = o.created_at in let b6 = p.created_at in ground (arith, ap c.decrypt)

enable_broker-Opens :
    (signer : TokenSigner) (c : Cipher) (ttl now : ℕ) (w : World Tables) (b : Broker)
    → Decrypts c
    → (enable_broker signer c ttl now w).0 ≡ ok b
    → Opens c b.key (enable_broker signer c ttl now w).1.tables.keys
unfolding enable_broker load_key get_active
enable_broker-Opens signer c ttl now w b d h = elim (Bool-cases (fails w)) [
  | inl f ↦ absurd (ground arith)
  | inr f ↦
      let read = spend w in
      elim (Option-cases (newest_active w.tables.keys)) [
        | inl e ↦ elim (Result-cases (bootstrap signer c now read).0) [
          | inr (x, k) ↦ absurd (ground arith)
          | inl (key, k) ↦
              let o = bootstrap-Opens signer c now read key d e k in
              let same : b.key ≡ key = ground arith in
              let after : (enable_broker signer c ttl now w).1.tables.keys
                  ≡ (bootstrap signer c now read).1.tables.keys =
                ground arith in
              subst (Opens c b.key) (sym after)
                (subst (λ x. Opens c x (bootstrap signer c now read).1.tables.keys) (sym same) o)
        ]
        | inr (stored, e) ↦ elim (Result-cases (opened c stored read).0) [
          | inr (x, k) ↦ absurd (ground arith)
          | inl (key, k) ↦
              let o = opened-Opens c read stored key e k in
              let same : b.key ≡ key = ground arith in
              let after : (enable_broker signer c ttl now w).1.tables.keys
                  ≡ (opened c stored read).1.tables.keys =
                ground arith in
              subst (Opens c b.key) (sym after)
                (subst (λ x. Opens c x (opened c stored read).1.tables.keys) (sym same) o)
        ]
      ]
]

warm-Opens :
    (signer : TokenSigner) (c : Cipher) (ttl now : ℕ) (w : World Tables) (stored : A2aKey)
    (b : Broker)
    → newest_active w.tables.keys ≡ some stored
    → (enable_broker signer c ttl now w).0 ≡ ok b
    → Opens c b.key w.tables.keys
unfolding enable_broker load_key get_active opened or_key_error
warm-Opens signer c ttl now w stored b e h = record {
  stored = stored;
  newest = e;
  plain = ground arith;
  kid = ground arith;
  public_key_pem = ground arith;
  active = ground arith;
  created_at = ground arith;
}

-- A start that finds the keys as an earlier one left them, with whatever signer, lifetime of
-- tokens, time and failures, has the same key in the clear, so the same kid and public key, if
-- both starts succeed and the cipher decrypts what it encrypted.
pub enable_broker-again :
    (signer other : TokenSigner) (c : Cipher) (ttl ttl' now later : ℕ) (w v : World Tables)
    (b b' : Broker)
    → Decrypts c
    → (enable_broker signer c ttl now w).0 ≡ ok b
    → v.tables.keys ≡ (enable_broker signer c ttl now w).1.tables.keys
    → (enable_broker other c ttl' later v).0 ≡ ok b'
    → (b'.key ≡ b.key) × (public_key (some b') ≡ public_key (some b))
unfolding public_key
enable_broker-again signer other c ttl ttl' now later w v b b' d h e k =
    let o = enable_broker-Opens signer c ttl now w b d h in
    let p = warm-Opens other c ttl' later v o.stored b' (ap newest_active e ∙ o.newest) k in
    let same = Opens-unique c b'.key b.key _ (subst (Opens c b'.key) e p) o in
    (same, ap (λ key. (key.kid, a2a_alg, key.public_key_pem)) same)
