-- ===== src/Provider/Keys.antt =====
-- An active provider that was created is the one that is used, with its key in the clear.
use Prim.Native.String.{String}
use oma_server.Common.{
  ℕ, ◌≡◌, refl, ap, sym, ◌∙◌, true, false, [], ◌∷◌, none, some, ◌==◌, ok, fails, arith, inl, inr,
  trim_space, text_dec, Option-cases, Result-cases,
}
use oma_server.Provider.Model.{
  LlmProvider, CreateCommand, normalize_create, normalize_config, validate_create,
}
use oma_server.Provider.Tables.{
  Table, newest_active, get_active, has_id, save, deactivate_rows, activate_rows, activate_row,
}
use oma_server.Provider.Service.{
  Providers, Cipher, Gate, create, insert_provider, active_provider, load_active,
  get_active_adapter, build_adapter, create_adapter, open_key, decrypted, encrypted, encrypt_key,
  new_provider,
}
use oma_server.Provider.Single.{
  has_active, has_active-deactivate_rows, has_id-deactivate_rows, activate_rows_absent,
}

-- What was encrypted is not empty, and is decrypted to what it was.
abbrev pub Seals : Cipher → Type 0
Seals c = (x y : String) → c.encrypt x ≡ some y → ((y == "") ≡ false) × (c.decrypt y ≡ some x)

newest_active-none : (t : Table) → has_active t ≡ false → newest_active t ≡ none
unfolding has_active newest_active
newest_active-none [] h = refl
newest_active-none (p ∷ ps) h = ground (arith, newest_active-none ps)

-- The row that was just activated, before rows of which none is active.
abbrev pub activated : ℕ → String → LlmProvider → LlmProvider
activated now actor p = record p { is_active = true; updated_at = now; updated_by = actor }

newest_active-insert :
    (p : LlmProvider) (now : ℕ) (actor : String) (s : Providers) (q : LlmProvider)
    → p.is_active ≡ false
    → (insert_provider p true now actor s).0 ≡ ok q
    → (newest_active (insert_provider p true now actor s).1.db.tables
        ≡ some (activated now actor p))
      × ((insert_provider p true now actor s).1.cache ≡ none)
unfolding insert_provider save activate_row activate_rows deactivate_rows newest_active has_id
newest_active-insert p now actor s q h k =
    let rest = s.db.tables in
    ground (
      arith,
      has_id-deactivate_rows p.id now actor rest,
      activate_rows_absent p.id now actor (deactivate_rows now actor rest),
      has_active-deactivate_rows now actor rest,
      newest_active-none (deactivate_rows now actor rest),
    )

open-encrypt :
    (c : Cipher) (plain enc : String)
    → Seals c
    → encrypt_key c plain ≡ ok enc
    → open_key c enc ≡ ok plain
unfolding encrypt_key open_key encrypted decrypted
open-encrypt c plain enc seals h = elim (text_dec plain "") [
  | yes e ↦ ground arith
  | no ne ↦ elim (Option-cases (c.encrypt plain)) [
    | inl n ↦ absurd (ground arith)
    | inr (y, n) ↦ let (some_key, back) = seals plain y n in ground arith
  ]
]

build-open :
    (lower : String → String) (c : Cipher) (p : LlmProvider) (plain : String)
    → open_key c p.config.api_key ≡ ok plain
    → build_adapter lower c p
      ≡ create_adapter lower (record p { config = record p.config { api_key = plain } })
unfolding build_adapter
build-open lower c p plain h = rw (build_adapter, h) refl

get_active_adapter_lem :
    (lower : String → String) (c : Cipher) (s : Providers) (p : LlmProvider)
    → s.cache ≡ none
    → newest_active s.db.tables ≡ some p
    → fails s.db ≡ false
    → (get_active_adapter lower c s).0 ≡ build_adapter lower c p
unfolding get_active_adapter active_provider load_active get_active
get_active_adapter_lem lower c s p h n f = ground arith

-- The provider that a command describes, active, with the key `key`.
abbrev pub described : (String → String) → ℕ → String → String → CreateCommand → LlmProvider
described lower now new_id key raw = record {
  id = new_id;
  name = trim_space raw.name;
  is_active = true;
  provider_type = raw.provider_type;
  config = record {
    endpoint = trim_space raw.config.endpoint;
    model = trim_space raw.config.model;
    api_key_env = trim_space raw.config.api_key_env;
    api_key = key;
    max_tokens = raw.config.max_tokens;
    reasoning = lower (trim_space raw.config.reasoning);
    api_style = lower (trim_space raw.config.api_style);
    extra_params = raw.config.extra_params;
  };
  created_at = now;
  updated_at = now;
  created_by = raw.actor_id;
  updated_by = raw.actor_id;
}

-- A provider that was created as active is, if the next statement does not fail, the one that the
-- next request uses, whatever was active or cached before: the active row of the table has the
-- fresh id, the trimmed name, the type and the normalised configuration of the command, with a text
-- that decrypts to the trimmed key, and the factory gets that provider with the key in the clear.
pub create-get_active_adapter :
    (lower : String → String) (c : Cipher) (gate : Gate) (now : ℕ) (new_id : String)
    (raw : CreateCommand) (s : Providers) (q : LlmProvider)
    → Seals c
    → raw.is_active ≡ true
    → (create lower c gate now new_id raw s).0 ≡ ok q
    → fails (create lower c gate now new_id raw s).1.db ≡ false
    → (kept : String) × (open_key c kept ≡ ok (trim_space raw.config.api_key))
      × (newest_active (create lower c gate now new_id raw s).1.db.tables
          ≡ some (described lower now new_id kept raw))
      × ((get_active_adapter lower c (create lower c gate now new_id raw s).1).0
          ≡ create_adapter lower (described lower now new_id (trim_space raw.config.api_key) raw))
unfolding create new_provider normalize_create normalize_config
create-get_active_adapter lower c gate now new_id raw s q seals active h f =
    let cmd = normalize_create lower raw in
    let done = (create lower c gate now new_id raw s).1 in
    elim (Result-cases (validate_create cmd)) [
      | inr (e, v) ↦ absurd (ground arith)
      | inl (u, v) ↦ elim (Option-cases (gate cmd.actor_id)) [
        | inr (e, g) ↦ absurd (ground arith)
        | inl g ↦ elim (Result-cases (encrypt_key c cmd.config.api_key)) [
          | inr (e, k) ↦ absurd (ground arith)
          | inl (enc, k) ↦
              let p = new_provider now new_id enc cmd in
              let same : (create lower c gate now new_id raw s)
                  ≡ insert_provider p true now cmd.actor_id s =
                ground arith in
              let (newest, empty) =
                newest_active-insert p now cmd.actor_id s q refl (sym (ap (λ x. x.0) same) ∙ h) in
              let row = ap (λ x. newest_active x.1.db.tables) same ∙ newest in
              let plain = open-encrypt c cmd.config.api_key enc seals k in
              (
                enc,
                plain,
                row,
                get_active_adapter_lem lower c done (activated now cmd.actor_id p)
                      (ap (λ x. x.1.cache) same ∙ empty) row f
                    ∙ build-open lower c (activated now cmd.actor_id p) cmd.config.api_key plain,
              )
        ]
      ]
    ]
