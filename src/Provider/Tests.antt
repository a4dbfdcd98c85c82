-- ===== src/Provider/Tests.antt =====
-- A table with one active provider, and the calls on it.
use oma_server.Provider.Single.{has_active}
use oma_server.Provider.Tables.{has_id, newest_active, save, activate_row}
use Prim.Native.String.{String}
use oma_server.Common.{
  ◌≡◌, refl, sym, ap, subst, arith, true, false, List, [], ◌∷◌, Option, none, some, Driver, Result,
  ok, fails, ◌==◌, if◌then◌else◌, text_dec, Bool-cases, trim_space, spent,
}
use oma_server.Provider.Model.{
  LlmProvider, ProviderConfig, CreateCommand, ProviderError, normalize_create, validate_create,
  valid_reasoning,
}
use oma_server.Provider.Service.{
  Providers, Cipher, Gate, Adapter, create, get_active_adapter, create_adapter, new_provider,
  open_key,
}
use oma_server.Provider.Coherence.{IsCoherent, IsFresh}
use oma_server.Provider.Requests.{Request, serve_all, serve_all-IsCoherent}
use oma_server.Provider.Keys.{Seals, described, create-get_active_adapter}

abbrev config : ProviderConfig
config = record {
  endpoint = "";
  model = "claude-x";
  api_key_env = "";
  api_key = "";
  max_tokens = 0;
  reasoning = "";
  api_style = "";
  extra_params = "";
}

abbrev old : LlmProvider
old = record {
  id = "p1";
  name = "old";
  is_active = true;
  provider_type = "LOCAL";
  config = config;
  created_at = 1;
  updated_at = 1;
  created_by = "root";
  updated_by = "root";
}

abbrev providers : Providers
providers = record { db = record { tables = old ∷ []; faults = [] }; cache = some old }

abbrev lower : String → String
lower s = s

abbrev open_gate : Gate
open_gate _ = none

-- A cipher that writes one text, and reads it back.
abbrev sealed : String → Option String
sealed x = if x == "secret" then some "sealed" else none

abbrev unsealed : String → Option String
unsealed y = if y == "sealed" then some "secret" else none

abbrev cipher : Cipher
cipher = record { encrypt = sealed; decrypt = unsealed }

abbrev wanted : CreateCommand
wanted = record {
  name = " new ";
  provider_type = "EXTERNAL";
  is_active = true;
  config = record config { api_key = "secret" };
  actor_id = "root";
}

abbrev ask : Adapter → Result ProviderError (Unit {0})
ask _ = ok tt

abbrev requests : List Request
requests =
    Request.adapter_request
    ∷ Request.create_request 5 "p2" wanted
    ∷ Request.test_request "root" "p1"
    ∷ Request.activate_request 6 "root" "p1"
    ∷ Request.delete_request "root" "p2"
    ∷ []

providers-IsCoherent : IsCoherent providers
unfolding has_id has_active IsFresh newest_active
providers-IsCoherent = record { table = (refl, refl, tt); fresh = refl }

serve_all-IsCoherent_example :
    IsCoherent (serve_all lower cipher open_gate Driver.mysql ask requests providers)
serve_all-IsCoherent_example =
    serve_all-IsCoherent lower cipher open_gate Driver.mysql ask requests providers
      providers-IsCoherent

abbrev made : LlmProvider
made = record {
  id = "p2";
  name = "new";
  is_active = true;
  provider_type = "EXTERNAL";
  config = record config { api_key = "sealed" };
  created_at = 5;
  updated_at = 5;
  created_by = "root";
  updated_by = "root";
}

created : (create lower cipher open_gate 5 "p2" wanted providers).0 ≡ ok made
unfolding create validate_create text_dec Bool-cases normalize_create trim_space valid_reasoning
    fails save has_id new_provider spent activate_row
created = refl

unfailing : fails (create lower cipher open_gate 5 "p2" wanted providers).1.db ≡ false
unfolding fails create validate_create text_dec Bool-cases normalize_create trim_space
    valid_reasoning save has_id new_provider spent activate_row
unfailing = refl

cipher-Seals : Seals cipher
unfolding text_dec Bool-cases
cipher-Seals x y h = elim (text_dec x "secret") [
  | no ne ↦ absurd (ground arith)
  | yes e ↦
      let made_of : ◌≡◌ {A = String} y "sealed" = ground arith in
      subst (λ t. ((t == "") ≡ false) × (unsealed t ≡ some x)) (sym made_of) (refl, ap some (sym e))
]

create-get_active_adapter_example :
    let after = (create lower cipher open_gate 5 "p2" wanted providers).1 in
    (kept : String) × (open_key cipher kept ≡ ok (trim_space wanted.config.api_key))
    × (newest_active after.db.tables ≡ some (described lower 5 "p2" kept wanted))
    × ((get_active_adapter lower cipher after).0
        ≡ create_adapter lower (described lower 5 "p2" (trim_space wanted.config.api_key) wanted))
create-get_active_adapter_example =
    create-get_active_adapter lower cipher open_gate 5 "p2" wanted providers made cipher-Seals refl
      created unfailing
