-- ===== src/Provider/Model.antt =====
-- domain/llmprovider/model.go: providers, their configuration and its validation.
use Prim.Native.Char.{Char, code}
use Prim.Native.String.{String}
use Prim.Native.String as Text
use oma_server.Common.{
  ℕ, Bool, true, false, not, ◌&&◌, ◌||◌, List, [], ◌∷◌, if◌then◌else◌, leb, eqb, ◌==◌, contains,
  trim_space, Result, ok, err,
}
use oma_server.Auth.Role.{AuthError}

pub data ProviderError : Type 0 where
  validation : String → ProviderError
  denied : AuthError → ProviderError
  not_found no_active_provider : ProviderError
  decrypt_error unknown_type upstream db_error : ProviderError

abbrev pub type_local : String
type_local = "LOCAL"

abbrev pub type_external : String
type_external = "EXTERNAL"

-- `extra_params` is passed on as it is, so its JSON text stands for it.
pub record ProviderConfig : Type 0 where
  pub endpoint : String
  pub model : String
  pub api_key_env : String
  pub api_key : String
  pub max_tokens : ℕ
  pub reasoning : String
  pub api_style : String
  pub extra_params : String

abbrev pub style_chat_completions : String
style_chat_completions = "chat_completions"

abbrev pub style_responses : String
style_responses = "responses"

-- `UsesResponsesAPI`
unfoldable pub uses_responses_api : ProviderConfig → Bool
uses_responses_api c = c.api_style == style_responses

abbrev pub reasoning_efforts : List String
reasoning_efforts = "none" ∷ "minimal" ∷ "low" ∷ "medium" ∷ "high" ∷ "xhigh" ∷ "max" ∷ []

unfoldable pub valid_reasoning : String → Bool
valid_reasoning s = s == "" || contains reasoning_efforts s

pub record LlmProvider : Type 0 where
  pub id : String
  pub name : String
  pub is_active : Bool
  pub provider_type : String
  pub config : ProviderConfig
  pub created_at : ℕ
  pub updated_at : ℕ
  pub created_by : String
  pub updated_by : String

pub record CreateCommand : Type 0 where
  pub name : String
  pub provider_type : String
  pub is_active : Bool
  pub config : ProviderConfig
  pub actor_id : String

pub record UpdateConfigCommand : Type 0 where
  pub id : String
  pub config : ProviderConfig
  pub actor_id : String

-- `lower` is `strings.ToLower`.
unfoldable pub normalize_config : (String → String) → ProviderConfig → ProviderConfig
normalize_config lower c = record c {
  endpoint = trim_space c.endpoint;
  model = trim_space c.model;
  api_key_env = trim_space c.api_key_env;
  api_key = trim_space c.api_key;
  reasoning = lower (trim_space c.reasoning);
  api_style = lower (trim_space c.api_style);
}

-- A letter or `_`.
unfoldable pub is_name_start : Char → Bool
is_name_start r =
    let n = code r in eqb n 0x5f || (leb 0x41 n && leb n 0x5a) || (leb 0x61 n && leb n 0x7a)

unfoldable pub is_digit : Char → Bool
is_digit r = leb 0x30 (code r) && leb (code r) 0x39

unfoldable pub is_name_rest : String → Bool
is_name_rest Text.[] = true
is_name_rest (Text.◌∷◌ r s) = (is_name_start r || is_digit r) && is_name_rest s

-- `validEnvVarName`
unfoldable pub valid_env_var_name : String → Bool
unfolding is_name_rest
valid_env_var_name Text.[] = false
valid_env_var_name (Text.◌∷◌ r s) = is_name_start r && is_name_rest s

abbrev invalid : String → Result ProviderError (Unit {0})
invalid message = err (ProviderError.validation message)

-- `ProviderConfig.Validate`; a message tells the field, without its list of values.
unfoldable pub validate_config : ProviderConfig → Result ProviderError (Unit {0})
validate_config c =
    if not (c.api_key_env == "") && not (valid_env_var_name c.api_key_env)
    then invalid "api_key_env must be an environment variable NAME"
    else if not (valid_reasoning c.reasoning)
    then invalid "reasoning must be one of the efforts (or empty)"
    else if not (
        c.api_style == ""
        || c.api_style == style_chat_completions
        || c.api_style == style_responses)
    then invalid "api_style must be one of the styles (or empty)"
    else ok tt

unfoldable pub normalize_create : (String → String) → CreateCommand → CreateCommand
unfolding normalize_config
normalize_create lower c = record c {
  name = trim_space c.name;
  config = normalize_config lower c.config;
}

-- `CreateCommand.Validate`, of a command that is normalised.
unfoldable pub validate_create : CreateCommand → Result ProviderError (Unit {0})
unfolding validate_config
validate_create c =
    if c.name == ""
    then invalid "name is required"
    else if not (c.provider_type == type_local || c.provider_type == type_external)
    then invalid "provider_type must be LOCAL or EXTERNAL"
    else validate_config c.config

unfoldable pub normalize_update : (String → String) → UpdateConfigCommand → UpdateConfigCommand
unfolding normalize_config
normalize_update lower c = record c { config = normalize_config lower c.config }
