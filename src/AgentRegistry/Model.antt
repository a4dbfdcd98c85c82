-- ===== src/AgentRegistry/Model.antt =====
-- domain/agentregistry/model.go. A heartbeat is in unix seconds, 0 where there was none; the clock
-- and the lease are in nanoseconds.
use Prim.Native.String.{String, len}
use Prim.Native.String as Text
use Prim.Native.Char.{code}
use oma_server.Common.{
  ℕ, ◌-◌, ◌*◌, Bool, false, not, ◌&&◌, ◌||◌, List, [], ◌∷◌, if◌then◌else◌, ltb, leb, eqb, ◌==◌,
  trim_space, contains, length, has_part, Result, ok, err, Option, none, some,
}
use oma_server.Auth.Role.{AuthError}

pub data RegistryError : Type 0 where
  validation : String → RegistryError
  denied : AuthError → RegistryError
  not_found forbidden no_broker key_error db_error : RegistryError

pub data Status : Type 0 where
  online stale offline : Status

unfoldable pub status_name : Status → String
status_name Status.online = "online"
status_name Status.stale = "stale"
status_name Status.offline = "offline"

abbrev pub stale_multiplier : ℕ
stale_multiplier = 3

abbrev pub nanos : ℕ → ℕ
nanos t = t * 1000000000

-- A clock that stands before the heartbeat counts as no time elapsed.
unfoldable pub compute_status : ℕ → ℕ → ℕ → Status
compute_status last now ttl =
    if leb ttl 0 || eqb last 0
    then Status.offline
    else if ltb (now - nanos last) ttl
    then Status.online
    else if ltb (now - nanos last) (stale_multiplier * ttl)
    then Status.stale
    else Status.offline

abbrev pub max_name_len : ℕ
max_name_len = 255

abbrev pub max_endpoint_len : ℕ
max_endpoint_len = 2048

abbrev pub max_model_len : ℕ
max_model_len = 255

abbrev pub max_version_len : ℕ
max_version_len = 64

abbrev pub max_tag_len : ℕ
max_tag_len = 128

abbrev pub max_tag_count : ℕ
max_tag_count = 32

-- What is stored of an agent.
pub record Agent : Type 0 where
  pub id : String
  pub owner_id : String
  pub name : String
  pub endpoint_url : String
  pub capabilities : List String
  pub tags : List String
  pub model : String
  pub version : String
  pub last_heartbeat_at : ℕ
  pub created_at : ℕ
  pub updated_at : ℕ

-- An agent with the two fields that are not stored.
pub record Shown : Type 0 where
  pub agent : Agent
  pub status : Status
  pub owner_name : String

pub record RegisterCommand : Type 0 where
  pub owner_id : String
  pub name : String
  pub endpoint_url : String
  pub capabilities : List String
  pub tags : List String
  pub model : String
  pub version : String

-- `strings.TrimRight(s, "/")`
unfoldable pub trim_slashes : String → String
trim_slashes Text.[] = Text.[]
trim_slashes (Text.◌∷◌ c s) = elim (trim_slashes s) [
  | Text.[] ↦ if eqb (code c) 0x2f then Text.[] else Text.◌∷◌ c Text.[]
  | Text.◌∷◌ d r ↦ Text.◌∷◌ c (Text.◌∷◌ d r)
]

-- The tags that come after those in `seen`.
unfoldable pub tags_after : List String → List String → List String
tags_after seen [] = []
tags_after seen (raw ∷ ts) =
    let t = trim_space raw in
    let skip = tags_after seen ts in
    let keep = t ∷ tags_after (t ∷ seen) ts in
    if t == "" || ltb max_tag_len (len t) || contains seen t then skip else keep

unfoldable pub normalize_tags : List String → List String
unfolding tags_after
normalize_tags ts = tags_after [] ts

unfoldable pub normalize_register : RegisterCommand → RegisterCommand
unfolding normalize_tags trim_slashes
normalize_register c = record {
  owner_id = c.owner_id;
  name = trim_space c.name;
  endpoint_url = trim_slashes (trim_space c.endpoint_url);
  capabilities = normalize_tags c.capabilities;
  tags = normalize_tags c.tags;
  model = trim_space c.model;
  version = trim_space c.version;
}

-- `url.Parse`: the scheme and the host, or nothing for a text that is no URL.
abbrev pub ParseUrl : Type 0
ParseUrl = String → Option (String × String)

-- An http or https URL with a host.
unfoldable pub is_absolute : Option (String × String) → Bool
is_absolute none = false
is_absolute (some (scheme, host)) = (scheme == "http" || scheme == "https") && not (host == "")

unfoldable pub validate_endpoint_url : ParseUrl → String → Result RegistryError (Unit {0})
unfolding is_absolute
validate_endpoint_url parse raw =
    if raw == ""
    then err (RegistryError.validation "endpoint_url is required")
    else if ltb max_endpoint_len (len raw)
    then err (RegistryError.validation "endpoint_url is too long")
    else if not (is_absolute (parse raw))
    then err (RegistryError.validation "endpoint_url must be an absolute http/https URL")
    else ok tt

abbrev refused : String → Result RegistryError RegisterCommand
refused message = err (RegistryError.validation message)

unfoldable pub checked_lengths : RegisterCommand → Result RegistryError RegisterCommand
checked_lengths c =
    if ltb max_model_len (len c.model)
    then refused "model is too long"
    else if ltb max_version_len (len c.version)
    then refused "version is too long"
    else if ltb max_tag_count (length c.capabilities) || ltb max_tag_count (length c.tags)
    then refused "too many capabilities/tags"
    else ok c

unfoldable pub checked : ParseUrl → RegisterCommand → Result RegistryError RegisterCommand
unfolding validate_endpoint_url checked_lengths
checked parse c =
    if c.owner_id == ""
    then refused "owner is required"
    else if c.name == ""
    then refused "name is required"
    else if ltb max_name_len (len c.name)
    then refused "name is too long"
    else elim (validate_endpoint_url parse c.endpoint_url) [
      | err e ↦ err e
      | ok _ ↦ checked_lengths c
    ]

-- `RegisterCommand.Validate`, which leaves the command normalised.
unfoldable pub validate_register : ParseUrl → RegisterCommand → Result RegistryError RegisterCommand
unfolding checked normalize_register
validate_register parse c = checked parse (normalize_register c)

pub record Filter : Type 0 where
  pub owner_id : String
  pub capability : String
  pub tag : String
  pub status : String
  pub query : String
  pub exclude_id : String

abbrev pub no_filter : Filter
no_filter = record {
  owner_id = "";
  capability = "";
  tag = "";
  status = "";
  query = "";
  exclude_id = "";
}

-- `lower` is `strings.ToLower`, whose tables are those of Go's package unicode.
unfoldable pub normalize_filter : (String → String) → Filter → Filter
normalize_filter lower f = record {
  owner_id = trim_space f.owner_id;
  capability = trim_space f.capability;
  tag = trim_space f.tag;
  status = lower (trim_space f.status);
  query = trim_space f.query;
  exclude_id = trim_space f.exclude_id;
}

unfoldable pub known_status : String → Bool
known_status s = s == "" || s == "online" || s == "stale" || s == "offline"

-- `Filter.Validate`, which leaves the filter normalised.
unfoldable pub validate_filter : (String → String) → Filter → Result RegistryError Filter
unfolding normalize_filter
validate_filter lower f =
    if known_status (normalize_filter lower f).status
    then ok (normalize_filter lower f)
    else err (RegistryError.validation "status must be one of {online, stale, offline}")

unfoldable pub any_has_part : (String → String) → List String → String → Bool
any_has_part lower [] q = false
any_has_part lower (t ∷ ts) q = has_part (lower t) q || any_has_part lower ts q

unfoldable pub matches_query : (String → String) → Agent → String → Bool
matches_query lower a raw =
    let q = lower raw in
    has_part (lower a.name) q
    || has_part (lower a.model) q
    || any_has_part lower a.capabilities q
    || any_has_part lower a.tags q

unfoldable pub matches : (String → String) → Filter → Agent → Bool
matches lower f a =
    (f.owner_id == "" || a.owner_id == f.owner_id)
    && (f.exclude_id == "" || not (a.id == f.exclude_id))
    && (f.capability == "" || contains a.capabilities f.capability)
    && (f.tag == "" || contains a.tags f.tag)
    && (f.query == "" || matches_query lower a f.query)

-- `statusAllowed` of the use cases.
unfoldable pub status_allowed : Status → String → Bool
status_allowed st filter =
    if filter == ""
    then (status_name st == "online" || status_name st == "stale")
    else status_name st == filter
