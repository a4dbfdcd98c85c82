-- ===== src/AgentRegistry/Validation.antt =====
-- What a registration that passes validation looks like.
use Prim.Native.String.{String, len}
use oma_server.Common.{
  ◌≤◌, ◌≡◌, ◌≢◌, refl, Bool, true, false, not, ◌&&◌, List, [], ◌∷◌, leb, ◌==◌, contains, length,
  trim_space, trim_space_idem, IsDistinct, ok, arith, subst, sym,
}
use oma_server.AgentRegistry.Model.{
  RegisterCommand, ParseUrl, max_tag_len, max_tag_count, max_name_len, max_endpoint_len,
  max_model_len, max_version_len, tags_after, normalize_tags, normalize_register, validate_register,
  checked, checked_lengths, validate_endpoint_url, is_absolute,
}

-- A tag is not blank, has no space around it and is not too long.
unfoldable pub is_tag : String → Bool
is_tag t = not (t == "") && trim_space t == t && leb (len t) max_tag_len

unfoldable pub all_tags : List String → Bool
unfolding is_tag
all_tags [] = true
all_tags (t ∷ ts) = is_tag t && all_tags ts

all_tags-tags_after : (seen ts : List String) → all_tags (tags_after seen ts) ≡ true
unfolding all_tags tags_after is_tag
all_tags-tags_after seen [] = refl
all_tags-tags_after seen (raw ∷ ts) = ground (
  arith,
  all_tags-tags_after seen ts,
  all_tags-tags_after (trim_space raw ∷ seen) ts,
  trim_space_idem raw,
)

tags_after-unseen :
    (seen ts : List String) (v : String)
    → contains seen v ≡ true
    → contains (tags_after seen ts) v ≡ false
unfolding contains tags_after
tags_after-unseen seen [] v h = refl
tags_after-unseen seen (raw ∷ ts) v h =
    ground (arith, tags_after-unseen seen ts v, tags_after-unseen (trim_space raw ∷ seen) ts v)

tags_after-IsDistinct : (seen ts : List String) → IsDistinct (tags_after seen ts)
unfolding tags_after contains
tags_after-IsDistinct seen [] = tt
tags_after-IsDistinct seen (raw ∷ ts) = ground (
  arith,
  tags_after-IsDistinct seen ts,
  tags_after-IsDistinct (trim_space raw ∷ seen) ts,
  tags_after-unseen (trim_space raw ∷ seen) ts (trim_space raw),
)

-- A list of tags that fits the columns.
pub record IsTags (ts : List String) : Type 0 where
  pub each : all_tags ts ≡ true
  pub distinct : IsDistinct ts
  pub few : length ts ≤ max_tag_count

pub record IsValid (parse : ParseUrl) (c : RegisterCommand) : Type 0 where
  pub owned : c.owner_id ≢ ""
  pub named : c.name ≢ ""
  pub name : len c.name ≤ max_name_len
  pub endpoint : is_absolute (parse c.endpoint_url) ≡ true
  pub endpoint_url : len c.endpoint_url ≤ max_endpoint_len
  pub model : len c.model ≤ max_model_len
  pub version : len c.version ≤ max_version_len
  pub capabilities : IsTags c.capabilities
  pub tags : IsTags c.tags

checked_eq : (parse : ParseUrl) (c d : RegisterCommand) → checked parse c ≡ ok d → d ≡ c
unfolding checked checked_lengths validate_endpoint_url
checked_eq parse c d h = ground arith

checked-IsValid :
    (parse : ParseUrl) (c d : RegisterCommand)
    → all_tags c.capabilities ≡ true
    → IsDistinct c.capabilities
    → all_tags c.tags ≡ true
    → IsDistinct c.tags
    → checked parse c ≡ ok d
    → IsValid parse c
unfolding checked checked_lengths validate_endpoint_url
checked-IsValid parse c d a i b j h = record {
  owned = ground arith;
  named = ground arith;
  name = ground arith;
  endpoint = ground arith;
  endpoint_url = ground arith;
  model = ground arith;
  version = ground arith;
  capabilities = record { each = a; distinct = i; few = ground arith };
  tags = record { each = b; distinct = j; few = ground arith };
}

-- A command that is accepted has an owner, a name and an absolute http or https URL, each field
-- fits its column, and each list has at most 32 tags, no two the same, each trimmed, not blank and
-- of at most 128 bytes.
pub validate_register-IsValid :
    (parse : ParseUrl) (raw c : RegisterCommand)
    → validate_register parse raw ≡ ok c
    → IsValid parse c
unfolding validate_register normalize_register normalize_tags
validate_register-IsValid parse raw c h =
    let n = normalize_register raw in
    subst (IsValid parse) (sym (checked_eq parse n c h)) (
      checked-IsValid parse n c (all_tags-tags_after [] raw.capabilities)
        (tags_after-IsDistinct [] raw.capabilities) (all_tags-tags_after [] raw.tags)
        (tags_after-IsDistinct [] raw.tags) h)
