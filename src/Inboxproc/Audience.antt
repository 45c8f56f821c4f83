-- ===== src/Inboxproc/Audience.antt =====
-- internal/inboxproc/audience.go: whom an activity is addressed to.
use activitypub_core.Common.{
  String, Bool, true, false, ◌||◌, Option, none, some, List, [], ◌∷◌, ◌++◌, ◌==◌, if◌then◌else◌,
}
use activitypub_core.Common.Text.{trim_space, to_lower, contains, has_suffix}
use activitypub_core.Json.{
  Json, null, bool, num, str, arr, obj, Elems, done, item, Fields, lookup, struct_string,
}
use activitypub_core.Config.{
  Config, listed, is_addressing_this_instance_inbox, ref_addresses_local_recipient,
}

unfoldable pub is_as_public_ref : String → Bool
is_as_public_ref s =
    let lower = to_lower (trim_space s) in
    lower == "public"
    || lower == "as:public"
    || contains lower "#public"
    || has_suffix lower "/public"
    || contains lower "activitystreams#public"

abbrev nonempty : Option String → List String
nonempty none = []
nonempty (some s) = if s == "" then [] else s ∷ []

unfoldable mutual
  pub flatten_jsonld_refs : Json → List String
  flatten_jsonld_refs null = []
  flatten_jsonld_refs (str s) = if s == "" then [] else s ∷ []
  flatten_jsonld_refs (arr js) = flatten_elems js
  flatten_jsonld_refs (obj ms) = nonempty (struct_string "id" (obj ms))
  flatten_jsonld_refs (bool _) = []
  flatten_jsonld_refs (num _) = []

  pub flatten_elems : Elems → List String
  flatten_elems done = []
  flatten_elems (item j js) = flatten_jsonld_refs j ++ flatten_elems js

-- The references of one field, as they come; a blank one and one that was seen are dropped.
unfoldable pub add_refs : List String → List String → List String
add_refs seen [] = []
add_refs seen (r ∷ rs) =
    let ref = trim_space r in
    let skipped = add_refs seen rs in
    let kept = ref ∷ add_refs (ref ∷ seen) rs in
    if ref == "" || listed ref seen then skipped else kept

abbrev field_refs : Option Json → List String
field_refs none = []
field_refs (some raw) = flatten_jsonld_refs raw

abbrev pub audience_keys : List String
audience_keys = "to" ∷ "cc" ∷ "bto" ∷ "bcc" ∷ "audience" ∷ []

abbrev pub all_refs : Fields → List String → List String
all_refs fields [] = []
all_refs fields (k ∷ ks) = field_refs (lookup k fields) ++ all_refs fields ks

unfoldable pub audience_iris : Fields → List String
unfolding add_refs
audience_iris fields = add_refs [] (all_refs fields audience_keys)

-- One reference that reaches this instance.
unfoldable pub reaches : Config → String → Bool
unfolding is_as_public_ref
reaches cfg ref =
    let r = trim_space ref in
    if r == ""
    then false
    else is_as_public_ref r
      || is_addressing_this_instance_inbox cfg r
      || ref_addresses_local_recipient cfg r

abbrev any_reaches : Config → List String → Bool
any_reaches cfg [] = false
any_reaches cfg (r ∷ rs) = reaches cfg r || any_reaches cfg rs

abbrev unspecified_or : List String → Bool → Bool
unspecified_or [] b = true
unspecified_or (r ∷ rs) b = b

-- The config is never nil here.
unfoldable pub activity_should_apply_side_effects : Config → Fields → Bool
unfolding audience_iris reaches
activity_should_apply_side_effects cfg fields =
    if cfg.public_base_url == ""
    then true
    else unspecified_or (audience_iris fields) (any_reaches cfg (audience_iris fields))
