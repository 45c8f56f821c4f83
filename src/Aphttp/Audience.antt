-- ===== src/Aphttp/Audience.antt =====
-- aphttp/postoutbox.go: whom an activity of a local actor is delivered to. `flattenJSONLDRefs` is a
-- copy of that of internal/inboxproc, which is used here.
use activitypub_core.Common.{
  ℕ, String, Bool, true, false, ◌&&◌, ◌||◌, Option, none, some, List, [], ◌∷◌, ◌++◌, ◌==◌, nat_eq,
  any_where, find_where, delete_where, if◌then◌else◌,
}
use activitypub_core.Common.Text.{trim_space, trim_right_slash, to_lower, contains}
use activitypub_core.Common.Exec.{Result, ok, bind_result}
use activitypub_core.Json.{Json, str, arr, Elems, done, item, Fields, lookup}
use activitypub_core.Config.{
  Config, listed, is_local_actor_followers_or_following_collection_iri, local_shared_inbox_url,
}
use activitypub_core.Store.{Actor, FollowRow, accepted, Db}
use activitypub_core.Store.Activities.{select}
use activitypub_core.Fetch.Client.{Client}
use activitypub_core.Fetch.Policy.{Policy}
use activitypub_core.Fetch.Inbox.{inbox_url_from_reference}
use activitypub_core.Inboxproc.Audience.{flatten_jsonld_refs, audience_iris}

-- The same steps as `audienceIRIs` of internal/inboxproc.
unfoldable pub audience_entries : Fields → List String
unfolding audience_iris
audience_entries m = audience_iris m

unfoldable pub skip_audience_entry : String → Bool
unfolding trim_space to_lower contains
skip_audience_entry s =
    let lower = to_lower (trim_space s) in
    trim_space s == "" || contains lower "#public" || contains lower "activitystreams#public"

-- The texts that are not blank, without the space around them.
unfoldable pub trimmed : List String → List String
unfolding trim_space
trimmed [] = []
trimmed (s ∷ ss) = let rest = trimmed ss in if trim_space s == "" then rest else trim_space s ∷ rest

-- What is added, in its order: nothing that was seen.
unfoldable pub added : List String → List String → List String
unfolding trim_space
added seen [] = []
added seen (s ∷ ss) =
    let skipped = added seen ss in
    let kept = trim_space s ∷ added (trim_space s ∷ seen) ss in
    if trim_space s == "" || listed (trim_space s) seen then skipped else kept

abbrev pub to_elems : List String → Elems
to_elems [] = done
to_elems (s ∷ ss) = item (str s) (to_elems ss)

-- `raw[key] = b`
abbrev pub set_field : String → Json → Fields → Fields
set_field key j m = delete_where (λ f. f.0 == key) m ++ (key, j) ∷ []

abbrev existing_refs : Option Json → List String
existing_refs none = []
existing_refs (some j) = trimmed (flatten_jsonld_refs j)

abbrev or_unchanged : String → Fields → List String → Fields
or_unchanged key m [] = m
or_unchanged key m (s ∷ ss) = set_field key (arr (to_elems (s ∷ ss))) m

unfoldable pub merge_string_iris_into_json_field : Fields → String → List String → Fields
unfolding lookup flatten_jsonld_refs trimmed added
merge_string_iris_into_json_field m key [] = m
merge_string_iris_into_json_field m key (a ∷ add) =
    let old = existing_refs (lookup key m) in or_unchanged key m (old ++ added old (a ∷ add))

abbrev is_accepted_follow_of : ℕ → FollowRow → Bool
is_accepted_follow_of followee r =
    nat_eq r.followee_actor_id followee && elim r.state [ accepted ↦ true | _ ↦ false ]

-- follows f JOIN actors a ON a.id = f.follower_actor_id
unfoldable pub follower_urls : List Actor → List FollowRow → List String
follower_urls actors [] = []
follower_urls actors (r ∷ rs) =
    let rest = follower_urls actors rs in
    elim (find_where (λ a. nat_eq a.id r.follower_actor_id) actors) [
      | none ↦ rest
      | some a ↦ a.actor_url ∷ rest
    ]

-- store/oauth.go
unfoldable pub list_accepted_follower_actor_urls : ℕ → Db → List String
unfolding follower_urls
list_accepted_follower_actor_urls followee s =
    follower_urls s.actors (select (is_accepted_follow_of followee) s.follows)

unfoldable pub append_follower_cc_for_public_posts : ℕ → Fields → Db → Fields
unfolding audience_entries skip_audience_entry list_accepted_follower_actor_urls
    merge_string_iris_into_json_field
append_follower_cc_for_public_posts actor m s =
    if any_where skip_audience_entry (audience_entries m)
    then merge_string_iris_into_json_field m "cc" (list_accepted_follower_actor_urls actor s)
    else m

module _ (client : Client) (policy : Option Policy) (cfg : Config) where
  -- The loop over the entries; `seen` holds the inboxes that were taken.
  unfoldable pub delivery_inboxes : List String → List String → Result (List String)
  delivery_inboxes seen [] = ok []
  delivery_inboxes seen (e ∷ es) =
      let passed = delivery_inboxes seen es in
      let taken : Result (List String) =
        bind_result (inbox_url_from_reference client policy (some cfg) e) λ inbox.
          let n = trim_right_slash inbox in
          let rest = delivery_inboxes seen es in
          let more = bind_result (delivery_inboxes (n ∷ seen) es) λ ns. ok (n ∷ ns) in
          if n == trim_right_slash (local_shared_inbox_url cfg) || listed n seen
          then rest
          else more in
      if skip_audience_entry e || is_local_actor_followers_or_following_collection_iri cfg e
      then passed
      else taken

  unfoldable pub resolve_delivery_inboxes : Fields → Result (List String)
  unfolding audience_entries delivery_inboxes
  resolve_delivery_inboxes m = delivery_inboxes [] (audience_entries m)
