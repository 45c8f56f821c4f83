-- ===== src/Inboxproc/Process.antt =====
-- internal/inboxproc/process.go: the dispatch on the type of a stored activity, and the names of
-- local users that it reads from the database first (store/augment_local_usernames.go).
use activitypub_core.Common.{
  ℕ, String, Option, none, some, List, [], ◌∷◌, ◌++◌, map, ◌==◌, if◌then◌else◌,
}
use activitypub_core.Common.Text.{trim_space, to_lower}
use activitypub_core.Common.Exec.{Exec, ◌>>=◌, pure, fail}
use activitypub_core.Json.{Fields, as_object}
use activitypub_core.As2.{normalize_activity_type, primary_activity_type}
use activitypub_core.Config.{Config, listed}
use activitypub_core.Url.{parse, hostname}
use activitypub_core.Store.{Actor, ActivityRow, Db}
use activitypub_core.Store.Activities.{get_activity_by_id, select}
use activitypub_core.Fetch.Policy.{Policy, policy_from_config}
use activitypub_core.Fetch.Client.{Client}
use activitypub_core.Inboxproc.Objects.{handle_create, handle_update, handle_delete}
use activitypub_core.Inboxproc.Follow.{handle_follow, handle_accept, handle_reject}
use activitypub_core.Inboxproc.Social.{handle_like, handle_announce, handle_block}
use activitypub_core.Inboxproc.Undo.{handle_undo}

-- `ListLocalActorsOnDomain`: the user names
unfoldable pub list_local_actors_on_domain : String → List Actor → List String
list_local_actors_on_domain domain actors =
    map (λ a. a.username) (select (λ a. a.domain == domain) actors)

-- The names that are not in the list yet, each once; Go goes through the map in any order.
unfoldable pub missing_names : List String → List String → List String
missing_names seen [] = []
missing_names seen (u ∷ us) =
    let added = u ∷ missing_names (u ∷ seen) us in
    let skipped = missing_names seen us in if listed u seen then skipped else added

abbrev starting_names : Config → List String
starting_names cfg = elim cfg.local_usernames [
  | [] ↦ if trim_space cfg.local_username == "" then [] else cfg.local_username ∷ []
  | u ∷ us ↦ u ∷ us
]

unfoldable pub merge_cfg_local_usernames : Config → List String → Config
unfolding missing_names
merge_cfg_local_usernames cfg from_db = record cfg {
  local_usernames = starting_names cfg ++ missing_names (starting_names cfg) from_db;
}

unfoldable pub augment_local_usernames_from_db : Config → Db → Config
unfolding merge_cfg_local_usernames list_local_actors_on_domain
augment_local_usernames_from_db cfg s =
    let pub_url = trim_space cfg.public_base_url in
    if pub_url == "" then cfg else elim (parse pub_url) [
      | none ↦ cfg
      | some base ↦
          if hostname base == ""
          then cfg
          else merge_cfg_local_usernames cfg (list_local_actors_on_domain (hostname base) s.actors)
    ]

-- The type of the document, or that of the row where the document has none.
unfoldable pub effective_type : ActivityRow → Fields → String
effective_type row fields =
    let t = primary_activity_type fields in
    trim_space (if t == "" then normalize_activity_type row.typ else t)

-- The switch; every other type, known or not, has no effect. `now` is the clock of the queue.
unfoldable pub dispatch :
    ℕ → Config → Client → Policy → String → ActivityRow → Fields → Exec Db (Unit {0})
dispatch now cfg client policy key row fields =
    if key == "create"
    then handle_create cfg row fields (some client) policy
    else if key == "update"
    then handle_update cfg row fields
    else if key == "delete"
    then handle_delete cfg row fields
    else if key == "follow"
    then handle_follow now cfg client policy row fields
    else if key == "accept"
    then handle_accept row fields
    else if key == "reject"
    then handle_reject row fields
    else if key == "undo"
    then handle_undo row fields
    else if key == "like"
    then handle_like cfg row fields
    else if key == "announce"
    then handle_announce cfg row fields
    else if key == "block"
    then handle_block cfg row fields
    else pure tt

abbrev pub or_config_policy : Option Policy → Config → Policy
or_config_policy none cfg = policy_from_config (some cfg)
or_config_policy (some p) cfg = p

unfoldable pub process_row : ℕ → Config → Client → Option Policy → ActivityRow → Exec Db (Unit {0})
unfolding dispatch effective_type
process_row now cfg client fetch_policy row = elim (as_object row.raw_json) [
  | none ↦ fail "decode activity json"
  | some fields ↦
      let t = effective_type row fields in
      if t == ""
      then fail "activity missing type"
      else dispatch now cfg client (or_config_policy fetch_policy cfg) (to_lower t) row fields
]

unfoldable pub process_inbox_activity : ℕ → Config → Client → Option Policy → ℕ → Exec Db (Unit {0})
unfolding process_row augment_local_usernames_from_db
process_inbox_activity now cfg client fetch_policy activity_db_id s =
    (do
      row ← get_activity_by_id activity_db_id
      process_row now (augment_local_usernames_from_db cfg s) client fetch_policy row)
      s
