-- ===== src/Inboxproc/Tests.antt =====
-- Runs of the inbox processing on a small database.
use activitypub_core.Common.{◌≡◌, refl, ◌⊎◌, true, false, none, some, [], ◌∷◌, ◌==◌}
use activitypub_core.Common.Text.{to_lower, trim_space, after_last}
use activitypub_core.Common.Exec.{ok}
use activitypub_core.Json.{Json, str, obj, member, last, Fields, as_object, lookup}
use activitypub_core.As2.{ObjectPayload, primary_activity_type, normalize_activity_type}
use activitypub_core.Config.{Config}
use activitypub_core.Store.{
  Actor, ActivityRow, ObjectRow, FollowRow, EdgeRow, accepted, Db, DistinctBy,
}
use activitypub_core.Store.Activities.{get_activity_by_id}
use activitypub_core.Store.FollowLaws.{IsUniqueFollows}
use activitypub_core.Store.Objects.{upsert_federated_object}
use activitypub_core.Fetch.Policy.{testing_policy}
use activitypub_core.Fetch.Client.{Client}
use activitypub_core.Inboxproc.Objects.{handle_create}
use activitypub_core.Inboxproc.Process.{process_inbox_activity, effective_type}
use activitypub_core.Inboxproc.Rest.{others_edges, others_follows}
use activitypub_core.Inboxproc.ObjectFrame.{others_objects, url_of}
use activitypub_core.Inboxproc.Authors.{IsAuthor, handle_create-IsAuthor}
use activitypub_core.Inboxproc.Isolation.{
  process_inbox_activity-others_follows, process_inbox_activity-others_edges,
  process_inbox_activity-others_objects,
}

abbrev config : Config
config = record {
  public_base_url = "https://here.example";
  local_username = "alice";
  local_usernames = [];
  follow_auto_accept = true;
  create_object_max_fetch_bytes = 0;
  fetch_allow_http = false;
  fetch_relax_local = false;
  sign_outbound_get = false;
  actor_private_key_path = "";
  instance_actor_private_key_path = "";
  instance_name = "";
  delivery_max_attempts = 0;
  delivery_backoff_initial_sec = 0;
  delivery_backoff_max_sec = 0;
  media_max_attachments_per_status = 0;
  media_allowed_mime_types = [];
}

abbrev offline : Client
offline = record { get = λ _. none; key_file_loads = λ _. false }

abbrev mallory : Actor
mallory = record {
  id = 1;
  username = "mallory";
  domain = "far.example";
  actor_url = "https://far.example/m";
  inbox_url = "https://far.example/m/inbox";
  outbox_url = "";
  public_key_pem = "";
  private_key_pem = none;
}

-- A Delete of an object of the actor 2 by the actor 1.
abbrev deletion : ActivityRow
deletion = record {
  id = 5;
  activity_id = "https://far.example/d";
  actor_id = 1;
  typ = "Delete";
  raw_json = obj (
      member "type" (str "Delete") (
        member "actor" (str "https://far.example/m")
          (member "object" (str "https://o.example/note") last)));
  deleted = false;
}

abbrev deletion_fields : Fields
deletion_fields =
    ("type", str "Delete")
    ∷ ("actor", str "https://far.example/m")
    ∷ ("object", str "https://o.example/note")
    ∷ []

abbrev note : ObjectRow
note = record {
  object_url = "https://o.example/note";
  actor_id = 2;
  typ = "Note";
  raw_json = str "note";
  deleted = false;
}

abbrev follow : FollowRow
follow = record {
  follower_actor_id = 2;
  followee_actor_id = 3;
  state = accepted;
  follow_activity_id = "https://o.example/f";
}

abbrev like : EdgeRow
like = record {
  id = 1;
  actor_id = 2;
  target = "https://o.example/note";
  activity_id = "https://o.example/l";
}

abbrev db : Db
db = record {
  actors = mallory ∷ [];
  activities = deletion ∷ [];
  objects = note ∷ [];
  follows = follow ∷ [];
  likes = like ∷ [];
  announces = [];
  blocks = [];
  jobs = [];
  next_actor = 4;
  next_activity = 6;
  next_edge = 2;
  next_job = 1;
}

abbrev after : Db
after = (process_inbox_activity 100 config offline none 5 db).1

stored : get_activity_by_id 5 db ≡ (ok deletion, db)
unfolding get_activity_by_id
stored = refl

fields_of_deletion : as_object deletion.raw_json ≡ some deletion_fields
unfolding as_object
fields_of_deletion = refl

is_no_create : (to_lower (effective_type deletion deletion_fields) == "create") ≡ false
unfolding effective_type normalize_activity_type to_lower trim_space primary_activity_type lookup
    after_last
is_no_create = refl

unique_follows : IsUniqueFollows db.follows
unique_follows = record { by_key = (tt, tt); by_other = (tt, tt) }

process_inbox_activity-others_objects_example :
    DistinctBy url_of after.objects × (others_objects 1 after.objects ≡ note ∷ [])
process_inbox_activity-others_objects_example =
    process_inbox_activity-others_objects 100 config offline none 5 deletion deletion_fields db
      stored fields_of_deletion is_no_create (tt, tt)

process_inbox_activity-others_follows_example :
    IsUniqueFollows after.follows × (others_follows 1 after.follows ≡ follow ∷ [])
process_inbox_activity-others_follows_example =
    process_inbox_activity-others_follows 100 config offline none 5 deletion db stored
      unique_follows

process_inbox_activity-others_edges_example :
    (others_edges 1 after.likes ≡ like ∷ [])
    × (others_edges 1 after.announces ≡ [])
    × (others_edges 1 after.blocks ≡ [])
process_inbox_activity-others_edges_example =
    process_inbox_activity-others_edges 100 config offline none 5 deletion db stored

abbrev creation_fields : Fields
creation_fields =
    ("type", str "Create")
    ∷ ("actor", str "https://far.example/m")
    ∷ ("to", str "https://www.w3.org/ns/activitystreams#Public")
    ∷ (
      "object",
      obj (
          member "id" (str "https://far.example/n")
            (member "attributedTo" (str "https://far.example/m") last)),
    )
    ∷ []

handle_create-IsAuthor_example :
    ((handle_create config deletion creation_fields none testing_policy db).1 ≡ db)
    ⊎ ((p : ObjectPayload) × ((raw : Json) × (IsAuthor deletion creation_fields raw db
            × (handle_create config deletion creation_fields none testing_policy db
                ≡ upsert_federated_object p.id 1 p.typ raw db))))
handle_create-IsAuthor_example =
    handle_create-IsAuthor config deletion creation_fields none testing_policy db
