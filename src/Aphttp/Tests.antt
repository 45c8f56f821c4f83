-- ===== src/Aphttp/Tests.antt =====
-- Runs of the inbox and the outbox with one remote and one local actor.
use activitypub_core.Common.{
  arith, ◌≡◌, ◌≢◌, refl, ◌⊎◌, true, false, none, some, [], ◌∷◌, ◌==◌, map, if◌then◌else◌, any_where,
}
use activitypub_core.As2.{reference_iri}
use activitypub_core.Common.Text.{
  after_last, trim_slash, trim_space, fields, equal_fold, trim_right_slash,
}
use activitypub_core.Common.Exec.{ok}
use activitypub_core.Json.{
  arr, item, done, Json, json, str, obj, member, last, Fields, lookup, struct_string,
}
use activitypub_core.Config.{
  Config, listed, local_shared_inbox_url, is_local_actor_followers_or_following_collection_iri,
}
use activitypub_core.Store.{Db}
use activitypub_core.Store.Activities.{same_activity}
use activitypub_core.Fetch.Client.{Client}
use activitypub_core.Httpsig.Request.{Request, get}
use activitypub_core.Httpsig.Sign.{Platform}
use activitypub_core.Httpsig.Verify.{same_bytes}
use activitypub_core.Aphttp.Fields.{Handler, Codec, accepted_reply, http_error}
use activitypub_core.Aphttp.Inbox.{Verified, shared_inbox}
use activitypub_core.Aphttp.Inbox.{rollback}
use activitypub_core.Queue.{enqueue}
use activitypub_core.Url.{hostname, to_string}
use activitypub_core.Fetch.Inbox.{inbox_url_from_reference}
use activitypub_core.Inboxproc.Audience.{flatten_jsonld_refs}
use activitypub_core.Aphttp.Audience.{skip_audience_entry, resolve_delivery_inboxes}
use activitypub_core.Aphttp.Outbox.{
  outbox_bearer_authorized, post_outbox, deliver_job, enqueue_deliveries,
}
use activitypub_core.Aphttp.InboxRepeated.{shared_inbox_repeated}
use activitypub_core.Aphttp.OutboxLaws.{
  IsTargets, resolve_delivery_inboxes-IsTargets, job_rows, enqueue_deliveries-jobs,
  post_outbox-rollback,
}
use activitypub_core.Aphttp.Stored.{SameJobs, SameRest, IsStored}
use activitypub_core.Aphttp.InboxLaws.{IsSigned, shared_inbox_sound}

abbrev platform : Platform
platform = record {
  PrivateKey = Unit;
  PublicKey = Unit;
  sha256 = λ _. 1 ∷ [];
  sign = λ _ d. some d;
  verify = λ _ d sig. same_bytes d sig;
  encode = λ _. "AQ==";
  decode = λ s. if s == "AQ==" then some (1 ∷ []) else none;
  format_time = λ _. "now";
  parse_time = λ s. if s == "now" then some 7 else none;
}

abbrev note : Json
note = obj (
    member "id" (str "https://far.example/a1")
      (member "type" (str "Like") (member "actor" (str "https://far.example/m") last)))

abbrev codec : Codec platform
codec = record {
  parse_json = λ _. json note;
  byte_length = λ _. 100;
  parse_pem = λ _. some tt;
  public_key_pem = λ _. some "PEM";
}

abbrev mallory_doc : Json
mallory_doc = obj (
    member "inbox" (str "https://far.example/m/inbox") (
      member "publicKey"
        (obj (member "id" (str "https://far.example/m") (member "publicKeyPem" (str "PEM") last)))
        last))

abbrev client : Client
client = record {
  get = λ _. some (record { status = 200; body = json mallory_doc; size = 10 });
  key_file_loads = λ _. false;
}

abbrev config : Config
config = record {
  public_base_url = "https://here.example";
  local_username = "alice";
  local_usernames = [];
  follow_auto_accept = false;
  create_object_max_fetch_bytes = 0;
  fetch_allow_http = false;
  fetch_relax_local = true;
  sign_outbound_get = false;
  actor_private_key_path = "";
  instance_actor_private_key_path = "";
  instance_name = "";
  delivery_max_attempts = 25;
  delivery_backoff_initial_sec = 30;
  delivery_backoff_max_sec = 86400;
  media_max_attachments_per_status = 0;
  media_allowed_mime_types = [];
}

abbrev handler : Handler
handler = record {
  cfg = config;
  local_actor_ids = some (("alice", 7) ∷ []);
  has_store = true;
  inbox_max_body = 0;
  outbox_post_secret = "s3";
  fetch_client = client;
  fetch_policy = none;
}

abbrev post : Request
post = record {
  method = "POST";
  escaped_path = "/inbox";
  raw_query = "";
  url_host = "here.example";
  host = "here.example";
  header =
      ("content-type", "application/activity+json" ∷ [])
      ∷ ("digest", "SHA-256=AQ==" ∷ [])
      ∷ ("date", "now" ∷ [])
      ∷ (
        "signature",
        "keyId=\"https://far.example/m\",algorithm=\"rsa-sha256\",headers=\"(request-target) host date digest\",signature=\"AQ==\""
            ∷ [],
      )
      ∷ [];
}

abbrev db : Db
db = record {
  actors = [];
  activities = [];
  objects = [];
  follows = [];
  likes = [];
  announces = [];
  blocks = [];
  jobs = [];
  next_actor = 8;
  next_activity = 1;
  next_edge = 1;
  next_job = 1;
}

abbrev after : Db
after = (shared_inbox platform codec handler 9 50 post (some "{}") db).1

abbrev later : Db
later = (shared_inbox platform codec handler 9 60 post (some "{}") after).1

accepts : shared_inbox platform codec handler 9 50 post (some "{}") db ≡ (accepted_reply, after)
unfolding shared_inbox get same_bytes equal_fold struct_string fields reference_iri after_last
    trim_slash
accepts = refl

accepts_again :
    shared_inbox platform codec handler 9 60 post (some "{}") after ≡ (accepted_reply, later)
unfolding shared_inbox get same_bytes equal_fold struct_string fields reference_iri after_last
    trim_slash
accepts_again = refl

stores : any_where (same_activity "https://far.example/a1") after.activities ≡ true
unfolding shared_inbox get same_bytes equal_fold struct_string fields reference_iri after_last
    trim_slash
stores = refl

shared_inbox_sound_example :
    SameRest db after
    × (SameJobs db after
        ⊎ ((accepted_reply ≡ accepted_reply)
            × ((v : Verified platform) × IsSigned platform codec handler 9 post (some "{}") v
                × IsStored 50 v.actor_iri v.activity_id v.activity_type v.raw db after)))
shared_inbox_sound_example =
    shared_inbox_sound platform codec handler 9 50 post (some "{}") db after accepted_reply accepts

shared_inbox_repeated_example : SameJobs after later
shared_inbox_repeated_example =
    shared_inbox_repeated platform codec handler 9 9 50 60 post (some "{}") db after later
      accepted_reply accepts accepts_again

abbrev like_fields : Fields
like_fields =
    ("to", arr (item (str "https://far.example/m") (item (str "https://far.example/m/") done))) ∷ []

resolves :
    resolve_delivery_inboxes client none config like_fields
    ≡ ok ("https://far.example/m/inbox" ∷ [])
unfolding resolve_delivery_inboxes lookup flatten_jsonld_refs trim_space listed skip_audience_entry
    is_local_actor_followers_or_following_collection_iri trim_right_slash hostname equal_fold
    inbox_url_from_reference to_string struct_string local_shared_inbox_url
resolves = refl

resolve_delivery_inboxes-IsTargets_example : IsTargets config ("https://far.example/m/inbox" ∷ [])
resolve_delivery_inboxes-IsTargets_example =
    resolve_delivery_inboxes-IsTargets client none config like_fields
      ("https://far.example/m/inbox" ∷ []) resolves

abbrev enqueued : Db
enqueued = (enqueue_deliveries 50 "alice" "a" note ("i" ∷ "j" ∷ []) db).1

enqueues : enqueue_deliveries 50 "alice" "a" note ("i" ∷ "j" ∷ []) db ≡ (ok tt, enqueued)
unfolding enqueue_deliveries enqueue
enqueues = refl

enqueue_deliveries-jobs_example :
    enqueued.jobs ≡ job_rows 1 50 (map (deliver_job "alice" "a" note) ("i" ∷ "j" ∷ []))
enqueue_deliveries-jobs_example =
    enqueue_deliveries-jobs 50 "alice" "a" note ("i" ∷ "j" ∷ []) db enqueued enqueues

refuses :
    post_outbox platform codec handler 50 "@alice" post (some "{}") db
    ≡ (http_error 401 "unauthorized", db)
unfolding post_outbox get trim_space outbox_bearer_authorized
refuses = refl

unauthorized : (post_outbox platform codec handler 50 "@alice" post (some "{}") db).0.status ≢ 202
unauthorized e = ground (arith, e, refuses)

post_outbox-rollback_example :
    (post_outbox platform codec handler 50 "@alice" post (some "{}") db).1
    ≡ rollback db (post_outbox platform codec handler 50 "@alice" post (some "{}") db).1
post_outbox-rollback_example =
    post_outbox-rollback platform codec handler 50 "@alice" post (some "{}") db unauthorized
