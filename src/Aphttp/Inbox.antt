-- ===== src/Aphttp/Inbox.antt =====
-- aphttp/handlers.go: SharedInbox and LegacyUsersPathInbox, with the SQL queue. The request's body
-- is `none` where reading it fails. The actor is stored before the transaction of the activity and
-- its job; a transaction that is given up leaves the tables, and not the serials, as they were.
use activitypub_core.Common.{
  ℕ, String, Bool, not, ◌||◌, Option, none, some, ◌==◌, leb, if◌then◌else◌,
}
use activitypub_core.Common.Text.{trim_space}
use activitypub_core.Common.Exec.{
  Error, no_rows, unique_violation, http_delivery, Result, ok, err, failure,
}
use activitypub_core.Json.{Json, null, Raw, json, no_bytes, malformed, Fields, as_object}
use activitypub_core.As2.{actor_iri_from_activity}
use activitypub_core.Url.{unescape}
use activitypub_core.Store.{Db, process_inbox_activity, process}
use activitypub_core.Store.Actors.{ensure_remote_actor}
use activitypub_core.Store.Activities.{insert_inbound_activity}
use activitypub_core.Queue.{Job, enqueue}
use activitypub_core.Fetch.PublicKey.{public_key_for_key_id}
use activitypub_core.Httpsig.Request.{Request, get}
use activitypub_core.Httpsig.Parse.{parse_signature_header, param_or_empty}
use activitypub_core.Httpsig.Sign.{Platform}
use activitypub_core.Httpsig.Verify.{verify_request}
use activitypub_core.Aphttp.Fields.{
  Handler, Codec, Reply, http_error, accepted_reply, not_found, is_local_actor,
  is_activity_json_content_type, json_string_field, activity_type_string,
  signing_actor_matches_key_id, max_or_default,
}

-- `defer tx.Rollback`: the tables of `s` with the serials of `t`.
abbrev pub rollback : Db → Db → Db
rollback s t = record s {
  next_actor = t.next_actor;
  next_activity = t.next_activity;
  next_edge = t.next_edge;
  next_job = t.next_job;
}

abbrev pub process_job : ℕ → String → Job
process_job id activity_id = record {
  job_type = process_inbox_activity;
  payload = process id;
  idempotency_key = activity_id;
  run_after = none;
}

-- The transaction: the activity, and a job for one that was not there.
unfoldable pub store_activity : ℕ → ℕ → String → String → Json → Db → Reply × Db
unfolding insert_inbound_activity enqueue
store_activity now actor activity_id activity_type raw s =
    let (inserted, t) = insert_inbound_activity actor activity_id activity_type raw s in
    elim inserted [
      | err _ ↦ (http_error 500 "persist activity", rollback s t)
      | ok none ↦ (accepted_reply, t)
      | ok (some id) ↦
          let (queued, u) = enqueue now (process_job id activity_id) t in
          elim queued [
            | err _ ↦ (http_error 500 "enqueue job", rollback s u)
            | ok _ ↦ (accepted_reply, u)
          ]
    ]

-- What the checks of a request give: an answer, or what was checked.
pub data Checked {ℓ} (A : Type ℓ) : Type ℓ where
  refused : Reply → Checked A
  passed : A → Checked A

-- `if err != nil { http.Error(w, message, status); return }`
abbrev pub or_refuse {ℓ κ} :
    {A : Type ℓ} {B : Type κ} → Result A → Reply → (A → Checked B) → Checked B
or_refuse (err e) reply k = refused reply
or_refuse (ok a) reply k = k a

-- `err.Error()`
abbrev pub error_text : Error → String
error_text no_rows = "no rows in result set"
error_text unique_violation = "unique violation"
error_text (http_delivery n) = "http"
error_text (failure message) = message

-- `if err != nil { http.Error(w, err.Error(), http.StatusBadRequest); return }`
abbrev pub or_bad_request {ℓ κ} : {A : Type ℓ} {B : Type κ} → Result A → (A → Checked B) → Checked B
or_bad_request (err e) k = refused (http_error 400 (error_text e))
or_bad_request (ok a) k = k a

abbrev pub unless {ℓ} : {A : Type ℓ} → Bool → Reply → Checked A → Checked A
unless b reply k = if b then k else refused reply

pub record Verified (p : Platform) : Type 0 where
  pub key_id : String
  pub key : p.PublicKey
  pub activity_id : String
  pub activity_type : String
  pub actor_iri : String
  pub raw : Json

abbrev fields_of : Raw → Result Fields
fields_of no_bytes = err (failure "invalid activity json")
fields_of malformed = err (failure "invalid activity json")
fields_of (json j) = elim (as_object j) [
  | none ↦ err (failure "invalid activity json")
  | some m ↦ ok m
]

abbrev json_of : Raw → Json
json_of no_bytes = null
json_of malformed = null
json_of (json j) = j

module _ (p : Platform) (codec : Codec p) (h : Handler) where
  -- The activity of a body that the key has signed.
  unfoldable pub check_activity : String → p.PublicKey → Raw → Checked (Verified p)
  unfolding as_object json_string_field activity_type_string actor_iri_from_activity
      signing_actor_matches_key_id
  check_activity key_id key raw =
      or_refuse (fields_of raw) (http_error 400 "invalid activity json") λ m.
        or_bad_request (json_string_field m "id") λ activity_id.
          or_bad_request (activity_type_string m) λ activity_type.
            or_bad_request (actor_iri_from_activity m) λ actor_iri.
              unless (signing_actor_matches_key_id key_id actor_iri)
                (http_error 401 "signature actor does not match activity actor")
                (passed (record {
                  key_id = key_id;
                  key = key;
                  activity_id = activity_id;
                  activity_type = activity_type;
                  actor_iri = actor_iri;
                  raw = json_of raw;
                }))

  -- The key id, the key and the signature; `now` is the clock of the date check.
  unfoldable pub check_signature : ℕ → Request → String → Checked (Verified p)
  unfolding get parse_signature_header param_or_empty public_key_for_key_id verify_request
      check_activity
  check_signature now r body =
      let header = get "signature" r.header in
      unless (not (header == "")) (http_error 401 "missing Signature header") (
        or_refuse (parse_signature_header header) (http_error 401 "invalid Signature header")
          λ params.
            let key_id = param_or_empty "keyid" params in
            unless (not (key_id == "")) (http_error 401 "missing keyId in signature") (
              or_refuse
                (public_key_for_key_id codec.parse_pem h.fetch_client h.fetch_policy (some h.cfg)
                  key_id)
                (http_error 401 "could not resolve actor signing key")
                λ key.
                  or_refuse (verify_request p now r body key)
                    (http_error 401 "invalid digest or HTTP signature")
                    λ _. check_activity key_id key (codec.parse_json body)))

  unfoldable pub check_request : ℕ → Request → Option String → Checked (Verified p)
  unfolding is_activity_json_content_type check_signature
  check_request now r none = unless (r.method == "POST") (http_error 405 "method not allowed") (
      unless (is_activity_json_content_type (get "content-type" r.header))
        (http_error 415 "unsupported content type") (refused (http_error 400 "read body")))
  check_request now r (some body) =
      unless (r.method == "POST") (http_error 405 "method not allowed") (
        unless (is_activity_json_content_type (get "content-type" r.header))
          (http_error 415 "unsupported content type")
          (unless (leb (codec.byte_length body) (max_or_default h.inbox_max_body))
            (http_error 413 "payload too large") (check_signature now r body)))

  -- A verified activity: its actor, then the transaction. `db_now` is the clock of the database.
  unfoldable pub accept_activity : ℕ → Verified p → Db → Reply × Db
  unfolding ensure_remote_actor store_activity
  accept_activity db_now v s =
      if not h.has_store then (accepted_reply, s) else elim (codec.public_key_pem v.key) [
        | none ↦ (http_error 500 "internal key encoding", s)
        | some pem ↦
            let (actor, t) = ensure_remote_actor v.actor_iri pem s in
            elim actor [
              | err _ ↦ (http_error 500 "persist actor", t)
              | ok id ↦ store_activity db_now id v.activity_id v.activity_type v.raw t
            ]
      ]

  unfoldable pub shared_inbox : ℕ → ℕ → Request → Option String → Db → Reply × Db
  unfolding check_request accept_activity
  shared_inbox now db_now r body s = elim (check_request now r body) [
    | refused reply ↦ (reply, s)
    | passed v ↦ accept_activity db_now v s
  ]

  -- `raw` is the path value `username`.
  unfoldable pub legacy_users_path_inbox :
      String → ℕ → ℕ → Request → Option String → Db → Reply × Db
  unfolding unescape trim_space is_local_actor shared_inbox
  legacy_users_path_inbox raw now db_now r body s =
      if not (r.method == "POST")
      then (http_error 405 "method not allowed", s)
      else elim (unescape raw) [
        | none ↦ (not_found, s)
        | some uname ↦
            if trim_space uname == "" || not (is_local_actor h uname)
            then (not_found, s)
            else shared_inbox now db_now r body s
      ]
