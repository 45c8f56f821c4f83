-- ===== src/Aphttp/Outbox.antt =====
-- aphttp/postoutbox.go and aphttp/publish_local.go: what an activity of a local actor stores and
-- enqueues, with the SQL queue. The whole of it is one transaction.
use activitypub_core.Common.{
  ℕ, String, Bool, true, false, not, ◌&&◌, Option, none, some, List, [], ◌∷◌, ◌==◌, leb, nat_eq,
  any_where, is_some, if◌then◌else◌,
}
use activitypub_core.Common.Text.{◌⧺◌, trim_space, trim_right_slash, equal_fold, after_last, cut}
use activitypub_core.Common.Exec.{Exec, Result, ok, err, failure, ◌>>=◌, ◌>>◌, pure, lift}
use activitypub_core.Json.{
  Json, obj, Members, last, member, Raw, json, no_bytes, malformed, Fields, as_string, as_object,
  lookup,
}
use activitypub_core.As2.{object_iri, actor_iri_from_activity}
use activitypub_core.Config.{
  Config, local_username_for_inbound_follow_object, local_actor_profile_url,
}
use activitypub_core.Url.{parse, hostname}
use activitypub_core.Store.{Db, pending_remote, deliver_activity, deliver}
use activitypub_core.Store.Follows.{
  own_follow, delete_follow_by_follow_activity_id_for_follower, upsert_follow,
}
use activitypub_core.Store.Interactions.{
  canonical_actor_url, own_edge, upsert_federated_like, upsert_federated_announce,
  delete_federated_like_by_activity_id, delete_federated_announce_by_activity_id,
  delete_federated_block_by_activity_id,
}
use activitypub_core.Store.Actors.{ensure_remote_actor}
use activitypub_core.Store.Activities.{insert_inbound_activity}
use activitypub_core.Store.Resolve.{resolve_local_followee_from_object_iri}
use activitypub_core.Queue.{Job, enqueue}
use activitypub_core.Httpsig.Request.{Request, get}
use activitypub_core.Httpsig.Sign.{Platform}
use activitypub_core.Aphttp.Fields.{
  Handler, Codec, Reply, http_error, accepted_reply, not_found, is_local_actor, local_actor_id,
  is_activity_json_content_type, json_string_field, activity_type_string, parse_at_handle,
  max_or_default,
}
use activitypub_core.Aphttp.Inbox.{rollback, process_job, error_text}
use activitypub_core.Aphttp.Audience.{append_follower_cc_for_public_posts, resolve_delivery_inboxes}

-- Of two members with one name the later one is the map's.
abbrev pub to_members : Fields → Members
to_members [] = last
to_members ((k, j) ∷ fs) =
    let rest = to_members fs in if is_some (lookup k fs) then rest else member k j rest

-- `json.Marshal(rawFields)`
unfoldable pub marshal : Fields → Json
unfolding lookup
marshal m = obj (to_members m)

unfoldable pub normalized_outbox_activity_type : String → String
unfolding trim_space after_last
normalized_outbox_activity_type t = elim (after_last b'#' (trim_space t)) [
  | none ↦ trim_space t
  | some rest ↦ rest
]

abbrev nonblank : Option String → Option String
nonblank none = none
nonblank (some s) = if trim_space s == "" then none else some (trim_space s)

unfoldable pub undo_object_target_iri : Fields → Result String
unfolding lookup as_string as_object trim_space
undo_object_target_iri m = elim (lookup "object" m) [
  | none ↦ err (failure "undo missing object")
  | some raw ↦ elim (nonblank (as_string raw)) [
    | some s ↦ ok s
    | none ↦ elim (as_object raw) [
      | none ↦ err (failure "undo object")
      | some fields ↦ elim (lookup "id" fields) [
        | none ↦ err (failure "undo object missing id")
        | some id ↦ elim (nonblank (as_string id)) [
          | none ↦ err (failure "undo object invalid id")
          | some s ↦ ok s
        ]
      ]
    ]
  ]
]

-- The first statement that deletes a row is the last one.
unfoldable pub delete_first : ℕ → String → Exec Db (Unit {0})
delete_first actor target s =
    if any_where (own_follow target actor) s.follows
    then delete_follow_by_follow_activity_id_for_follower target actor s
    else if any_where (own_edge target actor) s.likes
    then delete_federated_like_by_activity_id target actor s
    else if any_where (own_edge target actor) s.announces
    then delete_federated_announce_by_activity_id target actor s
    else delete_federated_block_by_activity_id target actor s

unfoldable pub record_outbox_undo_effects : ℕ → Fields → Exec Db (Unit {0})
unfolding undo_object_target_iri delete_first
record_outbox_undo_effects actor m = do
  target ← lift (undo_object_target_iri m)
  delete_first actor target

abbrev same_host : String → String → Bool
same_host base iri = elim (parse (trim_space iri)) [
  | none ↦ false
  | some u ↦ not (hostname u == "") && equal_fold (hostname u) base
]

unfoldable pub ensure_remote_followee : Config → String → Exec Db ℕ
unfolding parse hostname trim_space equal_fold canonical_actor_url
ensure_remote_followee cfg iri s = elim (parse (trim_space cfg.public_base_url)) [
  | none ↦ (err (failure "invalid instance config"), s)
  | some base ↦
      if hostname base == ""
      then (err (failure "invalid instance config"), s)
      else if same_host (hostname base) iri
      then (err (failure "follow object is not a local actor"), s)
      else ensure_remote_actor (canonical_actor_url iri) "(remote-followee)" s
]

unfoldable pub resolve_followee_actor_id : Config → String → Exec Db ℕ
unfolding ensure_remote_followee
resolve_followee_actor_id cfg iri s =
    let (found, t) = resolve_local_followee_from_object_iri cfg iri s in
    elim found [ ok (id, _) ↦ (ok id, t) | err _ ↦ ensure_remote_followee cfg iri t ]

unfoldable pub record_follow : Config → ℕ → String → String → ℕ → Exec Db Bool
unfolding canonical_actor_url
record_follow cfg actor activity_id iri followee s =
    if nat_eq followee actor
    then (err (failure "cannot follow self"), s)
    else if is_some (local_username_for_inbound_follow_object cfg (canonical_actor_url iri))
    then (ok true, s)
    else (do upsert_follow actor followee activity_id pending_remote; pure false) s

-- `true` is `enqueueInboxProcess`.
unfoldable pub record_outbox_follow_effects : Config → ℕ → String → String → Fields → Exec Db Bool
unfolding normalized_outbox_activity_type record_outbox_undo_effects resolve_followee_actor_id
    record_follow canonical_actor_url
record_outbox_follow_effects cfg actor activity_id activity_type m =
    let t = normalized_outbox_activity_type activity_type in
    if equal_fold t "Follow"
    then (do
      iri ← lift (object_iri m)
      followee ← resolve_followee_actor_id cfg iri
      record_follow cfg actor activity_id iri followee)
    else if equal_fold t "Like"
    then (do
      iri ← lift (object_iri m)
      upsert_federated_like actor (canonical_actor_url iri) activity_id
      pure false)
    else if equal_fold t "Announce"
    then (do
      iri ← lift (object_iri m)
      upsert_federated_announce actor (canonical_actor_url iri) activity_id
      pure false)
    else if equal_fold t "Undo"
    then (do record_outbox_undo_effects actor m; pure false)
    else pure false

abbrev pub deliver_job : String → String → Json → String → Job
deliver_job username activity_id body inbox = record {
  job_type = deliver_activity;
  payload = deliver (record {
    inbox_url = inbox;
    body = some body;
    local_username = username;
    signing_username = username;
  });
  idempotency_key = activity_id ⧺ "|" ⧺ inbox;
  run_after = none;
}

unfoldable pub enqueue_deliveries : ℕ → String → String → Json → List String → Exec Db (Unit {0})
unfolding ◌⧺◌
enqueue_deliveries now username activity_id body [] s = (ok tt, s)
enqueue_deliveries now username activity_id body (inbox ∷ inboxes) s =
    let (queued, t) = enqueue now (deliver_job username activity_id body inbox) s in
    elim queued [
      | err e ↦ (err e, t)
      | ok _ ↦ enqueue_deliveries now username activity_id body inboxes t
    ]

unfoldable pub enqueue_process : ℕ → ℕ → String → Bool → Exec Db (Unit {0})
enqueue_process now id activity_id false s = (ok tt, s)
enqueue_process now id activity_id true s = enqueue now (process_job id activity_id) s

-- `tx.Commit` for a result, `tx.Rollback` for an error.
abbrev pub transaction : {A : Type 0} → Exec Db A → Exec Db A
transaction m s = let (r, t) = m s in elim r [ ok a ↦ (ok a, t) | err e ↦ (err e, rollback s t) ]

-- What a new activity of the local actor causes.
unfoldable pub publish_new :
    ℕ → Config → String → ℕ → String → String → Json → Fields → List String → ℕ → Exec Db (Unit {0})
publish_new now cfg username actor activity_id activity_type body m inboxes id = do
  process ← record_outbox_follow_effects cfg actor activity_id activity_type m
  enqueue_deliveries now username activity_id body inboxes
  enqueue_process now id activity_id process

unfoldable pub insert_and_publish :
    ℕ → Config → String → ℕ → String → String → Json → Fields → List String → Exec Db (Unit {0})
insert_and_publish now cfg username actor activity_id activity_type body m inboxes s =
    let (inserted, t) = insert_inbound_activity actor activity_id activity_type body s in
    elim inserted [
      | err e ↦ (err e, t)
      | ok none ↦ (ok tt, t)
      | ok (some id) ↦
          publish_new now cfg username actor activity_id activity_type body m inboxes id t
    ]

unfoldable pub persist_outbox_and_enqueue :
    ℕ → Config → String → ℕ → Json → Fields → List String → Exec Db (Unit {0})
persist_outbox_and_enqueue now cfg username actor body m inboxes = do
  activity_id ← lift (json_string_field m "id")
  activity_type ← lift (activity_type_string m)
  transaction (insert_and_publish now cfg username actor activity_id activity_type body m inboxes)

-- `r.Header.Get("Authorization")`; the secret is compared as it is configured.
unfoldable pub outbox_bearer_authorized : String → String → Bool
unfolding trim_space cut equal_fold
outbox_bearer_authorized header secret = elim (cut b' ' (trim_space header)) [
  | none ↦ false
  | some (scheme, rest) ↦ equal_fold scheme "Bearer" && trim_space rest == secret
]

-- The activity must be of the local user; the answer is its fields.
unfoldable pub checked_fields : Config → String → Raw → Result Fields
unfolding as_object json_string_field activity_type_string actor_iri_from_activity
    local_actor_profile_url trim_right_slash
checked_fields cfg username no_bytes = err (failure "invalid activity json")
checked_fields cfg username malformed = err (failure "invalid activity json")
checked_fields cfg username (json j) = elim (as_object j) [
  | none ↦ err (failure "invalid activity json")
  | some m ↦ elim (json_string_field m "id") [
    | err e ↦ err e
    | ok _ ↦ elim (activity_type_string m) [
      | err e ↦ err e
      | ok _ ↦ elim (actor_iri_from_activity m) [
        | err e ↦ err e
        | ok iri ↦
            if trim_right_slash iri == trim_right_slash (local_actor_profile_url cfg username)
            then ok m
            else err (failure "activity actor must be the local user")
      ]
    ]
  ]
]

module _ (p : Platform) (codec : Codec p) (h : Handler) where
  -- From the checked fields: the audience, the inboxes, the transaction. An error of the inboxes is
  -- told apart, as its status is another one.
  unfoldable pub deliver_fields : ℕ → String → ℕ → Fields → Exec Db (Unit {0})
  deliver_fields now username actor m s =
      let m' = append_follower_cc_for_public_posts actor m s in
      elim (resolve_delivery_inboxes h.fetch_client h.fetch_policy h.cfg m') [
        | err e ↦ (err e, s)
        | ok inboxes ↦ persist_outbox_and_enqueue now h.cfg username actor (marshal m') m' inboxes s
      ]

  abbrev is_configured : Bool
  is_configured =
      not (h.cfg.public_base_url == "")
      && h.has_store
      && elim h.local_actor_ids [ some (_ ∷ _) ↦ true | _ ↦ false ]

  unfoldable pub publish_local_activity_bytes : ℕ → String → String → Exec Db (Unit {0})
  publish_local_activity_bytes now username body s =
      if not is_configured
      then (err (failure "server not configured"), s)
      else elim (local_actor_id h username) [
        | none ↦ (err (failure "unknown local user"), s)
        | some actor ↦ elim (checked_fields h.cfg username (codec.parse_json body)) [
          | err e ↦ (err e, s)
          | ok m ↦ deliver_fields now username actor m s
        ]
      ]

  -- The answer for an error: 400 for one of the inboxes, 500 for one of the transaction.
  abbrev delivery_reply : ℕ → Fields → Result (Unit {0}) → Db → Reply
  delivery_reply actor m (ok _) s = accepted_reply
  delivery_reply actor m (err e) s =
      elim (resolve_delivery_inboxes h.fetch_client h.fetch_policy h.cfg
        (append_follower_cc_for_public_posts actor m s)) [
          | err _ ↦ http_error 400 (error_text e)
          | ok _ ↦ http_error 500 (error_text e)
        ]

  unfoldable pub post_activity : ℕ → String → ℕ → Raw → Db → Reply × Db
  post_activity now username actor raw s = elim (checked_fields h.cfg username raw) [
    | err e ↦ (http_error 400 (error_text e), s)
    | ok m ↦ let (r, t) = deliver_fields now username actor m s in (delivery_reply actor m r s, t)
  ]

  -- `handle` is the path value.
  unfoldable pub post_outbox : ℕ → String → Request → Option String → Db → Reply × Db
  post_outbox now handle r body s =
      if not (r.method == "POST")
      then (http_error 405 "method not allowed", s)
      else if trim_space h.outbox_post_secret == ""
      then (http_error 503 "outbound post not configured", s)
      else if not (outbox_bearer_authorized (get "authorization" r.header) h.outbox_post_secret)
      then (http_error 401 "unauthorized", s)
      else if not is_configured
      then (http_error 503 "server not configured", s)
      else elim (parse_at_handle handle) [
        | none ↦ (not_found, s)
        | some username ↦
            if not (is_local_actor h username)
            then (not_found, s)
            else elim (local_actor_id h username) [
              | none ↦ (http_error 503 "server not configured", s)
              | some actor ↦
                  if not (is_activity_json_content_type (get "content-type" r.header))
                  then (http_error 415 "unsupported content type", s)
                  else elim body [
                    | none ↦ (http_error 400 "read body", s)
                    | some b ↦
                        if leb (codec.byte_length b) (max_or_default h.inbox_max_body)
                        then post_activity now username actor (codec.parse_json b) s
                        else (http_error 413 "payload too large", s)
                  ]
            ]
      ]
