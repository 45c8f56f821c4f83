-- ===== src/Aphttp/InboxRepeated.antt =====
-- A request to the shared inbox that comes again.
use activitypub_core.Common.{
  ◌≡◌, ◌≢◌, refl, subst, sym, ◌∙◌, inl, inr, ℕ, String, true, false, Option, none, some, List, [],
  ◌∷◌, ◌++◌, Bool, eq_iff, leb, ◌==◌, arith, any_where, Bool-cases, Option-cases,
}
use activitypub_core.Common.Exec.{ok, Result-cases}
use activitypub_core.Json.{Json, Raw}
use activitypub_core.Store.{ActivityRow, Db}
use activitypub_core.Store.Actors.{ensure_remote_actor}
use activitypub_core.Store.Activities.{same_activity, typ_or_unknown}
use activitypub_core.Queue.{has_key}
use activitypub_core.Fetch.PublicKey.{public_key_for_key_id}
use activitypub_core.Httpsig.Request.{Request, get}
use activitypub_core.Httpsig.Parse.{Params, parse_signature_header, param_or_empty}
use activitypub_core.Httpsig.Sign.{Platform}
use activitypub_core.Httpsig.Verify.{verify_request}
use activitypub_core.Aphttp.Fields.{
  is_activity_json_content_type, max_or_default, Handler, Codec, Reply, accepted_reply,
}
use activitypub_core.Aphttp.Inbox.{
  store_activity, Verified, passed, refused, check_request, check_signature, check_activity,
  accept_activity, shared_inbox,
}
use activitypub_core.Aphttp.Stored.{SameJobs, IsStored}
use activitypub_core.Aphttp.InboxLaws.{Checked-cases, passed_injective, accept_activity-cases}

append_has :
    (q : ActivityRow → Bool) (xs : List ActivityRow) (new : ActivityRow)
    → q new ≡ true
    → any_where q (xs ++ new ∷ []) ≡ true
append_has q [] new t = ground (arith, t)
append_has q (x ∷ xs) new t = ground (arith, append_has q xs new)

IsStored-has :
    (now : ℕ) (actor_iri activity_id activity_type : String) (raw : Json) (s t : Db)
    → IsStored now actor_iri activity_id activity_type raw s t
    → any_where (same_activity activity_id) t.activities ≡ true
IsStored-has now actor_iri activity_id activity_type raw s t x = rw x.activities (
    append_has (same_activity activity_id) s.activities _ ((eq_iff activity_id activity_id).1 refl))

store_activity-has :
    (now actor : ℕ) (activity_id activity_type : String) (raw : Json) (s t : Db)
    → store_activity now actor activity_id activity_type raw s ≡ (accepted_reply, t)
    → any_where (same_activity activity_id) t.activities ≡ true
unfolding store_activity
store_activity-has now actor activity_id activity_type raw s t e =
    elim (Bool-cases (any_where (same_activity activity_id) s.activities)) [
      | inl there ↦ ground (arith, e, there)
      | inr absent ↦ elim (Bool-cases (any_where (has_key activity_id) s.jobs)) [
        | inl taken ↦ absurd (ground (arith, e, absent, taken))
        | inr free ↦
            let stored : s.activities ++ _ ∷ [] ≡ t.activities = ground (arith, e, absent, free) in
            rw (← stored) (
              append_has (same_activity activity_id) s.activities
                (record {
                  id = s.next_activity;
                  activity_id = activity_id;
                  actor_id = actor;
                  typ = typ_or_unknown activity_type;
                  raw_json = raw;
                  deleted = false;
                })
                ((eq_iff activity_id activity_id).1 refl))
      ]
    ]

store_activity-repeated :
    (now actor : ℕ) (activity_id activity_type : String) (raw : Json) (s : Db)
    → any_where (same_activity activity_id) s.activities ≡ true
    → SameJobs s (store_activity now actor activity_id activity_type raw s).1
unfolding store_activity
store_activity-repeated now actor activity_id activity_type raw s there = ground (arith, there)

module _ (p : Platform) (codec : Codec p) (h : Handler) where
  accept_activity-has :
      (db_now : ℕ) (v : Verified p) (s t : Db)
      → h.has_store ≡ true
      → accept_activity p codec h db_now v s ≡ (accepted_reply, t)
      → any_where (same_activity v.activity_id) t.activities ≡ true
  unfolding accept_activity
  accept_activity-has db_now v s t on e = elim (Option-cases (codec.public_key_pem v.key)) [
    | inl bad ↦ absurd (ground (arith, e, on, bad))
    | inr (pem, good) ↦ elim (Result-cases (ensure_remote_actor v.actor_iri pem s).0) [
      | inr (x, failed) ↦ absurd (ground (arith, e, on, good, failed))
      | inl (id, made) ↦
          store_activity-has db_now id v.activity_id v.activity_type v.raw
            (ensure_remote_actor v.actor_iri pem s).1 t (ground (arith, e, on, good, made))
    ]
  ]

  -- An activity that is stored already: whatever happens, nothing is stored or enqueued again.
  accept_activity-repeated :
      (db_now : ℕ) (v : Verified p) (s t : Db) (reply : Reply)
      → (h.has_store ≡ true → any_where (same_activity v.activity_id) s.activities ≡ true)
      → accept_activity p codec h db_now v s ≡ (reply, t)
      → SameJobs s t
  unfolding accept_activity
  accept_activity-repeated db_now v s t reply there e =
      elim (accept_activity-cases p codec h db_now v s t reply e).1 [
        | inl same ↦ same
        | inr (_, x) ↦ elim (Bool-cases h.has_store) [
          | inl on ↦ absurd (ground (arith, there on, x.is_new))
          | inr off ↦ ground (arith, e, off)
        ]
      ]

  activity_of :
      (now : ℕ) (r : Request) (text : String) (params : Params) (key : p.PublicKey) (v : Verified p)
      → check_signature p codec h now r text ≡ passed v
      → parse_signature_header (get "signature" r.header) ≡ ok params
      → public_key_for_key_id codec.parse_pem h.fetch_client h.fetch_policy
          (some h.cfg)
          (param_or_empty "keyid" params)
        ≡ ok key
      → check_activity p codec h (param_or_empty "keyid" params) key (codec.parse_json text)
        ≡ passed v
  unfolding check_signature
  activity_of now r text params key v e read known =
      elim (Result-cases (verify_request p now r text key)) [
        | inr (x, forged) ↦ absurd (ground (arith, e, read, known, forged))
        | inl (u, signed) ↦ ground (arith, e, read, known, signed)
      ]

  check_signature-same :
      (now later : ℕ) (r : Request) (text : String) (v w : Verified p)
      → check_signature p codec h now r text ≡ passed v
      → check_signature p codec h later r text ≡ passed w
      → v ≡ w
  unfolding check_signature
  check_signature-same now later r text v w e f =
      elim (Result-cases (parse_signature_header (get "signature" r.header))) [
        | inr (x, bad) ↦ absurd (ground (arith, e, bad))
        | inl (params, read) ↦
            elim (Result-cases (
              public_key_for_key_id codec.parse_pem h.fetch_client h.fetch_policy (some h.cfg)
                (param_or_empty "keyid" params))) [
                  | inr (x, unknown) ↦ absurd (ground (arith, e, read, unknown))
                  | inl (key, known) ↦ passed_injective p codec h v w (
                      sym (activity_of now r text params key v e read known)
                      ∙ activity_of later r text params key w f read known)
                ]
      ]

  check_request-same :
      (now later : ℕ) (r : Request) (body : Option String) (v w : Verified p)
      → check_request p codec h now r body ≡ passed v
      → check_request p codec h later r body ≡ passed w
      → v ≡ w
  unfolding check_request
  check_request-same now later r none v w e f = absurd (ground (arith, e))
  check_request-same now later r (some text) v w e f =
      check_signature-same now later r text v w (ground (arith, e)) (ground (arith, f))

  check_activity-refused :
      (key_id : String) (key : p.PublicKey) (raw : Raw) (reply : Reply)
      → check_activity p codec h key_id key raw ≡ refused reply
      → reply.status ≢ 202
  unfolding check_activity
  check_activity-refused key_id key raw reply e q = ground (arith, e, q)

  check_signature-refused :
      (now : ℕ) (r : Request) (text : String) (reply : Reply)
      → check_signature p codec h now r text ≡ refused reply
      → reply.status ≢ 202
  unfolding check_signature
  check_signature-refused now r text reply e q =
      elim (Result-cases (parse_signature_header (get "signature" r.header))) [
        | inr (x, bad) ↦ ground (arith, e, q, bad)
        | inl (params, read) ↦
            let id = param_or_empty "keyid" params in
            elim (Result-cases (
              public_key_for_key_id codec.parse_pem h.fetch_client h.fetch_policy (some h.cfg)
                id)) [
                  | inr (x, unknown) ↦ ground (arith, e, q, read, unknown)
                  | inl (key, known) ↦ elim (Result-cases (verify_request p now r text key)) [
                    | inr (x, forged) ↦ ground (arith, e, q, read, known, forged)
                    | inl (u, signed) ↦ ground (
                      arith,
                      e,
                      q,
                      read,
                      known,
                      signed,
                      check_activity-refused id key (codec.parse_json text) reply,
                    )
                  ]
                ]
      ]

  check_request-refused :
      (now : ℕ) (r : Request) (body : Option String) (reply : Reply)
      → check_request p codec h now r body ≡ refused reply
      → reply.status ≢ 202
  unfolding check_request
  check_request-refused now r none reply e q = ground (arith, e, q)
  check_request-refused now r (some text) reply e q = elim (Bool-cases (r.method == "POST")) [
    | inr other ↦ ground (arith, e, q, other)
    | inl post ↦ elim (Bool-cases (is_activity_json_content_type (get "content-type" r.header))) [
      | inr other ↦ ground (arith, e, q, post, other)
      | inl typed ↦
          elim (Bool-cases (leb (codec.byte_length text) (max_or_default h.inbox_max_body))) [
            | inr large ↦ ground (arith, e, q, post, typed, large)
            | inl small ↦
                check_signature-refused now r text reply (ground (arith, e, post, typed, small)) q
          ]
    ]
  ]

  -- A request that was answered 202 and comes again changes neither activities nor jobs.
  pub shared_inbox_repeated :
      (now later db_now db_later : ℕ) (r : Request) (body : Option String) (s t u : Db)
      (reply : Reply)
      → shared_inbox p codec h now db_now r body s ≡ (accepted_reply, t)
      → shared_inbox p codec h later db_later r body t ≡ (reply, u)
      → SameJobs t u
  unfolding shared_inbox
  shared_inbox_repeated now later db_now db_later r body s t u reply e f =
      elim (Checked-cases (check_request p codec h later r body)) [
        | inl (other, bad) ↦ ground (arith, f, bad)
        | inr (w, again) ↦ elim (Checked-cases (check_request p codec h now r body)) [
          | inl (other, bad) ↦
              absurd (check_request-refused now r body other bad (ground (arith, e, bad)))
          | inr (v, good) ↦
              let same = check_request-same now later r body v w good again in
              accept_activity-repeated db_later w t u reply
                (λ on.
                  subst (λ x. any_where (same_activity x.activity_id) t.activities ≡ true) same
                    (accept_activity-has db_now v s t on (ground (arith, e, good))))
                (ground (arith, f, again))
        ]
      ]
