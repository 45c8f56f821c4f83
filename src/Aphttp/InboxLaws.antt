-- ===== src/Aphttp/InboxLaws.antt =====
-- What a request to the shared inbox can change.
use activitypub_core.Common.{
  ◌≡◌, refl, subst, sym, ◌⊎◌, inl, inr, ℕ, String, true, Option, none, some, arith, Bool-cases,
  Option-cases,
}
use activitypub_core.Common.Exec.{ok, Result-cases}
use activitypub_core.Json.{Raw, json, no_bytes, malformed, Fields, as_object}
use activitypub_core.As2.{actor_iri_from_activity}
use activitypub_core.Store.{Db}
use activitypub_core.Store.Actors.{ensure_remote_actor}
use activitypub_core.Fetch.PublicKey.{public_key_for_key_id}
use activitypub_core.Httpsig.Request.{Request, get}
use activitypub_core.Httpsig.Parse.{Params, parse_signature_header, param_or_empty}
use activitypub_core.Httpsig.Sign.{Platform}
use activitypub_core.Httpsig.Verify.{verify_request}
use activitypub_core.Aphttp.Fields.{
  Handler, Codec, Reply, accepted_reply, json_string_field, activity_type_string,
  signing_actor_matches_key_id,
}
use activitypub_core.Aphttp.Inbox.{
  store_activity, Checked, Verified, passed, refused, check_request, check_signature,
  check_activity, accept_activity, shared_inbox,
}
use activitypub_core.Aphttp.Stored.{
  SameJobs, SameRest, IsStored, ensure_remote_actor-SameJobs, ensure_remote_actor-IsActorId,
  IsStored-before, store_activity-SameRest, store_activity-cases,
}

pub Checked-cases {ℓ} :
    {A : Type ℓ} (c : Checked A)
    → ((reply : Reply) × (c ≡ refused reply)) ⊎ ((a : A) × (c ≡ passed a))
Checked-cases (refused reply) = inl (reply, refl)
Checked-cases (passed a) = inr (a, refl)

module _ (p : Platform) (codec : Codec p) (h : Handler) where
  -- The body is an activity: its value, its fields, and what they give.
  pub record IsActivity (raw : Raw) (v : Verified p) : Type 0 where
    pub fields : Fields
    pub is_value : raw ≡ json v.raw
    pub is_fields : as_object v.raw ≡ some fields
    pub is_id : json_string_field fields "id" ≡ ok v.activity_id
    pub is_type : activity_type_string fields ≡ ok v.activity_type
    pub is_actor : actor_iri_from_activity fields ≡ ok v.actor_iri

  -- The key of the key id has signed the request, and the key id is that of the activity's actor.
  pub record IsSigned (now : ℕ) (r : Request) (body : Option String) (v : Verified p) : Type 0 where
    pub text : String
    pub params : Params
    pub is_body : body ≡ some text
    pub is_header : parse_signature_header (get "signature" r.header) ≡ ok params
    pub is_key_id : v.key_id ≡ param_or_empty "keyid" params
    pub is_key :
        public_key_for_key_id codec.parse_pem h.fetch_client h.fetch_policy (some h.cfg) v.key_id
        ≡ ok v.key
    pub is_signed : verify_request p now r text v.key ≡ ok tt
    pub is_activity : IsActivity (codec.parse_json text) v
    pub same_actor : signing_actor_matches_key_id v.key_id v.actor_iri ≡ true

  pub passed_injective : (v w : Verified p) → passed v ≡ passed w → v ≡ w
  passed_injective v w e = cc

  check_activity-passed :
      (key_id : String) (key : p.PublicKey) (raw : Raw) (v : Verified p)
      → check_activity p codec h key_id key raw ≡ passed v
      → (v.key_id ≡ key_id)
        × (v.key ≡ key)
        × (signing_actor_matches_key_id v.key_id v.actor_iri ≡ true)
        × IsActivity raw v
  unfolding check_activity
  check_activity-passed key_id key no_bytes v e = absurd (ground (arith, e))
  check_activity-passed key_id key malformed v e = absurd (ground (arith, e))
  check_activity-passed key_id key (json j) v e =
      let PassedAs : Verified p → Type 0 = λ w.
        (w.key_id ≡ key_id)
        × (w.key ≡ key)
        × (signing_actor_matches_key_id w.key_id w.actor_iri ≡ true)
        × IsActivity (json j) w in
      elim (Option-cases (as_object j)) [
        | inl bare ↦ absurd (ground (arith, e, bare))
        | inr (m, is_fields) ↦ elim (Result-cases (json_string_field m "id")) [
          | inr (x, bad) ↦ absurd (ground (arith, e, is_fields, bad))
          | inl (activity_id, is_id) ↦ elim (Result-cases (activity_type_string m)) [
            | inr (x, bad) ↦ absurd (ground (arith, e, is_fields, is_id, bad))
            | inl (activity_type, is_type) ↦ elim (Result-cases (actor_iri_from_activity m)) [
              | inr (x, bad) ↦ absurd (ground (arith, e, is_fields, is_id, is_type, bad))
              | inl (iri, is_actor) ↦ elim (Bool-cases (signing_actor_matches_key_id key_id iri)) [
                | inr other ↦ absurd (ground (arith, e, is_fields, is_id, is_type, is_actor, other))
                | inl same ↦
                    let passes : passed v
                        ≡ passed (record {
                          key_id = key_id;
                          key = key;
                          activity_id = activity_id;
                          activity_type = activity_type;
                          actor_iri = iri;
                          raw = j;
                        }) =
                      ground (arith, e, is_fields, is_id, is_type, is_actor, same) in
                    subst PassedAs (sym (passed_injective v _ passes)) (
                      refl,
                      refl,
                      same,
                      record {
                        fields = m;
                        is_value = refl;
                        is_fields = is_fields;
                        is_id = is_id;
                        is_type = is_type;
                        is_actor = is_actor;
                      },
                    )
              ]
            ]
          ]
        ]
      ]

  check_signature-passed :
      (now : ℕ) (r : Request) (text : String) (v : Verified p)
      → check_signature p codec h now r text ≡ passed v
      → IsSigned now r (some text) v
  unfolding check_signature
  check_signature-passed now r text v e =
      let header = get "signature" r.header in
      elim (Result-cases (parse_signature_header header)) [
        | inr (x, bad) ↦ absurd (ground (arith, e, bad))
        | inl (params, read) ↦
            let id = param_or_empty "keyid" params in
            elim (Result-cases (
              public_key_for_key_id codec.parse_pem h.fetch_client h.fetch_policy (some h.cfg)
                id)) [
                  | inr (x, unknown) ↦ absurd (ground (arith, e, read, unknown))
                  | inl (key, known) ↦ elim (Result-cases (verify_request p now r text key)) [
                    | inr (x, forged) ↦ absurd (ground (arith, e, read, known, forged))
                    | inl (u, signed) ↦
                        let (same_id, same_key, same_actor, is_activity) =
                          check_activity-passed id key (codec.parse_json text) v
                            (ground (arith, e, read, known, signed)) in
                        record {
                          text = text;
                          params = params;
                          is_body = refl;
                          is_header = read;
                          is_key_id = same_id;
                          is_key = rw (same_id, same_key) known;
                          is_signed = rw same_key signed;
                          is_activity = is_activity;
                          same_actor = same_actor;
                        }
                  ]
                ]
      ]

  check_request-passed :
      (now : ℕ) (r : Request) (body : Option String) (v : Verified p)
      → check_request p codec h now r body ≡ passed v
      → IsSigned now r body v
  unfolding check_request
  check_request-passed now r none v e = absurd (ground (arith, e))
  check_request-passed now r (some text) v e =
      check_signature-passed now r text v (ground (arith, e))

  pub accept_activity-cases :
      (db_now : ℕ) (v : Verified p) (s t : Db) (reply : Reply)
      → accept_activity p codec h db_now v s ≡ (reply, t)
      → SameRest s t
        × (SameJobs s t
            ⊎ ((reply ≡ accepted_reply)
                × IsStored db_now v.actor_iri v.activity_id v.activity_type v.raw s t))
  unfolding accept_activity
  accept_activity-cases db_now v s t reply e = elim (Bool-cases h.has_store) [
    | inr off ↦ (ground (arith, e, off), inl (ground (arith, e, off)))
    | inl on ↦ elim (Option-cases (codec.public_key_pem v.key)) [
      | inl bad ↦ (ground (arith, e, on, bad), inl (ground (arith, e, on, bad)))
      | inr (pem, good) ↦
          let u = (ensure_remote_actor v.actor_iri pem s).1 in
          let (jobs, rest, next_job, next_activity) =
            ensure_remote_actor-SameJobs v.actor_iri pem s in
          elim (Result-cases (ensure_remote_actor v.actor_iri pem s).0) [
            | inr (x, failed) ↦ (
              ground (arith, e, on, good, failed, rest),
              inl (ground (arith, e, on, good, failed, jobs)),
            )
            | inl (id, made) ↦
                let stored : store_activity db_now id v.activity_id v.activity_type v.raw u
                    ≡ (reply, t) =
                  ground (arith, e, on, good, made) in
                let kept : SameRest u t = ground (
                  arith,
                  stored,
                  store_activity-SameRest db_now id v.activity_id v.activity_type v.raw u,
                ) in
                (
                  ground (arith, kept, rest),
                  elim (store_activity-cases db_now id v.actor_iri v.activity_id v.activity_type
                      v.raw u t reply (ensure_remote_actor-IsActorId v.actor_iri pem s id made)
                      stored) [
                        | inl same ↦ inl (ground (arith, same, jobs))
                        | inr (answered, x) ↦ inr (
                          answered,
                          IsStored-before db_now v.actor_iri v.activity_id v.activity_type v.raw s u
                              t jobs next_job next_activity x,
                        )
                      ],
                )
          ]
    ]
  ]

  -- A request to the shared inbox changes no other tables than actors, activities and jobs. Either
  -- activities and jobs stay as they are, or the answer is 202, the request's body is an activity that
  -- is signed by the key of its key id, which matches the activity's actor, and one activity that was
  -- not there, with the body's id, type and value and the id of the actor's row, is stored with one job
  -- for it.
  pub shared_inbox_sound :
      (now db_now : ℕ) (r : Request) (body : Option String) (s t : Db) (reply : Reply)
      → shared_inbox p codec h now db_now r body s ≡ (reply, t)
      → SameRest s t
        × (SameJobs s t
            ⊎ ((reply ≡ accepted_reply)
                × ((v : Verified p) × IsSigned now r body v
                    × IsStored db_now v.actor_iri v.activity_id v.activity_type v.raw s t)))
  unfolding shared_inbox
  shared_inbox_sound now db_now r body s t reply e =
      elim (Checked-cases (check_request p codec h now r body)) [
        | inl (other, bad) ↦ (ground (arith, e, bad), inl (ground (arith, e, bad)))
        | inr (v, good) ↦
            let (rest, changed) =
              accept_activity-cases db_now v s t reply (ground (arith, e, good)) in
            (
              rest,
              elim changed [
                | inl same ↦ inl same
                | inr (answered, x) ↦ inr (answered, (v, check_request-passed now r body v good, x))
              ],
            )
      ]
