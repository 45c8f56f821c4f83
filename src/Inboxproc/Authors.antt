-- ===== src/Inboxproc/Authors.antt =====
-- Who may store and replace the copy of an object.
use activitypub_core.Common.{
  ℕ, ◌≡◌, ap, ◌∙◌, ◌⊎◌, inl, inr, String, true, Option, Bool-cases, Option-cases, arith,
}
use activitypub_core.Common.Exec.{ok, err, Result-cases}
use activitypub_core.Json.{Json, Fields, lookup}
use activitypub_core.As2.{
  ObjectPayload, object_field_id_type, actor_iri_from_activity, object_attributed_to_matches,
}
use activitypub_core.Config.{Config}
use activitypub_core.Store.{ActivityRow, Db}
use activitypub_core.Store.Actors.{actor_url_by_db_id}
use activitypub_core.Store.Objects.{upsert_federated_object}
use activitypub_core.Inboxproc.Audience.{activity_should_apply_side_effects}
use activitypub_core.Fetch.Policy.{Policy}
use activitypub_core.Fetch.Client.{Client}
use activitypub_core.Inboxproc.Closed.{actor_url-same}
use activitypub_core.Inboxproc.Objects.{
  required, materialize, actors_match, create_object, handle_create,
}

-- The activity names its stored actor, and the object is attributed to that actor.
abbrev pub IsAuthor : ActivityRow → Fields → Json → Db → Type 0
IsAuthor row fields raw s =
    (iri : String) × ((signer : String) × ((actor_iri_from_activity fields ≡ ok iri)
        × (actor_url_by_db_id row.actor_id s ≡ (ok signer, s))
        × (actors_match iri signer ≡ true)
        × (object_attributed_to_matches raw iri ≡ true)))

url_cases :
    (id : ℕ) (s : Db)
    → ((url : String) × (actor_url_by_db_id id s ≡ (ok url, s)))
      ⊎ ((e : _) × (actor_url_by_db_id id s ≡ (err e, s)))
url_cases id s = elim (Result-cases (actor_url_by_db_id id s).0) [
  | inl (url, e) ↦ inl (url, ground (arith, e, actor_url-same id s))
  | inr (f, e) ↦ inr (f, ground (arith, e, actor_url-same id s))
]

create_object-IsAuthor :
    (row : ActivityRow) (fields : Fields) (p : ObjectPayload) (raw : Json) (s : Db)
    → ((create_object row fields p raw s).1 ≡ s)
      ⊎ (IsAuthor row fields raw s
          × (create_object row fields p raw s
              ≡ upsert_federated_object p.id row.actor_id p.typ raw s))
unfolding create_object
create_object-IsAuthor row fields p raw s = elim (Result-cases (actor_iri_from_activity fields)) [
  | inr (f, e) ↦ inl (ground (arith, e))
  | inl (iri, e) ↦ elim (url_cases row.actor_id s) [
    | inr (f, g) ↦ inl (ground (arith, e, g))
    | inl (signer, g) ↦ elim (Bool-cases (actors_match iri signer)) [
      | inr differ ↦ inl (ground (arith, e, g, differ))
      | inl match ↦ elim (Bool-cases (object_attributed_to_matches raw iri)) [
        | inr other ↦ inl (ground (arith, e, g, match, other))
        | inl own ↦ inr ((iri, (signer, (e, g, match, own))), ground (arith, e, g, match, own))
      ]
    ]
  ]
]

-- Whatever a Create holds and whatever is fetched for it, either the database stays as it is, or
-- the activity names its stored actor and what happens is the store, under that actor, of one
-- object that is attributed to it.
pub handle_create-IsAuthor :
    (cfg : Config) (row : ActivityRow) (fields : Fields) (client : Option Client) (policy : Policy)
    (s : Db)
    → ((handle_create cfg row fields client policy s).1 ≡ s)
      ⊎ ((p : ObjectPayload) × ((raw : Json) × (IsAuthor row fields raw s
              × (handle_create cfg row fields client policy s
                  ≡ upsert_federated_object p.id row.actor_id p.typ raw s))))
unfolding handle_create
handle_create-IsAuthor cfg row fields client policy s =
    elim (Result-cases (required "create missing object" (lookup "object" fields))) [
      | inr (_, a) ↦ inl (ground (arith, a))
      | inl (raw_obj, a) ↦ elim (Result-cases (object_field_id_type raw_obj)) [
        | inr (_, b) ↦ inl (ground (arith, a, b))
        | inl (named, b) ↦ elim (Result-cases (materialize cfg client policy named)) [
          | inr (_, c) ↦ inl (ground (arith, a, b, c))
          | inl (p, c) ↦ elim (Option-cases p.raw) [
            | inl d ↦ inl (ground (arith, a, b, c, d))
            | inr (raw, d) ↦ elim (Bool-cases (activity_should_apply_side_effects cfg fields)) [
              | inr skip ↦ inl (ground (arith, a, b, c, d, skip))
              | inl apply ↦
                  let run : handle_create cfg row fields client policy s
                      ≡ create_object row fields p raw s =
                    ground (arith, a, b, c, d, apply) in
                  elim (create_object-IsAuthor row fields p raw s) [
                    | inl same ↦ inl (ap (λ x. x.1) run ∙ same)
                    | inr (author, stored) ↦ inr (p, (raw, (author, run ∙ stored)))
                  ]
            ]
          ]
        ]
      ]
    ]
