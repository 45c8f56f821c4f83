-- ===== src/Aphttp/Stored.antt =====
-- What the inboxes of aphttp/handlers.go write: an actor, an activity and its job.
use activitypub_core.Common.{
  ◌≡◌, subst, ◌⊎◌, inl, inr, ℕ, String, false, some, [], ◌∷◌, ◌++◌, arith, List, any_where,
  find_where, Bool-cases, Option-cases,
}
use activitypub_core.Common.Exec.{ok}
use activitypub_core.Json.{Json}
use activitypub_core.Store.{Actor, Db}
use activitypub_core.Store.Actors.{same_url, put_remote_actor, ensure_remote_actor}
use activitypub_core.Store.Activities.{same_activity, typ_or_unknown}
use activitypub_core.Queue.{has_key, new_job}
use activitypub_core.Aphttp.Fields.{Reply, accepted_reply}
use activitypub_core.Aphttp.Inbox.{store_activity, process_job}
use activitypub_core.Common.Text.{trim_right_slash}

abbrev pub SameJobs : Db → Db → Type 0
SameJobs s t = (t.activities ≡ s.activities) × (t.jobs ≡ s.jobs)

abbrev pub SameRest : Db → Db → Type 0
SameRest s t =
    (t.objects ≡ s.objects)
    × (t.follows ≡ s.follows)
    × (t.likes ≡ s.likes)
    × (t.announces ≡ s.announces)
    × (t.blocks ≡ s.blocks)

-- The row of an actor's URL, without a slash at its end, has the id.
abbrev pub IsActorId : String → ℕ → List Actor → Type 0
IsActorId iri id rows =
    (a : Actor) × ((find_where (same_url (trim_right_slash iri)) rows ≡ some a) × (a.id ≡ id))

-- One new activity of the actor, and one job that processes it.
pub record IsStored (now : ℕ) (actor_iri activity_id activity_type : String) (raw : _) (s t : Db)
    : Type 0 where
  pub actor : ℕ
  pub is_actor : IsActorId actor_iri actor t.actors
  pub is_new : any_where (same_activity activity_id) s.activities ≡ false
  pub activities :
      t.activities
      ≡ s.activities
        ++ record {
          id = s.next_activity;
          activity_id = activity_id;
          actor_id = actor;
          typ = typ_or_unknown activity_type;
          raw_json = raw;
          deleted = false;
        }
          ∷ []
  pub jobs :
      t.jobs ≡ s.jobs ++ new_job s.next_job now (process_job s.next_activity activity_id) ∷ []

pub ensure_remote_actor-SameJobs :
    (url pem : String) (s : Db)
    → SameJobs s (ensure_remote_actor url pem s).1
      × SameRest s (ensure_remote_actor url pem s).1
      × ((ensure_remote_actor url pem s).1.next_job ≡ s.next_job)
      × ((ensure_remote_actor url pem s).1.next_activity ≡ s.next_activity)
unfolding ensure_remote_actor put_remote_actor
ensure_remote_actor-SameJobs url pem s = ground arith

pub ensure_remote_actor-IsActorId :
    (url pem : String) (s : Db) (id : ℕ)
    → (ensure_remote_actor url pem s).0 ≡ ok id
    → IsActorId url id (ensure_remote_actor url pem s).1.actors
unfolding ensure_remote_actor put_remote_actor
ensure_remote_actor-IsActorId url pem s id e =
    let rows = (ensure_remote_actor url pem s).1.actors in
    elim (Option-cases (find_where (same_url (trim_right_slash url)) rows)) [
      | inl missing ↦ absurd (ground (arith, e, missing))
      | inr (a, there) ↦ (a, (there, ground (arith, e, there)))
    ]

-- The same for an earlier state with the same activities, jobs and serials.
pub IsStored-before :
    (now : ℕ) (actor_iri activity_id activity_type : String) (raw : Json) (s u t : Db)
    → SameJobs s u
    → u.next_job ≡ s.next_job
    → u.next_activity ≡ s.next_activity
    → IsStored now actor_iri activity_id activity_type raw u t
    → IsStored now actor_iri activity_id activity_type raw s t
IsStored-before now actor_iri activity_id activity_type raw s u t (activities, jobs) next_job
      next_activity x =
    record {
      actor = x.actor;
      is_actor = x.is_actor;
      is_new = subst (λ a. any_where (same_activity activity_id) a ≡ false) activities x.is_new;
      activities = rw (← activities, ← next_activity) x.activities;
      jobs = rw (← jobs, ← next_job, ← next_activity) x.jobs;
    }

pub store_activity-SameRest :
    (now actor : ℕ) (activity_id activity_type : String) (raw : Json) (s : Db)
    → SameRest s (store_activity now actor activity_id activity_type raw s).1
unfolding store_activity
store_activity-SameRest now actor activity_id activity_type raw s = ground arith

-- The transaction stores the activity with its job, or neither.
pub store_activity-cases :
    (now actor : ℕ) (actor_iri activity_id activity_type : String) (raw : Json) (s t : Db)
    (reply : Reply)
    → IsActorId actor_iri actor s.actors
    → store_activity now actor activity_id activity_type raw s ≡ (reply, t)
    → SameJobs s t
      ⊎ ((reply ≡ accepted_reply) × IsStored now actor_iri activity_id activity_type raw s t)
unfolding store_activity
store_activity-cases now actor actor_iri activity_id activity_type raw s t reply known e =
    elim (Bool-cases (any_where (same_activity activity_id) s.activities)) [
      | inl there ↦ inl (ground (arith, e, there))
      | inr absent ↦ elim (Bool-cases (any_where (has_key activity_id) s.jobs)) [
        | inl taken ↦ inl (ground (arith, e, absent, taken))
        | inr free ↦ inr (
          ground (arith, e, absent, free),
          record {
            actor = actor;
            is_actor = subst (IsActorId actor_iri actor) (ground (arith, e, absent, free)) known;
            is_new = absent;
            activities = ground (arith, e, absent, free);
            jobs = ground (arith, e, absent, free);
          },
        )
      ]
    ]
