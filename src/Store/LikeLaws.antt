-- ===== src/Store/LikeLaws.antt =====
-- Likes: what store/social_counts.go answers after store/federated_interactions.go has stored one.
use activitypub_core.Common.{
  ℕ, ◌≡◌, refl, ap, ◌∙◌, eq_iff, String, Bool, true, ◌||◌, some, List, [], ◌∷◌, ◌==◌, Bool-cases,
  Option-cases, inl, inr, any_where, find_where, arith,
}
use activitypub_core.Common.Exec.{ok}
use activitypub_core.Store.Rows.{EdgeRow, Db}
use activitypub_core.Store.Upsert.{find_where-upsert}
use activitypub_core.Store.Interactions.{
  same_edge, same_edge_activity, set_activity, new_edge, upserted, upsert_federated_like,
  actor_has_liked_object, federated_like_activity_id, canonical_actor_url,
}

find_some-any {ℓ} :
    {A : Type ℓ} (p : A → Bool) (xs : List A) (r : A)
    → find_where p xs ≡ some r
    → any_where p xs ≡ true
find_some-any p [] r e = cc
find_some-any p (x ∷ xs) r e = ground (arith, find_some-any p xs r)

liked_row :
    (serial actor : ℕ) (url id : String) (rows after : List EdgeRow)
    → upserted serial actor url id rows ≡ some after
    → (r : EdgeRow) × ((find_where (same_edge actor url) after ≡ some r) × (r.activity_id ≡ id))
unfolding upserted
liked_row serial actor url id rows after e =
    elim (find_where-upsert (same_edge actor url) (same_edge_activity id) (set_activity id)
      (new_edge serial actor url id) rows after e (λ _ t. t)
      (ground (arith, (eq_iff url url).1 refl))) [
        | inl found ↦ (new_edge serial actor url id, (found, refl))
        | inr (r, (_, found)) ↦ (set_activity id r, (found, refl))
      ]

activity_of_row :
    (actor : ℕ) (url id : String) (t : Db) (r : EdgeRow)
    → canonical_actor_url url ≡ url
    → find_where (same_edge actor url) t.likes ≡ some r
    → r.activity_id ≡ id
    → federated_like_activity_id actor url t ≡ (ok id, t)
unfolding federated_like_activity_id
activity_of_row actor url id t r canon here own =
    let found = ap (λ u. find_where (same_edge actor u) t.likes) canon ∙ here in
    ground (arith, found, own)

-- Where a like of an object URL in canonical form is stored, the actor then has liked that object,
-- and the activity that is found for the like is the stored one.
pub actor_has_liked_object-upsert_federated_like :
    (actor : ℕ) (url id : String) (s t : Db)
    → canonical_actor_url url ≡ url
    → upsert_federated_like actor url id s ≡ (ok tt, t)
    → (actor_has_liked_object actor url t ≡ (ok true, t))
      × (federated_like_activity_id actor url t ≡ (ok id, t))
unfolding upsert_federated_like actor_has_liked_object federated_like_activity_id
actor_has_liked_object-upsert_federated_like actor url id s t canon e =
    elim (Bool-cases (url == "" || id == "")) [
      | inl empty ↦ absurd (ground (arith, e, empty))
      | inr named ↦ elim (Option-cases (upserted s.next_edge actor url id s.likes)) [
        | inl clash ↦ absurd (ground (arith, e, named, clash))
        | inr (after, h) ↦
            let rows : t.likes ≡ after = ground (arith, e, named, h) in
            let (r, (found, own)) = liked_row s.next_edge actor url id s.likes after h in
            let here : find_where (same_edge actor url) t.likes ≡ some r =
              ap (λ x. find_where (same_edge actor url) x) rows ∙ found in
            let any = find_some-any (same_edge actor url) t.likes r here in
            (
              simp (actor_has_liked_object, canon, any),
              activity_of_row actor url id t r canon here own,
            )
      ]
    ]
