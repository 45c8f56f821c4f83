-- ===== src/Inboxproc/Rest.antt =====
-- Tables seen without the rows of one actor.
use activitypub_core.Common.{
  ℕ, ◌≡◌, refl, String, Bool, true, ◌||◌, some, List, [], ◌∷◌, ◌++◌, nat_eq, inl, inr, arith,
  update_where, delete_where, All,
}
use activitypub_core.Store.{EdgeRow, FollowRow, FollowState, upsert, upsert-cases}
use activitypub_core.Store.Follows.{
  upserted, same_pair, same_follow_activity, overwrite_follow, new_follow,
}
use activitypub_core.Store.Interactions as Interactions
use activitypub_core.Store.Interactions.{
  own_edge, same_edge, same_edge_activity, set_activity, new_edge, upsert_federated_like,
  upsert_federated_announce, upsert_federated_block,
}

-- The rows of other actors.
abbrev pub others_edges : ℕ → List EdgeRow → List EdgeRow
others_edges actor rows = delete_where (λ r. nat_eq r.actor_id actor) rows

abbrev pub is_party : ℕ → FollowRow → Bool
is_party actor r = nat_eq r.follower_actor_id actor || nat_eq r.followee_actor_id actor

abbrev pub others_follows : ℕ → List FollowRow → List FollowRow
others_follows actor rows = delete_where (is_party actor) rows

module _ {ℓ} {A : Type ℓ} (q : A → Bool) where
  -- A change of rows that the test passes before and after is not seen in the others.
  pub rest-update_where :
      (p : A → Bool) (f : A → A) (xs : List A)
      → ((x : A) → p x ≡ true → (q x ≡ true) × (q (f x) ≡ true))
      → delete_where q (update_where p f xs) ≡ delete_where q xs
  rest-update_where p f [] k = refl
  rest-update_where p f (x ∷ xs) k = ground (arith, k x, rest-update_where p f xs k)

  pub rest-delete_where :
      (p : A → Bool) (xs : List A)
      → ((x : A) → p x ≡ true → q x ≡ true)
      → delete_where q (delete_where p xs) ≡ delete_where q xs
  rest-delete_where p [] k = refl
  rest-delete_where p (x ∷ xs) k = ground (arith, k x, rest-delete_where p xs k)

  pub rest-append :
      (xs : List A) (new : A) → q new ≡ true → delete_where q (xs ++ new ∷ []) ≡ delete_where q xs
  rest-append [] new t = ground arith
  rest-append (x ∷ xs) new t = ground (arith, rest-append xs new t)

  pub rest-upsert :
      (p other : A → Bool) (f : A → A) (new : A) (rows after : List A)
      → ((x : A) → p x ≡ true → (q x ≡ true) × (q (f x) ≡ true))
      → q new ≡ true
      → upsert p other f new rows ≡ some after
      → delete_where q after ≡ delete_where q rows
  rest-upsert p other f new rows after k t e = elim (upsert-cases p other f new rows after e) [
    | inl (_, h) ↦ rw h (rest-update_where p f rows k)
    | inr (_, h) ↦ rw h (rest-append rows new t)
  ]

pub edges-rest :
    (serial actor : ℕ) (target id : String) (rows after : List EdgeRow)
    → Interactions.upserted serial actor target id rows ≡ some after
    → others_edges actor after ≡ others_edges actor rows
unfolding Interactions.upserted
edges-rest serial actor target id rows after e =
    rest-upsert (λ r. nat_eq r.actor_id actor) (same_edge actor target) (same_edge_activity id)
      (set_activity id) (new_edge serial actor target id) rows after (λ x t. grind arith)
      (grind arith) e

pub follows-rest :
    (actor followee : ℕ) (id : String) (state : FollowState) (rows after : List FollowRow)
    → upserted actor followee id state rows ≡ some after
    → others_follows actor after ≡ others_follows actor rows
unfolding upserted
follows-rest actor followee id state rows after e =
    rest-upsert (is_party actor) (same_pair actor followee) (same_follow_activity id)
      (overwrite_follow state id) (new_follow actor followee id state) rows after
      (λ x t. grind arith) (grind arith) e

-- The same, where the rows of this table are known to be such.
pub rest-update_where-All {ℓ} :
    {A : Type ℓ} (q p : A → Bool) (f : A → A) (xs : List A)
    → All (λ x. p x ≡ true → (q x ≡ true) × (q (f x) ≡ true)) xs
    → delete_where q (update_where p f xs) ≡ delete_where q xs
rest-update_where-All q p f [] k = refl
rest-update_where-All q p f (x ∷ xs) (h, hs) = ground (arith, rest-update_where-All q p f xs hs)
