-- ===== src/Store/FollowLaws.antt =====
-- What the statements of store/follows.go do to the table follows: its unique columns, and what a
-- look-up finds afterwards.
use activitypub_core.Common.{
  ℕ, ◌≡◌, ◌≢◌, refl, ◌∙◌, sym, ap, ◌↔◌, String, true, false, Option, none, some, List, ◌==◌, eq_iff,
  arith, find_where, Bool-cases, Option-cases, inl, inr,
}
use activitypub_core.Common.Exec.{Result, ok, err, no_rows}
use activitypub_core.Store.Rows.{FollowState, FollowRow, Db}
use activitypub_core.Store.Upsert.{
  IsUpsert, IsUnique, upsert-IsUnique, find_where-upsert, find_where-upsert_other,
}
use activitypub_core.Store.Follows.{
  same_pair, same_follow_activity, overwrite_follow, new_follow, upserted, upsert_follow,
  get_follow_state,
}

abbrev pub pair : ℕ → ℕ → ℕ × ℕ
pair a b = (a, b)

abbrev pub pair_of : FollowRow → ℕ × ℕ
pair_of r = (r.follower_actor_id, r.followee_actor_id)

abbrev pub activity_of : FollowRow → String
activity_of r = r.follow_activity_id

-- UNIQUE (follower_actor_id, followee_actor_id) and UNIQUE (follow_activity_id)
abbrev pub IsUniqueFollows : List FollowRow → Type 0
IsUniqueFollows = IsUnique pair_of activity_of

same_pair_iff : (a b : ℕ) (r : FollowRow) → (same_pair a b r ≡ true) ↔ (pair_of r ≡ (a, b))
same_pair_iff a b r = grind arith

IsUpsert-laws :
    (a b : ℕ) (id : String) (state : FollowState)
    → IsUpsert pair_of activity_of
        (same_pair a b)
        (same_follow_activity id)
        (overwrite_follow state id)
        (new_follow a b id state)
IsUpsert-laws a b id state = record {
  key_iff = same_pair_iff a b;
  other_iff = λ r. eq_iff r.follow_activity_id id;
  keeps_key = λ r. refl;
  sets_other = λ r. refl;
}

upserted-IsUniqueFollows :
    (a b : ℕ) (id : String) (state : FollowState) (rows after : List FollowRow)
    → IsUniqueFollows rows
    → upserted a b id state rows ≡ some after
    → IsUniqueFollows after
unfolding upserted
upserted-IsUniqueFollows a b id state rows after u e =
    upsert-IsUnique pair_of activity_of (same_pair a b) (same_follow_activity id)
      (overwrite_follow state id) (new_follow a b id state) (IsUpsert-laws a b id state) rows after
      u e

-- Where the table satisfies its two unique constraints, it does so after `upsert_follow`, on
-- every branch: success, a missing id, a violation.
pub upsert_follow-IsUniqueFollows :
    (a b : ℕ) (id : String) (state : FollowState) (s : Db)
    → IsUniqueFollows s.follows
    → IsUniqueFollows ((upsert_follow a b id state s).1.follows)
unfolding upsert_follow
upsert_follow-IsUniqueFollows a b id state s u = elim (Bool-cases (id == "")) [
  | inl t ↦ rw t u
  | inr t ↦ elim (Option-cases (upserted a b id state s.follows)) [
    | inl e ↦ rw (t, e) u
    | inr (after, e) ↦ rw (t, e) (upserted-IsUniqueFollows a b id state s.follows after u e)
  ]
]

upserted-own :
    (a b : ℕ) (id : String) (state : FollowState) (rows after : List FollowRow)
    → upserted a b id state rows ≡ some after
    → (r : FollowRow) × ((find_where (same_pair a b) after ≡ some r) × (r.state ≡ state))
unfolding upserted
upserted-own a b id state rows after e =
    elim (find_where-upsert (same_pair a b) (same_follow_activity id) (overwrite_follow state id)
      (new_follow a b id state) rows after e (λ _ t. t) (grind arith)) [
        | inl found ↦ (new_follow a b id state, (found, refl))
        | inr (r, (_, found)) ↦ (overwrite_follow state id r, (found, refl))
      ]

other_pair :
    (a b c d : ℕ)
    → pair a b ≢ pair c d
    → (r : FollowRow) → same_pair a b r ≡ true
    → same_pair c d r ≡ false
other_pair a b c d n r t = elim (Bool-cases (same_pair c d r)) [
  | inl u ↦ absurd (n (sym ((same_pair_iff a b r).0 t) ∙ (same_pair_iff c d r).0 u))
  | inr u ↦ u
]

upserted-other :
    (a b c d : ℕ) (id : String) (state : FollowState) (rows after : List FollowRow)
    → pair a b ≢ pair c d
    → upserted a b id state rows ≡ some after
    → find_where (same_pair c d) after ≡ find_where (same_pair c d) rows
unfolding upserted
upserted-other a b c d id state rows after n e =
    find_where-upsert_other (same_pair a b) (same_follow_activity id) (overwrite_follow state id)
      (new_follow a b id state) rows after (same_pair c d) e
      (other_pair a b c d n (new_follow a b id state) (grind arith))
      (λ r t. (other_pair a b c d n r t, other_pair a b c d n r t))

found_state : Option FollowRow → Result FollowState
found_state none = err no_rows
found_state (some r) = ok r.state

get_follow_state_lem :
    (c d : ℕ) (rows : List FollowRow) (s : Db)
    → s.follows ≡ rows
    → (get_follow_state c d s).0 ≡ found_state (find_where (same_pair c d) rows)
unfolding get_follow_state found_state
get_follow_state_lem c d rows s e = elim (Option-cases (find_where (same_pair c d) rows)) [
  | inl h ↦ simp (get_follow_state, e, h)
  | inr (r, h) ↦ simp (get_follow_state, e, h)
]

-- Where `upsert_follow` succeeds, `get_follow_state` then answers the stored state for that pair,
-- and for every other pair what it answered before.
pub get_follow_state-upsert_follow :
    (a b : ℕ) (id : String) (state : FollowState) (s t : Db)
    → upsert_follow a b id state s ≡ (ok tt, t)
    → ((get_follow_state a b t).0 ≡ ok state)
      × ((c d : ℕ) → pair a b ≢ pair c d → (get_follow_state c d t).0 ≡ (get_follow_state c d s).0)
unfolding upsert_follow found_state
get_follow_state-upsert_follow a b id state s t e = elim (Bool-cases (id == "")) [
  | inl empty ↦ absurd (ground (arith, e, empty))
  | inr named ↦ elim (Option-cases (upserted a b id state s.follows)) [
    | inl clash ↦ absurd (ground (arith, e, named, clash))
    | inr (after, h) ↦
        let rows : t.follows ≡ after = ground (arith, e, named, h) in
        let (r, (found, own)) = upserted-own a b id state s.follows after h in
        (
          get_follow_state_lem a b after t rows ∙ ap found_state found ∙ ap ok own,
          λ c d n.
              get_follow_state_lem c d after t rows
              ∙ ap found_state (upserted-other a b c d id state s.follows after n h)
              ∙ sym (get_follow_state_lem c d s.follows s refl),
        )
  ]
]
