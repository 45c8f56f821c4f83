-- ===== src/Store/Activities.antt =====
-- store/activity.go and InsertInboundActivity, OutboxPage of store/federation.go: the table
-- activities. `ORDER BY id` is an insertion sort, `LIMIT` is `take`.
use activitypub_core.Common.{
  ℕ, zero, suc, ◌+◌, String, Bool, true, false, not, ◌&&◌, Option, none, some, List, [], ◌∷◌, ◌++◌,
  map, ◌==◌, ltb, nat_eq, any_where, find_where, delete_where, update_where, length, if◌then◌else◌,
}
use activitypub_core.Common.Text.{trim_space, to_lower}
use activitypub_core.Common.Exec.{Exec, ok, err, no_rows}
use activitypub_core.Json.{Json}
use activitypub_core.Store.Rows.{ActivityRow, Db}

unfoldable pub get_activity_by_id : ℕ → Exec Db ActivityRow
get_activity_by_id id s = elim (find_where (λ r. nat_eq r.id id) s.activities) [
  | none ↦ (err no_rows, s)
  | some r ↦ (ok r, s)
]

abbrev pub typ_or_unknown : String → String
typ_or_unknown t = if trim_space t == "" then "unknown" else trim_space t

abbrev pub same_activity : String → ActivityRow → Bool
same_activity id r = r.activity_id == id

-- `some id` is `inserted`; `none` is a row that was there already. The serial is drawn in any case.
unfoldable pub insert_inbound_activity : ℕ → String → String → Json → Exec Db (Option ℕ)
insert_inbound_activity actor id typ raw s =
    let t = record s { next_activity = s.next_activity + 1 } in
    if any_where (same_activity id) s.activities then (ok none, t) else (
      ok (some s.next_activity),
      record t {
        activities =
            s.activities
            ++ record {
              id = s.next_activity;
              activity_id = id;
              actor_id = actor;
              typ = typ_or_unknown typ;
              raw_json = raw;
              deleted = false;
            }
              ∷ [];
      },
    )

-- ORDER BY id DESC
abbrev insert_desc : ActivityRow → List ActivityRow → List ActivityRow
insert_desc r [] = r ∷ []
insert_desc r (x ∷ xs) = if ltb r.id x.id then x ∷ insert_desc r xs else r ∷ x ∷ xs

unfoldable pub newest_first : List ActivityRow → List ActivityRow
newest_first [] = []
newest_first (x ∷ xs) = insert_desc x (newest_first xs)

abbrev pub take {ℓ} : {A : Type ℓ} → ℕ → List A → List A
take zero xs = []
take (suc n) [] = []
take (suc n) (x ∷ xs) = x ∷ take n xs

-- WHERE
abbrev pub select {ℓ} : {A : Type ℓ} → (A → Bool) → List A → List A
select p rows = delete_where (λ r. not (p r)) rows

-- `if limit <= 0 { limit = d }; if limit > m { limit = m }`
unfoldable pub clamp_limit : ℕ → ℕ → ℕ → ℕ
clamp_limit d m limit = if nat_eq limit 0 then d else if ltb m limit then m else limit

abbrev below : Option ℕ → ℕ → Bool
below none id = true
below (some m) id = ltb id m

abbrev above : Option ℕ → ℕ → Bool
above none id = true
above (some m) id = ltb m id

-- The rows of one page: of one actor, older than `max`, newer than `since`.
abbrev pub in_page : ℕ → Option ℕ → Option ℕ → ActivityRow → Bool
in_page actor max since r = nat_eq r.actor_id actor && below max r.id && above since r.id

unfoldable pub page_rows : ℕ → ℕ → Option ℕ → Option ℕ → List ActivityRow → List ActivityRow
unfolding newest_first clamp_limit
page_rows actor limit max since rows =
    take (clamp_limit 50 200 limit) (newest_first (select (in_page actor max since) rows))

abbrev last_id : List ActivityRow → Option ℕ
last_id [] = none
last_id (r ∷ []) = some r.id
last_id (r ∷ x ∷ xs) = last_id (x ∷ xs)

pub record OutboxPage : Type 0 where
  pub total : ℕ
  pub items : List String
  pub next_cursor : Option ℕ

unfoldable pub outbox_page : ℕ → ℕ → Option ℕ → Option ℕ → Exec Db OutboxPage
unfolding page_rows
outbox_page actor limit max since s =
    let rows = page_rows actor limit max since s.activities in
    (
      ok (record {
        total = length (select (λ r. nat_eq r.actor_id actor) s.activities);
        items = map (λ r. r.activity_id) rows;
        next_cursor =
            if nat_eq (length rows) (clamp_limit 50 200 limit) then last_id rows else none;
      }),
      s,
    )

abbrev is_live_create : ActivityRow → Bool
is_live_create r = to_lower r.typ == "create" && not r.deleted

unfoldable pub list_recent_create_activities_for_actor : ℕ → ℕ → Exec Db (List ActivityRow)
unfolding newest_first clamp_limit
list_recent_create_activities_for_actor actor limit s = (
  ok (
      take (clamp_limit 20 80 limit)
        (newest_first (select (λ r. nat_eq r.actor_id actor && is_live_create r) s.activities))),
  s,
)

unfoldable pub activity_id_by_actor_and_activity_iri : ℕ → String → Exec Db ℕ
activity_id_by_actor_and_activity_iri actor iri s =
    elim (find_where (λ r. nat_eq r.actor_id actor && same_activity iri r) s.activities) [
      | none ↦ (err no_rows, s)
      | some r ↦ (ok r.id, s)
    ]

abbrev pub own_live_create : ℕ → ℕ → ActivityRow → Bool
own_live_create id actor r = nat_eq r.id id && nat_eq r.actor_id actor && is_live_create r

-- The result tells whether a row was changed.
unfoldable pub soft_delete_activity_for_actor : ℕ → ℕ → Exec Db Bool
soft_delete_activity_for_actor id actor s = (
  ok (any_where (own_live_create id actor) s.activities),
  record s {
    activities =
        update_where (own_live_create id actor) (λ r. record r { deleted = true }) s.activities;
  },
)
