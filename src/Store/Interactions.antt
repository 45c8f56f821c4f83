-- ===== src/Store/Interactions.antt =====
-- store/federated_interactions.go and the reads of store/social_counts.go: likes, announces and
-- blocks. The three tables have one shape, so each statement is stated once over an `EdgeRow`.
use activitypub_core.Common.{
  ℕ, suc, ◌+◌, String, Bool, ◌&&◌, ◌||◌, Option, none, some, List, [], ◌∷◌, ◌==◌, nat_eq, any_where,
  find_where, delete_where, if◌then◌else◌,
}
use activitypub_core.Common.Text.{trim_space, trim_right_slash}
use activitypub_core.Common.Exec.{Exec, Result, ok, err, no_rows, unique_violation, failure}
use activitypub_core.Store.Rows.{EdgeRow, Db}
use activitypub_core.Store.Table.{upsert}

-- `CanonicalActorURL` of store/activity.go
unfoldable pub canonical_actor_url : String → String
canonical_actor_url s = trim_right_slash (trim_space s)

abbrev pub same_edge : ℕ → String → EdgeRow → Bool
same_edge actor target r = nat_eq r.actor_id actor && r.target == target

abbrev pub same_edge_activity : String → EdgeRow → Bool
same_edge_activity id r = r.activity_id == id

abbrev pub own_edge : String → ℕ → EdgeRow → Bool
own_edge id actor r = r.activity_id == id && nat_eq r.actor_id actor

abbrev pub set_activity : String → EdgeRow → EdgeRow
set_activity id r = record r { activity_id = id }

abbrev pub new_edge : ℕ → ℕ → String → String → EdgeRow
new_edge serial actor target id = record {
  id = serial;
  actor_id = actor;
  target = target;
  activity_id = id;
}

unfoldable pub upserted : ℕ → ℕ → String → String → List EdgeRow → Option (List EdgeRow)
upserted serial actor target id rows =
    upsert (same_edge actor target) (same_edge_activity id) (set_activity id)
      (new_edge serial actor target id) rows

-- The outcome of an upsert, written back by `put`; the serial is drawn in any case.
abbrev store_edges : (List EdgeRow → Db → Db) → Option (List EdgeRow) → Db → Result (Unit {0}) × Db
store_edges put none s = (err unique_violation, record s { next_edge = s.next_edge + 1 })
store_edges put (some rows) s = (ok tt, put rows (record s { next_edge = s.next_edge + 1 }))

unfoldable pub upsert_federated_like : ℕ → String → String → Exec Db (Unit {0})
unfolding upserted
upsert_federated_like actor object_url id s =
    if object_url == "" || id == ""
    then (err (failure "like object url and activity id required"), s)
    else store_edges (λ rows t. record t { likes = rows })
        (upserted s.next_edge actor object_url id s.likes) s

unfoldable pub delete_federated_like_by_activity_id : String → ℕ → Exec Db (Unit {0})
delete_federated_like_by_activity_id id actor s =
    (ok tt, record s { likes = delete_where (own_edge id actor) s.likes })

unfoldable pub upsert_federated_announce : ℕ → String → String → Exec Db (Unit {0})
unfolding upserted
upsert_federated_announce actor object_url id s =
    if object_url == "" || id == ""
    then (err (failure "announce object url and activity id required"), s)
    else store_edges (λ rows t. record t { announces = rows })
        (upserted s.next_edge actor object_url id s.announces) s

unfoldable pub delete_federated_announce_by_activity_id : String → ℕ → Exec Db (Unit {0})
delete_federated_announce_by_activity_id id actor s =
    (ok tt, record s { announces = delete_where (own_edge id actor) s.announces })

unfoldable pub upsert_federated_block : ℕ → String → String → Exec Db (Unit {0})
unfolding upserted canonical_actor_url
upsert_federated_block blocker blocked_actor_url id s =
    if blocked_actor_url == "" || id == ""
    then (err (failure "block target and activity id required"), s)
    else store_edges (λ rows t. record t { blocks = rows })
        (upserted s.next_edge blocker (canonical_actor_url blocked_actor_url) id s.blocks) s

unfoldable pub delete_federated_block_by_activity_id : String → ℕ → Exec Db (Unit {0})
delete_federated_block_by_activity_id id blocker s =
    (ok tt, record s { blocks = delete_where (own_edge id blocker) s.blocks })

-- store/social_counts.go

-- SELECT COUNT(*) ... WHERE object_url = $1
unfoldable pub count_target : String → List EdgeRow → ℕ
count_target url [] = 0
count_target url (r ∷ rs) =
    let rest = count_target url rs in if r.target == url then suc rest else rest

unfoldable pub count_federated_likes_on_object_url : String → Exec Db ℕ
unfolding count_target canonical_actor_url
count_federated_likes_on_object_url url s = (ok (count_target (canonical_actor_url url) s.likes), s)

unfoldable pub count_federated_announces_on_object_url : String → Exec Db ℕ
unfolding count_target canonical_actor_url
count_federated_announces_on_object_url url s =
    (ok (count_target (canonical_actor_url url) s.announces), s)

abbrev edge_activity : ℕ → String → List EdgeRow → Db → Result String × Db
edge_activity actor url rows s = elim (find_where (same_edge actor url) rows) [
  | none ↦ (err no_rows, s)
  | some r ↦ (ok r.activity_id, s)
]

unfoldable pub federated_like_activity_id : ℕ → String → Exec Db String
unfolding canonical_actor_url
federated_like_activity_id actor url s = edge_activity actor (canonical_actor_url url) s.likes s

unfoldable pub federated_announce_activity_id : ℕ → String → Exec Db String
unfolding canonical_actor_url
federated_announce_activity_id actor url s =
    edge_activity actor (canonical_actor_url url) s.announces s

unfoldable pub actor_has_liked_object : ℕ → String → Exec Db Bool
unfolding canonical_actor_url
actor_has_liked_object actor url s =
    (ok (any_where (same_edge actor (canonical_actor_url url)) s.likes), s)

unfoldable pub actor_has_announced_object : ℕ → String → Exec Db Bool
unfolding canonical_actor_url
actor_has_announced_object actor url s =
    (ok (any_where (same_edge actor (canonical_actor_url url)) s.announces), s)
