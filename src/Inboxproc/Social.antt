-- ===== src/Inboxproc/Social.antt =====
-- internal/inboxproc/social.go: Like, Announce and Block.
use activitypub_core.Common.{not, ◌==◌, if◌then◌else◌}
use activitypub_core.Common.Exec.{Exec, ◌>>=◌, ◌>>◌, pure, lift, check}
use activitypub_core.Json.{Fields}
use activitypub_core.As2.{object_iri}
use activitypub_core.Config.{Config}
use activitypub_core.Store.{ActivityRow, Db}
use activitypub_core.Store.Interactions.{
  upsert_federated_like, upsert_federated_announce, upsert_federated_block,
}
use activitypub_core.Inboxproc.Audience.{activity_should_apply_side_effects}

unfoldable pub handle_like : Config → ActivityRow → Fields → Exec Db (Unit {0})
unfolding upsert_federated_like
handle_like cfg row fields = do
  object_url ← lift (object_iri fields)
  if activity_should_apply_side_effects cfg fields
      then upsert_federated_like row.actor_id object_url row.activity_id
      else pure tt

unfoldable pub handle_announce : Config → ActivityRow → Fields → Exec Db (Unit {0})
unfolding upsert_federated_announce
handle_announce cfg row fields = do
  object_url ← lift (object_iri fields)
  if activity_should_apply_side_effects cfg fields
      then upsert_federated_announce row.actor_id object_url row.activity_id
      else pure tt

unfoldable pub handle_block : Config → ActivityRow → Fields → Exec Db (Unit {0})
unfolding upsert_federated_block
handle_block cfg row fields = do
  blocked_url ← lift (object_iri fields)
  check (not (blocked_url == "")) "block: empty object"
  if activity_should_apply_side_effects cfg fields
      then upsert_federated_block row.actor_id blocked_url row.activity_id
      else pure tt
