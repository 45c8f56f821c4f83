-- ===== src/Lib.antt =====
-- activitypub-core: the federation core of an ActivityPub server, in Go.
--
-- A signed request from another server is verified (internal/httpsig, with the key that
-- internal/fetch looks up), stored as an activity with a job (store, queue), and later processed by
-- a worker (cmd/apw, internal/worker), which changes the federated state (internal/inboxproc) or
-- delivers an activity to another server.
--
-- The files:
--   Common: lists as tables, texts, the tests on numbers, results and actions (`Exec`).
--   Json, Url: the decodings of encoding/json and the part of net/url that the program calls.
--   As2: internal/as2 (actor.go, object.go, object_payload.go, types.go).
--   Config: internal/config/config.go without `Load`.
--   Store: the tables of db/migrations (Store/Rows) and one function for each statement:
--     Store/Follows (store/follows.go), Store/Interactions (federated_interactions.go and
--     social_counts.go), Store/Objects (federated_objects.go), Store/Activities (activity.go and
--     parts of federation.go), Store/Actors (federation.go, local_actor_domain.go), Store/Resolve
--     (resolve_local_followee.go). Store/Table, Store/Upsert, Store/FollowLaws and
--     Store/LikeLaws have the proofs.
--   Queue: queue/queue.go and queue/sqlqueue/sqlqueue.go; Queue/Order has the proofs.
--   Fetch: internal/fetch (policy.go, inboxurl.go, actorpublickey.go, objectjson.go,
--     signed_get.go); Fetch/Guard, Fetch/Steps and Fetch/Keys have the proofs.
--   Httpsig: internal/httpsig; Httpsig/Soundness has the proofs.
--   Inboxproc: internal/inboxproc, one file for each file of the package. `IsClosed` in
--     Inboxproc/Closed is the interface between an invariant of the database and the handlers:
--     Frames, FollowFrame and ObjectFrame fill it, and Isolation and Authors draw the conclusions.
--   Aphttp: the handlers that other servers and local programs post to: Aphttp/Fields and
--     Aphttp/Inbox (aphttp/handlers.go, aphttp/handle.go), Aphttp/Audience and Aphttp/Outbox
--     (aphttp/postoutbox.go, aphttp/publish_local.go). Aphttp/Stored, Aphttp/InboxLaws,
--     Aphttp/InboxRepeated and Aphttp/OutboxLaws have the proofs.
--   Oauth: the OAuth server over its own tables (db/migrations 000005 and 000006): Oauth/Store
--     (store/oauth.go, store/local_accounts.go), Oauth/Params, Oauth/Authorize and Oauth/Token
--     (mastodonapi/oauth.go), Oauth/Register (mastodonapi/post_apps.go, and postApps,
--     actorIDFromBearer and bearer of mastodonapi/mastodonapi.go). Oauth/Soundness says what an
--     answer rests on; Oauth/Consistent, Oauth/Preservation and Oauth/Steps have the invariant
--     over the step relation of all requests, Oauth/SingleUse and Oauth/Redirects the rest.
--   Worker: internal/worker and the loop of cmd/apw/main.go; Worker/Retry, Worker/Budget,
--     Worker/Claims and Worker/Termination have the proofs.
--
-- How state and operations correspond. The database is the record `Db` of the tables that the
-- modelled statements use. An operation of the program is an action `Exec Db A`: a function from
-- the database to a result, or an error, and the database; what was written before an error stays,
-- since the program runs these statements without a transaction around them. A statement with ON
-- CONFLICT is `upsert`, which also finds the violation of the other unique column. Where a query
-- without ORDER BY could return any of several rows, the model takes the first of the table.
--
-- Parameters. The HTTP client and key files (`Client`), the resolver and the connections
-- (`Network`), the transport of deliveries (`Transport`), what net/http decodes of a form, a query
-- and the credentials, the random tokens and the salt, bcrypt (`Crypto`), hash, RSA, base64 and dates (`Platform`)
-- and the decoding of PEM and of JSON texts (`Codec`) are arguments of the definitions that use them. The clock is a number.
--
-- Bounds. Numbers are natural; settings that Go keeps as int are 0 where Go treats them as not
-- positive. The delay of a delivery is an int64 of nanoseconds that wraps as Go's durations do; the
-- database's rounding of a time to microseconds is left out. Texts are sequences of code points, and the change of case covers ASCII. The search for an inbox has as
-- many steps left as `maxInboxResolutionSteps` less the depth of the source, which is its bound in
-- the source too; all other recursion is on lists and texts.
--
-- Not modelled: failures of the connection to the database, and the foreign keys, which hold since
-- actors are never deleted; begin and commit of a transaction never fail, and one that is given up
-- leaves the tables as they were; the GET handlers of aphttp, its branches for a queue that is not
-- the SQL queue, the rest of mastodonapi, queue/redisqueue, blobs, cmd/apd, cmd/apadmin,
-- internal/actorkey, migrate and observability, the statements of store for the client API, and
-- metrics and logs.
pub mod Common
pub mod Json
pub mod As2
pub mod Url
pub mod Aphttp
pub mod Config
pub mod Store
pub mod Queue
pub mod Fetch
pub mod Inboxproc
pub mod Oauth
pub mod Worker
pub mod Httpsig
