-- ===== src/Lib.antt =====
-- Verification library of the XMDM control plane (server/): the stores of the server, who may call
-- them, what becomes of a command, of an enrollment token and of a device, and the MQTT clients that
-- carry the commands to the broker.
--
-- How the parts interact: an operator signs in (server/internal/users/postgres/store.go) and holds a
-- session (server/internal/auth/service.go). A command is enqueued
-- (server/internal/commands/postgres/store.go): the store finds the devices that it is for, inserts a
-- row for each of them in one transaction, and hands each row to a publisher, which sends it over
-- MQTT (server/internal/push/mqtt.go). A device polls its pending commands and reports on them. A
-- device enters by a token (server/internal/enrollment/postgres/store.go): the binding enrols the row
-- of the device, uses the token up and provisions the device at the broker
-- (server/internal/mqttdynsec/client.go). From then on it authenticates with its secret
-- (server/internal/device/postgres/store.go). Devices stand in groups and follow a policy, to which
-- apps, certificates and managed files are assigned; the files of these are artifacts of an object
-- store, which a cleanup empties of what nothing refers to.
--
-- Which file models which part:
-- - Common and its children: names, list and text helpers, integers and JSON.
-- - Mqtt: the wire format of server/internal/mqttdynsec/client.go and server/internal/push/mqtt.go
--   (`encodeRemainingLength`, `readPacket`, `readMQTTString`). Mqtt/Packets has the packets that are
--   written, Mqtt/Responses has `runCommand`, Mqtt/Publish has `publishQoS1`; Mqtt/Length and
--   Mqtt/Framing prove the codec.
-- - Dynsec: `UpsertDevice`, `EnsureServerPublisher` and `DisableDevice` of
--   server/internal/mqttdynsec/client.go.
-- - Pagination: server/internal/pagination/pagination.go, and `RequestPaginationParams` of
--   server/internal/httpx/http.go.
-- - Limits: server/internal/httpx/rate_limit.go; Rules is about the rule that is found, Buckets about
--   the requests that are let through.
-- - Auth: server/internal/auth/service.go and rbac.go; Grants, Issued and Soundness are about any
--   sequence of its calls.
-- - Plugins: server/internal/plugins/manager.go; Catalog is about the permissions that it lists, Offers
--   and Complete are about the command types that it offers a session.
-- - Database: what the stores run on. The state is the committed tables, the working copy of the
--   open transaction, a clock, the statements and the calls of the object store that will fail, the
--   objects, and what was published and provisioned. Database/Rows has the tables (Records those of
--   the catalog), Query the clauses of SQL, Table the statements that the stores of the catalog
--   share, over a table that Tables gives; Keeps, Never, Atomic, Fails, Yields, Triples and
--   Stands are rules for invariants, rollback, answers and what a state satisfies afterwards.
-- - Commands: server/internal/commands, with Targets (`resolveTargets`), Queue (`Enqueue`,
--   `publishEnqueued`, `markSent`) and Delivery (the reads, the expiry, `Acknowledge`). Lifecycle is
--   about sequences of requests, Failures about rollback, Answers, Returned and Reports about results.
-- - Enrollment: server/internal/enrollment/postgres/store.go; Inspection and Binding prove it.
-- - Devices: server/internal/device/postgres/store.go; Reads has its reads, Names, Access and
--   Enrolled prove it.
-- - Groups: server/internal/group/postgres/store.go; Retired is about a group and the command queue.
-- - Accounts: server/internal/roles/postgres/store.go, server/internal/users/postgres/store.go and
--   server/internal/users/password.go; SignIn proves who can sign in.
-- - Policies: server/internal/policy/postgres/store.go. Policies/Bindings has the assignments of apps,
--   certificates and managed files, once for the three of them; Effects and Passcode are
--   the proofs.
-- - Apps: server/internal/apps/postgres/store.go, with Versions; System and Latest are the proofs.
-- - Files: the stores of server/internal/files, and, in Certificates and Managed, of
--   server/internal/certificates and server/internal/managedfiles.
-- - Cleanup: server/internal/artifactcleanup/cleanup.go; Rows, Spared and References prove
--   what it spares.
-- Common/Tests has the Boolean tests of the source; the other modules named Tests hold examples.
--
-- Bounds and fuel: the loop that encodes a length runs on one round more than the length, which
-- falls in every round; `readRemainingLength` has the four rounds of the source; the receive loop of
-- `runCommand` has one round more than the bytes that are left, and each round takes a byte. Byte
-- strings are lists of numbers, sixteen-bit fields are cut to sixteen bits where the source cuts
-- them, and the product of `Offset` wraps at 64 bits. Decoded lengths have at most four bytes, so that
-- the sums of their digits stay within an `int`. Ids are compared as texts, which for UUIDs in the
-- lower case of `uuid.NewString` is how the columns compare them.
--
-- Not modelled: the database driver and its isolation (transactions run one at a time), JSON text
-- (a parameter), hashes and random sources (parameters), floating-point numbers (a parameter), the
-- search of devices by health, and the parts of the server that are not named above: the actions and
-- the route of the plugins, the signed configuration snapshots, the reports of devices, the templates
-- of managed files, the dashboard, HTTP routing, metrics and logs; nor the Android agent, another
-- program in another language.
pub mod Common
pub mod Mqtt
pub mod Dynsec
pub mod Pagination
pub mod Database
pub mod Commands
pub mod Enrollment
pub mod Devices
pub mod Auth
pub mod Groups
pub mod Accounts
pub mod Policies
pub mod Apps
pub mod Files
pub mod Cleanup
pub mod Plugins
pub mod Limits
