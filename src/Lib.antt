-- ===== src/Lib.antt =====
-- Verification library of yukh-coordination: models of its Go packages, translated by hand, and
-- theorems about them.
--
-- The program coordinates agents. A relay accepts events into numbered transcripts, one for each
-- tenant, channel and epoch, and an audit ledger commits to what was accepted by a Merkle tree. Next to
-- the relay stand coordination primitives: single-use nonces, fenced leases and a budget of
-- capabilities for each principal. Every package declares a port, which adapters implement. The models
-- are of the ports and of the in-memory adapters, which define what the other adapters have to do.
--
-- Base and its children: Go's tests, byte strings, lists, maps and results, over the native numbers.
-- Time: Go's time.Time, as nanoseconds from the zero time and a location.
-- Coordination: internal/coordination/store.go and budget.go, the values and errors of the ports.
-- LeaseStore: internal/coordination/memory/store.go. `acquire`, `resume`, `inspect` and `consume` are the
--   methods of Store, and `renew`, `release` and `is_valid_lease` those of the handle `lease`, which the
--   model takes and returns. LeaseStore.World adds the handles that clients keep: a history is a list
--   of calls, for the mutex makes each method one step. Revisions wrap at 2^64.
-- Budget: internal/coordination/memory/budget.go, a function for each method, with histories of calls.
-- Merkle: internal/relay/audit/merkle.go, hashes, roots and inclusion proofs, and in Merkle.Consistency the
--   consistency proofs. SHA-256 is a parameter. The recursions run on fuel that is the number of leaves,
--   or the number that is shifted; Merkle.Root, Merkle.Rounds and Merkle.Powers give the equations
--   without it.
-- Audit: internal/relay/identity/audit.go and internal/relay/audit/record.go, the records of the ledger,
--   with validCheckpointReference of checkpoint.go. Audit.Shapes and Audit.Records have validRecord and
--   what it calls, Audit.Canonical the canonical form, Audit.Receipts and Audit.Chain receipts and
--   digests. Audit.Verified is verifiedChainState of internal/relay/audit/sqlite/ledger.go, given the rows of the database. Base64,
--   UUIDs and JSON with its canonical form are parameters.
-- Relay: internal/relay/store.go, the port of the relay store and the checks that adapters share.
-- Relay.Memory: internal/relay/memory/store.go. `create_channel`, `append_checked`, `lookup_event`, `read`
--   and `attach_signature` are the methods of Store. The callbacks `admit` and `prepare` are functions
--   that the caller passes, and SHA-256 is a parameter. Relay.Memory.History has the histories of calls.
-- Relay.AppendService: internal/relay/service/append.go. `append_signed` is AppendChecked and
--   `ensure_signed` is ensureSigned, over the store in memory; the signer is a parameter. Its calls of the
--   store are locked one by one: `others` is what other clients do to the store between them.
-- JetStream: internal/relay/jetstream/command.go, reducer.go, operations.go and the subjects of store.go.
--   JetStream.Reducer has `apply` and what it calls. JetStream.Operations has what a round of a mutation
--   decides on a loaded state, and JetStream.Store the loops of 64 rounds, with the reads. A round is
--   given what the NATS client answers. JetStream.Histories has the logs that clients leave: each client
--   publishes on a part of the log that it has loaded, and the broker takes what expects the last
--   sequence. JSON, base64, base32 and UUIDs are a record of functions, with laws in JetStream.Commands:
--   what encoding/json writes of texts in UTF-8, and of sequences below 2^53, is read back.
-- Transition: internal/relay/service/transition.go. Transition has the state and claims,
--   Transition.Handoffs what continues a claim, hands it over or answers. Transition.Validate has `apply`,
--   which is one transition, and `validate`, which reads the transcript through the view of the relay
--   store and folds `apply` over it. Its loop runs on fuel for the number of pages. Parsing and canonical
--   JSON are parameters.
-- Application: internal/relay/service/application.go, over the relay store in memory: `resolve`, and `replay`
--   with `build_page`. Application.Stream has the goroutine of Stream as a function of what its rounds
--   meet. Application.Append has `append`, over the append service and the transition validator, whose
--   loop has the fuel `pages`: more pages than the transcript fills are enough. Between
--   its calls of the store stand those of other clients, `others`. Sequences and positions are below 2^53,
--   so that sums with 1 do not wrap. Application.Live is live.go. JSON, strconv and the protocol's
--   validator are parameters.
-- Primitives: internal/primitives/service.go, the service over the ports with the in-memory adapters
--   behind them. The methods that write leases are in Primitives.Leases; the capability sealer is a
--   parameter of the service.
-- Primitives.Capability: internal/primitives/capability.go, the sealer and the codec of what it seals.
--   `seal` and `open_sealed` are Seal and Open. Base64, AES-GCM, the key provider and the random bytes are
--   parameters.
-- PrimitivesAuth: internal/primitivesauth/pipeline.go, with the functions of Pipeline under their names.
--   The authenticator, the authorizers, the opener and the operation are parameters; the latter two work
--   on a state.
-- PrimitivesHttp: internal/primitiveshttp/bridge.go, the flows that join the pipeline to the primitives
--   service. The methods of Bridge are in PrimitivesHttp.Bridge.
--
-- A call that reads the clock takes the reading as an argument, one for each place that reads it. A
-- context is the error that it reports, if any. Copies of byte slices are the identity, and a Go map is
-- an association list.
--
-- Not modelled: checkpoints and recovery of the audit ledger, the adapters over NATS KV and SQLite, the
-- set-up and notifications of JetStream, the HTTP framing, identity, clients, command-line tools and
-- deployment, which are for the most part I/O over other libraries.
pub mod Base
pub mod Time
pub mod Coordination
pub mod LeaseStore
pub mod Budget
pub mod Merkle
pub mod Relay
pub mod JetStream
pub mod Transition
pub mod Application
pub mod Primitives
pub mod PrimitivesAuth
pub mod PrimitivesHttp
pub mod Audit
