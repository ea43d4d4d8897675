-- ===== src/Lib.antt =====
-- midnight.vote: a verification library for the walletless action relay and the services around it.
--
-- The program and the files that model it:
--   * Receipts.antt: api/src/receipts/canonical.ts, the guard that each stored or public receipt
--     passes. `sanitize_canonical_receipt` is `sanitizeCanonicalReceipt` on a JSON value; `none` is
--     its TypeError.
--   * Relayer/Types.antt, Relayer/Store.antt: relayer/src/v2-types.ts and InMemoryV2ActionStore of
--     relayer/src/v2-store.ts. A Map is a list of entries in insertion order (Base/Maps.antt); each
--     operation of the store is a function on its state, as `mutate` runs it whole; a throw is
--     `conflict` or `invalid` and leaves the state as it was.
--   * Relayer/Request.antt: `parseV2ActionRequest` of relayer/src/v2-service.ts and
--     `actionForCircuit` of relayer/src/v2-hash.ts. A V2ActionError is `refused` with its code;
--     `validateTransaction` is a parameter that may make the parser throw, and `toLowerCase` is a
--     parameter of the check of the keys. Request/Forbidden.antt is `assertNoForbiddenKeys`, on fuel:
--     the number of values that the walk visits.
--   * Relayer/Service: V2ActionService of relayer/src/v2-service.ts. Service/State.antt holds the
--     store, the in-memory maps, the wallet stage that is running, the queue behind `walletTail`,
--     the timers and the calls in flight. Service/Wallet.antt is `runWalletStage`, Service/Calls.antt
--     is `accept` (from `createOrGet` on), `get`, `getReceipt`, `reconcile` and `start`: each step
--     runs one awaited call and the synchronous code after it. Service/Events.antt lets the
--     environment choose the order: a run is a list of events, and a theorem over all lists is one
--     over all interleavings. The answers of the wallet, the node and the indexer come with the
--     event; the function `executor.transactionId` is a parameter.
--   * Cico/Program.antt, Cico/Registry.antt: an async method of cico-service as a program on a state
--     that returns or throws, and the registry of api/src/passport-v2/midnight-v2.ts.
--   * Cico/Epoch.antt: CredentialEpochCoordinator of cico-service/src/credential-epoch-coordinator.ts.
--     The state is the trace of effects; the indexer and the contract are functions of it. The
--     attempts of reconcileFrozen are the recursion.
--   * Cico/Publisher.antt: CredentialRootPublisher of cico-service/src/credential-root-publisher.ts,
--     whose state is the object's fields and the trace. In both the queue runs one operation at a
--     time, so an operation is one program.
--   * Cico/Stores: cico-service/src/durable-stores.ts. Stores/File.antt is AtomicJsonStore: a file that
--     holds a JSON value, and calls that the file system may fail before the read, before the rename
--     or after it. `Codec` is what a store gives the engine and `IsCodec` its laws; Stores/Keyed.antt
--     is the parsing and writing that the three stores share, Evidence, Receipts and Issuances are
--     the stores. SHA-256 is the parameter `digest`.
--   * Cico/Issuer.antt: CredentialIssuerService of cico-service/src/credential-issuer-service.ts over
--     the file stores. Its state is the map of the issuances that have ended, the two files and what
--     the registry has taken; `Answers` says how each awaited call ends. Issuances run one at a time,
--     as the queue orders them.
--   * Relayer/Indexer.antt: MidnightIndexerReceiptResolver of relayer/src/v2-indexer.ts on the payload of
--     its fetch, and `canonicalReceiptFromIndexer` of api/src/receipts/canonical.ts.
--   * Relayer/Capability.antt: `verifyV2Capability` of relayer/src/v2-capability.ts; Cico/Capability.antt:
--     HmacActionCapabilityIssuer of cico-service/src/action-capability-issuer.ts. base64url, HMAC,
--     JSON.stringify and JSON.parse are fields of the parameter `Node`; what the round trip needs of
--     them for one payload is `IsTransported`.
--   * Ui/Dates.antt, Ui/Mrz.antt, Ui/Eligibility.antt: ui/src/integration/mrz.ts. A Date is its UTC year,
--     month from 1, day and milliseconds of the day; `Date.UTC` with the test that follows it is the
--     existence of the day. The early returns of `parseTd3` are the list `tests_of`. `toUpperCase` is
--     a parameter, and the reference is a date after the year 200.
--
-- Conventions: a string is the list of its UTF-16 code units (Base/Text.antt); a number that JSON
-- carries is an integer or `inexact` (Base/Json.antt); time stamps are opaque texts given with each
-- event; a timer may fire at any later time. The walk over a request body visits each value once, which
-- is why its fuel is enough; every other loop is a recursion on a list or on the attempts left.
-- A timer's delay, logging, and the promise that `waitForIdle` returns are left out. `start` reads
-- the recoverable jobs in the step of the restart itself. `get` reads the store once after its
-- reconciliation, where the source reads it twice with nothing between.
--
-- Not modelled: the file and PostgreSQL stores, the lock file of the durable stores, the
-- Rarimo gateway, the HTTP server, the Midnight SDK, the Compact contracts, the rest of the user
-- interface and the deployment scripts.
pub mod Base
pub mod Cico
pub mod Receipts
pub mod Relayer
pub mod Ui
