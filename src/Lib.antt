-- ===== src/Lib.antt =====
-- A verification library for vcalm-status-service, a service that publishes bitstring status lists
-- as signed credentials and sets, clears and allocates their entries over HTTP.
--
-- A route authenticates its caller as a tenant, parses the request and calls the status list
-- manager. The manager reads and writes lists and index allocations in a storage service, encodes
-- bits by the package @interop/vc-bitstring-status-list, and has the credential that publishes them
-- signed by a signing service. Whatever is thrown on the way becomes a problem document. A status
-- list is signed when it is written; reading it serves the stored bytes. Before that, the
-- configuration is read from the environment and selects the backends, and the tenants are read
-- from the environment too, where the provisioning command has put them.
--
-- The files, and the code that they are about:
--
--   Common and its children: lists, dictionaries in the order of insertion, and the text functions
--     of JavaScript that the program uses.
--   Json: JSON values. Errors: the error codes of service/src/status-lists/errors.ts,
--     service/src/services/storage.ts, service/src/services/signing.ts and
--     packages/vc-signer/src/errors.ts, and actions, which are functions from a state to a result
--     and a state.
--   Problem: service/src/problem-details.ts.
--   VcSigner: packages/vc-signer/src/types.ts; VcSigner/Credential and VcSigner/Contexts:
--     packages/vc-signer/src/credential.ts; VcSigner/Signer: cryptosuites.ts, key-material.ts,
--     did.ts and signer.ts beside it; VcSigner/Keys: seeds and fresh keys of key-material.ts;
--     VcSigner/Verify: verify.ts, document-loader.ts and the nodes of did.ts.
--   Tenants: service/src/services/tenants.ts and service/src/services/issuer-instance.ts;
--     Tenants/Memory: service/src/services/tenants-memory.ts; Tenants/Env:
--     service/src/services/tenants-env.ts, with its proofs in its children.
--   Signing: the interface of service/src/services/signing.ts and what a signer that works does;
--     Signing/Fake, Signing/Local and Signing/Http: service/src/services/signing-fake.ts,
--     signing-local.ts and signing-http.ts.
--   Auth: service/src/auth.ts. Domains: service/src/domains.ts.
--   Storage: the types and the interface of service/src/services/storage.ts; Storage/Contract: what
--     the interface promises, as the contract suite of the repository tests it; Storage/Memory:
--     service/src/services/storage-memory.ts; Storage/Schema: the rows and their conversions of
--     service/src/services/storage-sql-schema.ts; Storage/Sql: service/src/services/storage-sql.ts
--     over tables with the keys that storage-sql-migrations.ts declares. Both backends are proved
--     against the contract.
--   StatusLists/Bitstring, StatusLists/Credential: service/src/status-lists/bitstring.ts,
--     credential.ts and entry.ts.
--   StatusLists/Manager: service/src/status-lists/manager.ts, with `createList`, `setStatus` and
--     `setCredentialStatus` in Manager/Lists, and `allocateIndex` and `allocateForCredential` in
--     Manager/Allocation. The other children prove it, over any storage that keeps the contract.
--   Routes: service/src/routes, a file for each handler.
--   Provisioning: service/src/cli/provisioning.ts, with the env file in Provisioning/Files;
--     Provisioning/Command: service/src/cli/provision-tenant.ts. The other children prove that what
--     is written is read back by the service.
--   Config: service/src/config.ts. Services: service/src/services/index.ts. Logger:
--     service/src/logger.ts.
--   App: the routes, requests and answers of service/src/app.ts; App/Handle: `createApp` and
--     service/src/health.ts over them. The other children prove who may change what, what a failure
--     leaves, and what the log says.
--   Server: service/src/server.ts, from the environment to the app.
--   Tests: concrete instances, tests and examples.
--
-- State is passed explicitly. The manager's methods act on the storage's state and on what lies
-- outside: the signer's state, and the number of values that were drawn from the clocks and the
-- generators, which are sequences of values. `randomIndex` gives the value at the draw's number.
-- The concurrent writers of a list are in the order that the queue of storage-memory.ts puts them
-- in, an update being one step.
--
-- The loop of `allocateIndex` runs over its 64 attempts. `decimal` runs on fuel that is one more
-- than the number, which has fewer digits. The loop of `parseIssuerInstances` runs on one more
-- round than there are variables: each round but the last finds a variable of its own. No other
-- recursion has a bound.
--
-- Parameters stand for code that is not in the repository: the package
-- @interop/vc-bitstring-status-list, `verify` of hono/jwt, the matching of paths and the `cors()`
-- of Hono, `JSON.stringify`, the texts that the columns of a database hold of documents and dates,
-- the zod schemas, the signature and DID libraries, `fetch`, SHA-256 of a value's text, what a
-- regular expression does whose text is more than a plain tenant id, the platform's `URL` and its
-- `decodeURIComponent`, the order of `localeCompare`, the making of keys and tokens, and the loader
-- of env files, whose laws are those of lines NAME=value with plain values, comments and blank
-- lines. What a theorem needs of them is a hypothesis. Letters in texts that are lower-cased are
-- ASCII; dates are milliseconds from 1970 to 9999.
--
-- An env file is its contents with whether it can be read and written; a write that fails leaves it
-- as it was.
--
-- Not modelled: message texts of errors; the dialects of the SQL backend and the running of its
-- migrations; the texts that the command prints as help; and the server's process and the headers
-- of CORS.
pub mod Common
pub mod Json
pub mod Errors
pub mod Problem
pub mod VcSigner
pub mod Tenants
pub mod Signing
pub mod Auth
pub mod Domains
pub mod Storage
pub mod StatusLists
pub mod Routes
pub mod Provisioning
pub mod Config
pub mod Services
pub mod Logger
pub mod App
pub mod Server
pub mod Tests
