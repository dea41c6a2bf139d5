-- ===== src/Lib.antt =====
-- Verification library of Registry UI, the web interface and gate in front of a Docker registry.
-- The modelled code is the Go program under backend/internal.
--
-- The program keeps its state in an SQLite database (backend/internal/store/store.go) and speaks to a
-- registry service (backend/internal/registry/client.go). Its handlers (backend/internal/server) check
-- who may do what, change the database, and delete and push manifests in the registry.
--
-- How it is modelled:
-- - Base: names of the libraries, Boolean tests, lists, association lists, and text as a list of code
--   points with the functions of Go's strings and strconv packages. Natural numbers are the native
--   ones; `atoi` keeps the bounds of 64 bits. Ids, counts and times are not bounded.
-- - Store: the tables as lists of records in `Db`; a statement takes one step of `clock` and fails, by
--   the field `fails`, wherever a theorem wants it to. Store.Run has the error paths: `on m fail k` is
--   `if err != nil { fail }` and then k. Store.Users, Store.Permissions, Store.Settings (with the cache
--   in memory), Store.Repositories, Store.Images,
--   Store.Recycle, Store.Tokens and Store.Extras have the statements of one table each, with the
--   UNIQUE constraints, the ON CONFLICT clauses and the references to users of the schema.
-- - Http: methods, answers, audit entries. Bodies arrive decoded.
-- - RepoPath: server/repo_path.go, where the name of a repository ends in a path.
-- - Access: userCanAccessRepo, userCanWriteRepo, filterVisibleNamespaces of server/server.go.
-- - Immutable: checkImmutableTag of server/features.go; Immutable.Regex has the part of Go's regular
--   expressions that patterns are translated to, and Immutable.Glob the meaning of a pattern.
-- - Admin: the handlers of server/admin.go for accounts (Admin.Users), permissions
--   (Admin.Permissions) and settings (Admin.Settings); bcrypt is a parameter.
-- - Registry: the registry service is a parameter, a record of functions on a state of its own;
--   Registry.Documented states what the distribution specification says of it, and Registry.Table is a
--   small registry for which that holds.
-- - Collector: the garbage collection of server/server.go, its slot, its push gate and its handler;
--   `registry garbage-collect` is a parameter. Collector.Slot has the interleavings of several runs.
-- - Policy: the five settings of a repository with their fall-backs, and the handler that saves them.
-- - Deletion: server/delete_tags.go and server/recycle_snapshot.go; the size of an image is a parameter.
-- - Retention: retentionCandidates, the run of a retention and the batch deletion of server/server.go;
--   the order of Go's maps is a parameter.
-- - Policy.Unchanged: what reading a policy leaves as it is.
-- - Auth: server/auth.go, server/v2_token.go and server/user.go. A handler takes and gives a world `W`: the
--   database and the sessions. Auth.Middleware has withAuth, Auth.Basic and Auth.Sessions what it asks of
--   cookies and passwords, Auth.ApiTokens and Auth.BearerTokens the two kinds of tokens, Auth.Forgery
--   the CSRF gate, Auth.Accounts login and change of a password. Hashes and base64 are the parameter
--   `Crypto`, random bytes the parameter `Draws`. Auth.Lifetimes compares the sessions with a ledger
--   of logins, Auth.Presented says which credentials a request presents.
-- - Proxy: server/v2_proxy.go over a `Gateway`: the database, the registry and the compiled patterns.
--   Proxy.Checks has what is asked before a request is forwarded, Proxy.Forwarding the forwarding and what
--   is done with the answer. The registry's answer to a forwarded request is the parameter `serve`, the
--   size that a pushed manifest is read for the parameter `pushed_size`, the header of basic
--   credentials the parameter `BasicHeader`.
-- - Restore: server/recycle.go on the same `Gateway`; the parameter `blob_unknown` says whether the
--   registry's last error names MANIFEST_BLOB_UNKNOWN.
-- - Features: the handlers of rules and descriptions of server/features.go, with the statements of
--   Store.Extras. Webhooks: which webhooks an event is sent to, and the guard of their addresses; the
--   parameter `Net` parses URLs and resolves hosts.
-- - Sizes: imageSize and detectArtifactType of server/server.go on decoded JSON; reading a child manifest is
--   a parameter, and the levels that are left are the argument on which imageSizeInto recurses. Go leaves
--   int64 of a float out of its range to the platform: the parameter `overflow` is what 2^63 becomes.
-- - Samples: small databases for the tests.
--
-- Every loop is over a list that is given, or over the levels of an index that are left, of which there
-- are three, so no fuel is needed; `itoa` writes at most 20 digits, which
-- is enough for 64 bits. Not modelled: the listing of repositories and their synchronisation, blob collection on disk, the
-- requests of the registry client, delivery of webhooks, static files, TLS, uploads, configuration,
-- migrations: input and output, or queries that only list.
pub mod Base
pub mod RepoPath
pub mod Store
pub mod Http
pub mod Access
pub mod Immutable
pub mod Samples
pub mod Auth
pub mod Proxy
pub mod Admin
pub mod Registry
pub mod Collector
pub mod Policy
pub mod Retention
pub mod Deletion
pub mod Restore
pub mod Features
pub mod Webhooks
pub mod Sizes
