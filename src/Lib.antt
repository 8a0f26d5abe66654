-- ===== src/Lib.antt =====
-- The account manager of cube20: a pool of accounts that clients lease, kept in one JSON document. The
-- development models internal/manager in file mode and internal/usage, and of internal/quota and
-- internal/web what they decide between their requests.
--
-- Parts and files.
--   Prelude: lists, texts as lists of code points, maps, integers and decimal numbers.
--   Types: the document and all that it holds (internal/manager/manager.go, internal/quota/codex.go).
--     Times are whole nanoseconds; percentages are exact integers, in a unit in which the score is exact.
--   Result, World: errors as values, and the calls that reach files, clock and random source. `World` is
--     the document on disk, the round-robin file and the auth.json files; `Env` says of each step whether
--     it fails and what it reads. Load, Save, acquireLock and the round-robin file are in World, and
--     World.Steps inverts runs that succeed. Between the steps of one operation no other process changes
--     the files: they hold the lock, or are modelled one after the other.
--   Identity, Rfc3339: sanitizeAccountID, uniqueFromUsed and parseRFC3339 (internal/manager/identity.go).
--     uniqueFromUsed tries the numbers up to 999, which is the fuel of its loop.
--   Normalize: normalizeState, which every Load runs, and its two migrations.
--   Dispatch: the audit trail and the recording of usage (internal/manager/usage.go).
--   Windows, Balance: the quota windows (internal/manager/quota.go), and the load balancer's eligibility,
--     score and choice (internal/manager/loadbalance.go, lease.go). The comparison of candidates is no
--     order, so what sort.Slice makes of them depends on its algorithm: up to twelve are sorted by
--     insertion, as Go does, and the order of more is a parameter, `long_sort` of `Env`.
--   Lease: ClaimLease, TouchLease, UpdateLeasedProfileSnapshot, ReleaseLease and the expiry sweep
--     (internal/manager/lease.go). They choose by Balance and write by Dispatch. A claim is given FetchQuota
--     as an argument, since it drops what the re-probes return.
--   Quota: RecordQuotaReport, RecordLeasedQuota and FetchQuota (internal/manager/quota.go).
--     What FetchQuota asks of the network is a parameter. Quota.Client and Quota.Protocol are
--     FetchForCodexHome (internal/quota/codex.go), with its requests as parameters.
--   Workspaces: the pools, memberships and roles (internal/manager/workspace.go).
--   Accounts: reading and editing one account (internal/manager/accounts.go).
--   Passwords, Users, Sessions, Devices: the people who log in to the website and the devices that lease
--     accounts, with their passwords, sessions and tokens (internal/manager/users.go, sessions.go,
--     clients.go, devices.go, identity.go). `Crypto` holds SHA-256, PBKDF2 and base64.
--   Usage: the token counts and rate limits in the session logs (internal/usage/codex.go, scan.go,
--     ratelimits.go). The files are given with their lines; json.Unmarshal is a parameter; an int64 is
--     its bit pattern.
--   Lock: the loop of acquireLock (internal/manager/fsutil.go) on fuel. Each round takes 50 milliseconds
--     and the loop gives up after two seconds, so that 42 rounds are enough.
--   Lease.Table and Lease.Refine: a table of free and held slots, which the lease operations implement.
--   Profiles: the uploads and the import of profiles and the deletion of an account
--     (internal/manager/accounts.go, identity.go). `Codec` holds json.Unmarshal, base64 and SHA-256, and
--     `Paths` what the file system says of directories.
--   Listing: the list of accounts with the directories it takes up, the balancer's report, the choice
--     for a run, the advice to swap and the refresh queue (internal/manager/accounts.go, loadbalance.go,
--     lease.go, usage.go). `Homes` holds what they read of the file system.
--   Web: the limiter of the logins, the authorization by role and the quota worker's choice
--     (internal/web/auth_handlers.go, workspace_handlers.go, quota_worker.go).
--   Tests: the examples.
--
-- sort.Slice of other lists, by comparisons that are orders, is an insertion sort; so elements that compare
-- as equal may come in another order above twelve elements. A text that is compared or measured is taken to
-- be ASCII where Go counts bytes or changes case.
--
-- Not modelled: the Postgres mode (internal/manager/store_postgres.go), the JSON and TOML coding, the
-- paths and directories, the HTTP handlers (internal/web), the command line (cmd/cube) and the
-- HTTP requests of the quota client.
pub mod Prelude
pub mod Types
pub mod Identity
pub mod Rfc3339
pub mod Result
pub mod Normalize
pub mod Dispatch
pub mod World
pub mod Windows
pub mod Lease
pub mod Balance
pub mod Workspaces
pub mod Accounts
pub mod Quota
pub mod Passwords
pub mod Users
pub mod Sessions
pub mod Devices
pub mod Usage
pub mod Profiles
pub mod Listing
pub mod Web
pub mod Lock
pub mod Tests
