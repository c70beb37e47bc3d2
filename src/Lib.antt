-- ===== src/Lib.antt =====
-- emby-migrator: what its Go code does, modelled and proved.
--
-- The program moves metadata, images and technical media information from one Emby server to another
-- through packages on disk. A web server (internal/web) lets users in and starts jobs; a job manager
-- (internal/job) runs them one at a time; the exporter (internal/exporter) writes and reads packages
-- (internal/storage) and plans what is written into the target's database (internal/embydb), around
-- which the web server stops and starts the target's container.
--
-- Modules and the code that they model:
--   Job            internal/job/job.go, the type Job. Types has the record and its channels, Log the
--                  memory log and the publishing of entries, Ops one function per
--                  method, Run a list of calls. Lifecycle, Subscribers and Logs hold the proofs.
--   Manager        internal/job/job.go, the type Manager. Options, Sort, State (Create, pruning,
--                  the heap of jobs), Queue (Submit, runQueue and afterWork as steps); the proofs are
--                  in Prune, Create and Serial.
--   Orchestration  internal/web/media_database_orchestration.go. Host is what it calls, Run
--                  applyMediaDatabaseJob with its helpers; the proofs are in Safety and Restart.
--   Auth           internal/web/auth.go and users.go. LoginRate is the limiter (proofs: Lockout),
--                  Roles and Session the guard of a route and the tokens (proofs: Access), Accounts
--                  the users and their passwords, Change the change of an account (proofs:
--                  Revocation), Right says what a right password is, Login the handler that
--                  puts these together.
--   Storage        internal/storage/manifest.go. Slug has Slug, SafeName and UniqueSlug; the proofs
--                  are in Safe and Unique.
--   Version        internal/web/version_check.go. Numbers compares versions (proofs: Order), Cache has
--                  the response and its cache.
--   Plan           internal/exporter/media_database_plan.go, internal/embydb/identity.go and two
--                  functions of internal/embydb/embydb.go. Merge merges plans (proofs: Lookup),
--                  Binding builds and checks their binding to a server (proofs: Bound),
--                  Readback compares sources after the write (proofs: Matching).
--   Checkpoint     internal/exporter/service.go: the checkpoint of an import and its journal. Types has
--                  the files as values, Replay their loading and what a resumed import skips, Store the
--                  methods of importCheckpointStore. View, History, OurDisk and Writing lead to
--                  Recovery; Done says when an item is done, and Resume is about what is skipped.
--   Match          internal/exporter/service.go: findMatchWithCache. Names and Numbers compare items,
--                  Find has the searches; Filters and Justified lead to Sound.
--   Package        internal/exporter/service.go: Paths has safePackagePath and ResolveExportPath
--                  (proofs: Relative, Inside), Validate the check of a package (proofs: Shows, Intact).
--   Import         internal/exporter/service.go: Retry has retryWithTimeout (proofs: Attempts), Payload
--                  updateItemMetadata and the objects that it sends (proofs: Fields), Types and Item have
--                  importItem with its images (proofs: Images, Confined).
--   Settings       internal/web/settings.go: Connection has resolveEmbyConnection (proofs: Keys).
--   Database       internal/embydb/embydb.go and identity.go. Values are those of a plan and of columns,
--                  Tables the tables and the statements on them, Rows what is made of a stream, a chapter
--                  and a source, Item applyItem, Schema the checks of schema and versions, Apply the
--                  whole of Apply but the removal of old backups, which is in Backups (proofs: Retention).
--                  TableLaws, Written, Step and Loop lead to Whole; Done leads to Again; Fit and Types
--                  are about the schema and the values of each column.
--   Examples       runs at concrete inputs.
--   Prelude        shared tests, lists, texts, and Go's functions on strings and paths.
--
-- Parameters, for code that is not in the repository: HMAC, SHA-256, bcrypt, base64, hexadecimal and
-- JSON (Auth.Session.Codec, Auth.Accounts.Crypto, Plan.Binding.Tables), Unicode's tables
-- (Storage.Slug.Letters), the Docker engine (Orchestration.Host), the target server's searches
-- (Match.Types.Client), regular expressions, by what their matching answers (Match.Types.Patterns),
-- the file system (Package.Types.FileSystem), URLs (Settings.Types.Urls), JSON's values
-- (Import.Payload.Json), the calls of an import to the server (Import.Payload.Link), floating point
-- numbers (Database.Values.Numbers), what SQLite keeps of a value in a column (Database.Tables.Keep), and
-- which of its statements succeed, with what its pragmas answer (Database.Apply.Engine). What is assumed
-- of them is Auth.Session.IsLawful, Storage.Safe.IsUnicode and Orchestration.Host.IsHonest. The host also
-- stands for the exporter's plan operations, the wait for the server and the copy of the backup, each with
-- its answer and its effect on the world.
-- An argument is also what is not modelled of importItem: the merging of an item's metadata (in
-- Import.Types.Entry) and of the target's details, the selection and the comparison of technical fields
-- (in Import.Payload.Json).
--
-- The checkpoint and its journal are values on a disk, with the JSON of an entry as the entry itself; a
-- line that is no entry is malformed. A write may stop at any place in its line, and any other file
-- operation may fail. A checkpoint is put in place whole or not at all, as its rename does.
--
-- A transaction on SQLite's database is a function of the tables, whose result counts only if it is
-- committed. Between its two transactions other processes may write: Apply is given the database at its
-- check, at its backup and at its write. Of two keys of a plan's object that are the same once their case
-- is folded the first counts, where Go takes either.
--
-- Conventions. A text is a list of code points; where the program trims or folds case outside of
-- Storage and Plan's names, white space and case are those of ASCII. A time is a number of nanoseconds
-- since Go's zero time, and a difference of times is floored at 0. The id of a job is the number that
-- its text spells. A map is a function, or a list where its keys are enumerated. Sums of 64-bit
-- numbers are not wrapped: times, counts and ids stay far below 2^63; years and numbers of items are
-- not negative; numbers that are parsed from text are refused from 2^63 on, as strconv does. Titles
-- in other alphabets are compared by Match with the case and the white space of ASCII too.
--
-- Fuel. The search for a free job id has one unit more than there are jobs, the search for a free name
-- one more than there are names. Digits of a number have the number itself. The walk to a
-- parent that exists goes down the elements of the path.
--
-- Not modelled: what a job's log file receives (it is written outside of the lock, and a failed write is
-- ignored), the upgrade of an old password hash, the exporter's workers, its calls to the servers and the merging of metadata, the cache
-- of lookups, the copying of the database's backup, the HTTP clients and handlers, the saving of
-- settings, notifications, database discovery, and the interface in the browser.
pub mod Prelude
pub mod Job
pub mod Manager
mod Examples
pub mod Orchestration
pub mod Auth
pub mod Storage
pub mod Version
pub mod Plan
pub mod Checkpoint
pub mod Match
pub mod Package
pub mod Import
pub mod Settings
pub mod Database
