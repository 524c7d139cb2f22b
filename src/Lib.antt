-- ===== src/Lib.antt =====
-- Verification of cangling-update, the server that installs and runs the Cangling products on a host
-- and, as a master, on the hosts of its cluster.
--
-- The program is one Rust binary (src/*.rs). This library models the parts that decide something: who
-- may act, what is run, and what is written to files that other programs read.
--
--   Base, Text      Booleans, options, lists, maps, and texts as lists of code points, with the string
--                   operations of Rust's standard library that the sources use.
--   Errors          src/error.rs: the error answers and the result type.
--   Auth            src/auth.rs, src/state.rs and the account tables of src/db.rs. Auth/Guard is
--                   `LoginGuard`; Auth/Tables the SQL statements on users and sessions; Auth/Tokens the
--                   tokens in headers and queries; Auth/Session `login`, `setup`, `change_password`,
--                   `logout` and `current_user`; Auth/Gate `is_public` and `require_auth`;
--                   Auth/Commands the commands of src/main.rs on accounts; Auth/Calls says which paths are
--                   calls of other machines. Auth/Lockout and Auth/Locking are about the guard's bounds
--                   and its locking, Auth/Access about what a login and a token need, Auth/Locked about
--                   tries on a locked account, Auth/Entry about what a request needs, Auth/Setup about
--                   the first account, Auth/Handlers, with Auth/Upheld and
--                   Auth/UpheldByCommands, about the tables under all requests and commands.
--   Jobs            src/progress.rs: the table of jobs; Jobs/Laws its invariant.
--   Binaries        src/binaries.rs and src/cluster/self_update.rs: Binaries/Versions compares versions,
--                   Binaries/Elf reads headers, Binaries/Offer finds the binary that a worker is offered.
--   Cluster         src/cluster/server.rs: Cluster/Registry is the table of nodes, Cluster/Requests the
--                   handlers `register`, `heartbeat` and `auth_sync`, Cluster/Merge (with
--                   children) what `dedupe_nodes` leaves, Cluster/Upkeep the master's own row and name,
--                   Cluster/Upserts what a write leaves, Cluster/Steps the invariant of the tables,
--                   Cluster/Beats, Cluster/Accounts and Cluster/Token what the handlers promise.
--   Paths           src/paths.rs: file names, compose files and .env files; Paths/Names what is accepted.
--   Sql             src/dbadmin.rs: Sql/Quote quotes names and values, Sql/Rows builds statements,
--                   Sql/Lead looks at free ones, Sql/Scan is how PostgreSQL reads them,
--                   with what is shown of deletions, updates and pages of rows.
--   Storage         src/storage.rs: Storage/Validate and Storage/Normalize check a form, Storage/Mount
--                   builds the arguments of mount, Storage/Fstab edits /etc/fstab.
--   Backups         src/dbbackup.rs: Backups/Schedule is the table of schedules and the scheduler,
--                   Backups/Retention the directories of backups; Backups/Runs, Once and Due are about
--                   how often a backup is made, Backups/Kept about what is removed.
--   Docker          src/docker.rs: the names that are accepted, and what docker prints.
--   Hosts, Shell    src/hosts.rs and `shell_quote`: Hosts/Table is the table of managed hosts, Hosts/Secret
--                   how passwords are stored, Hosts/Inventory the synchronisation with the cluster;
--                   Hosts/RoundTrip is about reading passwords back, Hosts/Entries about the rows
--                   of nodes, Hosts/Known and Hosts/Synced about what a synchronisation leaves.
--   Projects        src/db.rs and src/api.rs: Projects/Tables and Projects/Revisions are the SQL statements
--                   on projects, versions and revisions, Projects/Save and Projects/Write the saving of
--                   compose and .env files, Projects/Calls what the handlers do to the tables.
--                   Projects/Journal is what the revisions stand for, Projects/Refine and
--                   Projects/Positions that the tables implement it; Projects/Kept and Projects/Saved are
--                   about a save, Projects/Versions, Sound, Made and Reachable about the invariant of the
--                   versions, Projects/Current about the one a project stands at.
--   Stats           src/nginx_stats.rs: Stats/Scan is the scan of a log; Stats/Once is about its batches,
--                   Stats/Counts about its counts, Stats/Growing about scans one after another.
--   Tests           the theorems at concrete inputs.
--
-- How they interact: a request finds its user through Auth; the handlers of the other parts answer with
-- Errors; long ones report to Jobs; the offer to a worker is built when it registers or beats.
--
-- State is passed explicitly: a handler is a function from the state before to the state after and an
-- answer. A request is one step on the state, as between its locks; `setup` takes the lock of the
-- database twice, and its two halves are definitions of their own. That several logins can be between
-- their look at the guard and their entry in it is not modelled. Time is an argument, in nanoseconds
-- where the code compares instants. Numbers are natural; the percentage of a job saturates at 64 bits as the
-- code does. A text is a list of code points; the tests on bytes in the sources are tests on ASCII
-- characters, which no byte of a longer code point passes.
--
-- The loop that drops comments in Sql/Lead runs on fuel, the length of the text, which is proved to be
-- enough; every other loop runs over a list.
--
-- Not modelled: password hashing and the password policy (parameters of Auth/Session), the random
-- tokens (arguments), a failing disk or database, the processes that the program starts, HTTP, and the
-- modules that only glue those together.
mod Base
pub mod Text
pub mod Errors
pub mod Auth
pub mod Jobs
pub mod Binaries
pub mod Cluster
pub mod Paths
pub mod Sql
pub mod Backups
pub mod Docker
pub mod Hosts
pub mod Projects
pub mod Shell
pub mod Stats
pub mod Storage
mod Tests
