-- ===== src/Lib.antt =====
-- Verification of tauri-plugin-sqlite, a Tauri plugin for SQLite: a connection manager with one
-- writer per database (crates/sqlx-sqlite-conn-mgr), change notifications over SQLite's hooks
-- (crates/sqlx-sqlite-observer), the toolkit of queries, keyset pagination and transactions
-- (crates/sqlx-sqlite-toolkit), and the plugin's commands over them (src).
--
-- Modelled here are databases and attached databases, keyset pagination, interruptible transactions
-- and change notifications, with their subscriptions.
-- * ConnMgr.Database is crates/sqlx-sqlite-conn-mgr/src/database.rs: the pools of a database, its
--   writer (`acquire_writer`), migrations and `close`. ConnMgr.Attached is attached.rs of the same
--   crate: `acquire_reader_with_attached`, `acquire_writer_with_attached` and `detach_all`, over a
--   store of such databases; Attached.Deadlock lets calls for writers run at the same time.
--   ConnMgr.Registry is registry.rs: `get_or_open_database` and `uncache_database`, and ConnMgr.Open
--   the way from `SqliteDatabase::connect` to it, with the options of the pools.
-- * Toolkit.Pagination is crates/sqlx-sqlite-toolkit/src/pagination.rs: the keyset; Identifiers
--   (`validate_column_name`, `quote_identifier`), Scan (`scan_top_level` and its skips,
--   `validate_base_query`, `has_top_level_where`), Condition (`build_cursor_condition`) and Query
--   (`build_order_by`, `build_paginated_query`).
-- * Toolkit.FetchPage is `FetchPageBuilder` of crates/sqlx-sqlite-toolkit/src/builders.rs. It takes
--   the query that Query builds, runs it and cuts a page from the rows. Toolkit.Row is a decoded
--   row, Toolkit.Queries is `FetchAllBuilder` and `FetchOneBuilder` of the same file, on readers of
--   ConnMgr.Attached, and Toolkit.Writes its `ExecuteBuilder` with attached databases. Toolkit, ConnMgr
--   and Observer hold the errors of the three crates.
-- * Toolkit.Transactions is crates/sqlx-sqlite-toolkit/src/transactions.rs: a transaction that keeps
--   its writer between calls (`continue_with`, `read`, `commit`, `rollback`) and the registry with
--   one such transaction per database path (`insert`, `remove`, `abort_all`); Transactions.Regular is
--   the registry of the tasks of regular transactions.
--   Toolkit.Execution is the builders of wrapper.rs that execute a transaction at once or start one,
--   and Toolkit.Wrapper the rest of that file: `DatabaseWrapper`, which chooses between a writer with
--   hooks and one without, and `bind_value`. Toolkit.Decode is decode.rs (`to_json`), on the JSON of
--   Toolkit.Json.
-- * Plugin.Transactions is the commands of src/commands.rs on them, `begin_interruptible_transaction`,
--   `transaction_continue` and `transaction_read`. A command asks the registry of
--   Toolkit.Transactions for the transaction of a token, uses its writer, and puts it back or ends
--   it. Plugin.Subscriptions is `ActiveSubscriptions` of src/subscriptions.rs, the tasks that
--   forward changes to the frontend, and Plugin.Databases the databases that are loaded, from `load`
--   to `close`, `close_all` and `remove`. Plugin.Resolve is src/resolve.rs, the path of a database in
--   the app's directory, and Plugin.Exit the exit of the app in src/lib.rs: the requests to exit, and
--   the cleanup. Plugin.Migrations is the migrations that the same file runs at setup, each in a task,
--   and the events they emit. Plugin.Observation is the commands `observe`, `subscribe`, `unsubscribe`
--   and `unobserve`, Plugin.Payloads what a subscription sends to the frontend, and Plugin.Attaching
--   the commands `execute` and `execute_transaction` with their specs of attached databases.
--   Plugin holds the plugin's errors, Plugin.ErrorCode their codes.
-- * Observer.Broker is broker.rs and change.rs of crates/sqlx-sqlite-observer/src: the buffer of
--   changes (`on_preupdate`, `on_commit`, `on_rollback`), the tables that are observed, and the
--   conversion of an event (`event_to_change`, `extract_primary_key`). Observer.Hooks is hooks.rs:
--   the callbacks of SQLite, which feed the broker, as a sequence of calls (`fire_all`).
--   Observer.Connections is connection.rs and the part of hooks.rs that registers the callbacks, with
--   the contexts on a heap; Observer.Stream is config.rs and stream.rs, and Observer.Schema is
--   schema.rs, which reads the keys that the broker needs.
-- The children of these modules hold proofs, and SQL's side: Condition.Sql says when SQLite holds a
-- condition true, Identifiers.Quoting how it reads a quoted name, FetchPage.Documented what it
-- answers to a page statement, for a table in the order of the keyset, Attached.Sql how it reads
-- ATTACH and DETACH, Attached.Schemas what they do. Prelude holds shared names, maps from texts for
-- the hash maps, and sorting by a text.
--
-- Numbers and bounds. A text is the list of its codes, a query the list of its bytes, and changing
-- case is that of ASCII. A `usize` has 64 bits, which matters where the page size is increased by
-- one. A loop of the scanner has as fuel one more than the length of the query, and the loops of
-- its skips the length; where these run out, the scan gives `none`. A `Result` is
-- `Result Error`, and a panic of an index out of range is an inner `none`. Times are the ticks of a
-- clock, given to each call. The registry's calls run under its lock, so a history of them is a
-- sequence in any order. What Rust drops is part of a call's outcome, since dropping a transaction
-- gives its writer back and rolls it back.
-- A pool's functions give the pool that is left; a call that waits for a connection is the step at
-- which it gets one.
--
-- Not modelled: sqlx and SQLite, which stand as the parameter `fetch` with the hypothesis `Answers`
-- and as the record `Sqlx` with the hypotheses `Counted` and `Attaches`;
-- values, which are only copied and compared by an `Order` without NULL; a writer's SQL, which is the
-- record `TransactionWriter` of arbitrary functions; reading a raw SQLite value; the broadcast channel,
-- whose messages are the result of `fire_all`, and for a receiver a list;
-- registering commands with Tauri; the JavaScript bindings.
pub mod Prelude
pub mod ConnMgr
pub mod Observer
pub mod Toolkit
pub mod Plugin
