-- ===== src/ConnMgr/Attached/Tests.antt =====
-- Two databases on the small SQLite.
use tauri_plugin_sqlite.Prelude.{
  Unique, map, List, [], ◌∷◌, ◌++◌, some, Text, codes, text_eq, Result, ok, err, ◌≡◌, refl, double,
  read_quoted, ◌⊎◌, ◌≤◌, sort_by, insert_by, text_ltb, is_ascii_alphanumeric, is_ascii_alphabetic,
  is_ascii_digit,
}
use tauri_plugin_sqlite.ConnMgr.{
  ConnError, cannot_attach_read_write_to_reader, duplicate_attached_database,
}
use tauri_plugin_sqlite.ConnMgr.Attached.{
  Store, AttachedSpec, AttachedWriteGuard, attach_sql, detach_sql, is_valid_schema_name,
  acquire_writer_with_attached, acquire_reader_with_attached, lock_order, db_entries,
  attach_readers, acquire_reader, detach_reader, detach_loop, first_duplicate, read_write_databases,
  escape_path, release_reader, path_of,
}
use tauri_plugin_sqlite.ConnMgr.Attached.Sql.{
  read_attach, read_detach, read_schema, read_attach-attach_sql,
}
use tauri_plugin_sqlite.ConnMgr.Attached.Reader.{
  sorted, detach_reader-acquire_reader_with_attached, acquire_reader_with_attached-fails,
}
use tauri_plugin_sqlite.ConnMgr.Attached.Schemas.{Stops, names_of}
use tauri_plugin_sqlite.ConnMgr.Attached.LockOrder.{IsRepeated}
use tauri_plugin_sqlite.ConnMgr.Attached.Locks.{Accounted, guards_of, free}
use tauri_plugin_sqlite.ConnMgr.Attached.Outcome.{
  HoldsEntries, acquire_writer_with_attached-HoldsEntries, acquire_writer_with_attached-Accounted,
}
use tauri_plugin_sqlite.ConnMgr.Attached.Deadlock.{
  Task, Step, acquire, Reachable, start, later, arrive, Run, done, more, remaining,
}
use tauri_plugin_sqlite.ConnMgr.Attached.Deadlock.Progress.{Reachable-Run-finishes}
use tauri_plugin_sqlite.ConnMgr.Attached.SmallSqlite.{
  test_out, test_guard, reader_runs, reader_acquires, test_sqlx, test_pools, test_attaches,
  connection, test_store, reads, writes,
}

-- The writer of /a.db is acquired first, although /b'.db is the main database.
lock_order_run : lock_order test_store 0 (writes 1 ∷ []) ≡ 1 ∷ 0 ∷ []
unfolding lock_order db_entries read_write_databases sort_by insert_by text_ltb
lock_order_run = refl

read_attach-attach_sql_example :
    (read_attach (attach_sql (codes "/b'.db") (codes "other"))
      ≡ some (codes "/b'.db", codes "other"))
    × (read_detach (detach_sql (codes "other")) ≡ some (codes "other"))
unfolding is_valid_schema_name is_ascii_alphanumeric is_ascii_alphabetic is_ascii_digit
read_attach-attach_sql_example = read_attach-attach_sql (codes "/b'.db") (codes "other") refl

detach_runs_ok : (detach_reader test_sqlx 0 test_guard test_out.1).0 ≡ ok tt
unfolding detach_reader detach_loop detach_sql read_attach read_detach read_schema read_quoted
    text_eq
detach_runs_ok = refl

detach_reader-acquire_reader_with_attached_example :
    (back : List Text) × ((detach_reader test_sqlx 0 test_guard test_out.1).1
      ≡ release_reader test_sqlx 0 back test_out.1)
    × (back ≡ connection)
detach_reader-acquire_reader_with_attached_example =
    detach_reader-acquire_reader_with_attached test_sqlx test_attaches 0 (reads ∷ []) test_store
      connection test_guard reader_acquires reader_runs detach_runs_ok

-- The second spec, in the order of the paths, asks to write.
abbrev bad_specs : List AttachedSpec
bad_specs = writes 0 ∷ reads ∷ []

abbrev bad_paths : List Text
bad_paths =
    map (λ spec. path_of test_store spec.database)
      (sorted test_sqlx test_attaches 0 bad_specs test_store)

reader_fails :
    (acquire_reader_with_attached test_sqlx 0 bad_specs test_store).0
    ≡ err cannot_attach_read_write_to_reader
unfolding acquire_reader_with_attached acquire_reader attach_readers attach_sql escape_path sort_by
    insert_by first_duplicate read_attach read_schema read_quoted double is_valid_schema_name
    is_ascii_alphanumeric is_ascii_alphabetic is_ascii_digit text_eq text_ltb
reader_fails = refl

-- The connection is back in the pool with "other" attached.
acquire_reader_with_attached-fails_example :
    (back : List Text) × (before after : List AttachedSpec) × ((acquire_reader_with_attached
        test_sqlx 0 bad_specs test_store).1
      ≡ release_reader test_sqlx 0 back (acquire_reader test_sqlx 0 test_store).1)
    × (sorted test_sqlx test_attaches 0 bad_specs test_store ≡ before ++ after)
    × (back ≡ connection ++ names_of before)
    × (((before ≡ [])
          × ((path : Text) × (cannot_attach_read_write_to_reader ≡ duplicate_attached_database path)
              × IsRepeated path bad_paths))
        ⊎ (Unique bad_paths
            × (spec : AttachedSpec) × (rest : List AttachedSpec) × (after ≡ spec ∷ rest)
            × Stops spec cannot_attach_read_write_to_reader))
acquire_reader_with_attached-fails_example =
    acquire_reader_with_attached-fails test_sqlx test_attaches 0 bad_specs test_store connection
      cannot_attach_read_write_to_reader reader_acquires reader_fails

abbrev writer_out :
    (out : Result ConnError (AttachedWriteGuard (List Text)) × Store (List (List Text)))
    × (acquire_writer_with_attached test_sqlx 0 (writes 1 ∷ []) test_store ≡ some out)
    × HoldsEntries test_sqlx 0 (writes 1 ∷ []) test_store out.0
writer_out = acquire_writer_with_attached-HoldsEntries test_sqlx 0 (writes 1 ∷ []) test_store

acquire_writer_with_attached-HoldsEntries_example :
    (out : Result ConnError (AttachedWriteGuard (List Text)) × Store (List (List Text)))
    × (acquire_writer_with_attached test_sqlx 0 (writes 1 ∷ []) test_store ≡ some out)
    × HoldsEntries test_sqlx 0 (writes 1 ∷ []) test_store out.0
acquire_writer_with_attached-HoldsEntries_example =
    acquire_writer_with_attached-HoldsEntries test_sqlx 0 (writes 1 ∷ []) test_store

acquire_writer_with_attached-Accounted_example :
    Accounted 1 (guards_of writer_out.0.0) (free test_sqlx test_pools writer_out.0.1 1) 1
acquire_writer_with_attached-Accounted_example =
    acquire_writer_with_attached-Accounted test_sqlx 0 (writes 1 ∷ []) test_store test_pools
      writer_out.0 1 writer_out.1

-- One call writes to /b'.db with /a.db attached for writing, the other the other way round.
abbrev both : Text → List Text → Task
both p ps = record { held = []; waiting = p ∷ ps }

abbrev two_tasks : List Task
two_tasks =
    both (codes "/a.db") (codes "/b'.db" ∷ []) ∷ both (codes "/a.db") (codes "/b'.db" ∷ []) ∷ []

two_tasks-Reachable : Reachable two_tasks
unfolding first_duplicate lock_order db_entries read_write_databases sort_by insert_by text_ltb
    text_eq
two_tasks-Reachable =
    later (later start (arrive test_store 0 (writes 1 ∷ []) [] refl))
      (arrive test_store 1 (writes 0 ∷ []) (both (codes "/a.db") (codes "/b'.db" ∷ []) ∷ []) refl)

abbrev one_holds : List Task
one_holds =
    record { held = codes "/a.db" ∷ []; waiting = codes "/b'.db" ∷ [] }
    ∷ both (codes "/a.db") (codes "/b'.db" ∷ [])
    ∷ []

one_runs : Run 1 two_tasks one_holds
one_runs =
    more
      (acquire [] (both (codes "/a.db") (codes "/b'.db" ∷ []) ∷ [])
        (both (codes "/a.db") (codes "/b'.db" ∷ [])) (codes "/a.db") (codes "/b'.db" ∷ []) refl
        refl)
      (done one_holds)

Reachable-Run-finishes_example :
    (1 ≤ remaining two_tasks) × ((one_holds ≡ []) ⊎ ((v : List Task) × Step one_holds v))
Reachable-Run-finishes_example =
    Reachable-Run-finishes two_tasks one_holds 1 two_tasks-Reachable one_runs
