-- ===== src/ConnMgr/Database/Removal/Tests.antt =====
-- The write-ahead log of a database main.sqlite.
use tauri_plugin_sqlite.Prelude.{[], ◌∷◌, codes, ◌≡◌, ◌↔◌, arith}
use tauri_plugin_sqlite.ConnMgr.Database.Removal.{wal_path, file_at, wal_path-sqlite_wal}

wal_path-sqlite_wal_example :
    (wal_path (file_at (codes "d" ∷ []) (codes "main.sqlite"))
      ≡ file_at (codes "d" ∷ []) (codes "main.db-wal"))
    × ((wal_path (file_at (codes "d" ∷ []) (codes "main.sqlite"))
          ≡ file_at (codes "d" ∷ []) (codes "main.sqlite-wal"))
        ↔ (codes "sqlite" ≡ codes "db"))
wal_path-sqlite_wal_example =
    wal_path-sqlite_wal (codes "d" ∷ []) (codes "main") (codes "sqlite") (λ e. absurd cc)
      (ground arith)
