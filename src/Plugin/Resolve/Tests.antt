-- ===== src/Plugin/Resolve/Tests.antt =====
-- Paths in the directory /app, on a file system without links in which nothing exists yet.
use tauri_plugin_sqlite.Prelude.{
  true, false, List, [], ◌∷◌, codes, text_eq, ok, err, FsPath, path_of_text, ◌≡◌, refl, starts_with,
  contains, split, named_parts,
}
use tauri_plugin_sqlite.Plugin.{path_traversal}
use tauri_plugin_sqlite.Plugin.Resolve.{FileSystem, is_memory_path, validate_and_resolve}

abbrev empty_fs : FileSystem (List FsPath)
empty_fs = record {
  exists = λ f p. false;
  canonicalize = λ f p. ok p;
  create_dir_all = λ p f. (ok tt, p ∷ f);
}

abbrev app : FsPath
app = record { absolute = true; parts = codes "app" ∷ [] }

abbrev accepted : FsPath
accepted = record { absolute = true; parts = codes "app" ∷ codes "sub" ∷ codes "my.db" ∷ [] }

escape_run :
    (validate_and_resolve empty_fs (codes "sub/../../my.db") app []).0
    ≡ err (path_traversal (codes "parent directory references are not allowed"))
unfolding validate_and_resolve is_memory_path text_eq starts_with contains path_of_text split
    named_parts
escape_run = refl
