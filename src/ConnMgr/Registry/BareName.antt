-- ===== src/ConnMgr/Registry/BareName.antt =====
-- `canonicalize_path` of a file name without a directory.
use tauri_plugin_sqlite.Prelude.{
  false, [], ◌∷◌, Text, text_eq, Result, err, FsPath, parent, file_name, init, last_name,
  parent_dir, ◌≡◌, refl,
}
use tauri_plugin_sqlite.ConnMgr.{io}
use tauri_plugin_sqlite.ConnMgr.Registry.{canonicalize_path}

-- The empty path, which `Path::parent` gives for a bare file name.
abbrev empty_path : FsPath
empty_path = record { absolute = false; parts = [] }

abbrev pub bare : Text → FsPath
bare name = record { absolute = false; parts = name ∷ [] }

-- For a bare file name of a file that does not exist yet, the parent that is canonicalized is the
-- empty path, not the current directory: if the file system refuses the empty path, as POSIX's
-- realpath does, the whole call fails with that error, whatever it says of the current directory.
canonicalize_path-bare :
    (canonicalize : FsPath → Result Text FsPath) (name e f : Text)
    → text_eq name parent_dir ≡ false
    → canonicalize (bare name) ≡ err e
    → canonicalize empty_path ≡ err f
    → canonicalize_path canonicalize (bare name) ≡ err (io f)
unfolding canonicalize_path parent file_name init last_name
canonicalize_path-bare canonicalize name e f n a b = rw (canonicalize_path, a) (rw n (rw b refl))
