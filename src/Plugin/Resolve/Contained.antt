-- ===== src/Plugin/Resolve/Contained.antt =====
-- A path that is accepted stays in the app's directory.
use tauri_plugin_sqlite.Prelude.{
  Option, none, ◌∷◌, [], true, false, ◌++◌, Text, ok, FsPath, ◌≡◌, ◌⊎◌, some, parent, file_name,
}
use tauri_plugin_sqlite.Plugin.Resolve.{FileSystem}

-- A path with a name in a directory, or the directory, if there is no name.
abbrev pub NamedIn : Option Text → FsPath → FsPath → Type 0
NamedIn none dir path = path ≡ dir
NamedIn (some name) dir path =
    path ≡ record { absolute = dir.absolute; parts = dir.parts ++ name ∷ [] }

module _ {F : Type 0} (fs : FileSystem F) where
  -- Where a path leads. If something is there, it is its canonical path, with links followed. If not,
  -- its directory is created, and it is the name of the path in the canonical directory.
  abbrev pub LeadsTo : FsPath → F → FsPath → Type 0
  LeadsTo p f canonical =
      ((fs.exists f p ≡ true) × (fs.canonicalize f p ≡ ok canonical))
      ⊎ ((fs.exists f p ≡ false)
          × ((dir canonical_dir : FsPath) × (parent p ≡ some dir)
              × ((fs.create_dir_all dir f).0 ≡ ok tt)
              × (fs.canonicalize (fs.create_dir_all dir f).1 dir ≡ ok canonical_dir)
              × NamedIn (file_name p) canonical_dir canonical))
