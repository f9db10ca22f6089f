-- ===== src/Plugin/Resolve.antt =====
-- src/resolve.rs: the path of a database, from the frontend, in the app's directory. `F` is a state of
-- the file system. Paths are those of Unix.
pub mod Parts
pub mod Contained
mod Tests
use tauri_plugin_sqlite.Prelude.{
  ℕ, Bool, true, false, not, ◌&&◌, ◌||◌, List, [], ◌∷◌, ◌++◌, Option, none, some, Text, codes,
  text_eq, any, if◌then◌else◌, Result, ok, err, ◌>>=◌, ◌==◌, FsPath, path_of_text, join_path,
  parent, file_name, parent_dir, path_starts_with, starts_with, contains, map_err, ok_or,
}
use tauri_plugin_sqlite.Toolkit.{Error}
use tauri_plugin_sqlite.Plugin.{PluginError, invalid_path, path_traversal, toolkit}

-- What the file system answers, with its errors as texts.
pub record FileSystem (F : Type 0) : Type 0 where
  pub exists : F → FsPath → Bool
  pub canonicalize : F → FsPath → Result Text FsPath
  pub create_dir_all : FsPath → F → Result Text (Unit {0}) × F

unfoldable pub is_memory_path : Text → Bool
is_memory_path path =
    text_eq path (codes ":memory:")
    || (starts_with (codes "file::memory:") path
        || (starts_with (codes "file:") path && contains (codes "mode=memory") path))

abbrev pub has_null : Text → Bool
has_null path = any (λ c. c == 0) path

abbrev pub has_parent_dir : FsPath → Bool
has_parent_dir path = any (text_eq parent_dir) path.parts

-- `p.join(joined.file_name().unwrap_or_default())`
abbrev pub join_name : Option Text → FsPath → FsPath
join_name none p = p
join_name (some name) p = record p { parts = p.parts ++ name ∷ [] }

abbrev cannot_canonicalize : {A : Type 0} → Result Text A → Result PluginError A
cannot_canonicalize r = map_err (λ e. invalid_path (codes "cannot canonicalize path: " ++ e)) r

module _ {F : Type 0} (fs : FileSystem F) where
  -- The canonical path of a path that may not exist yet; its directory is created.
  unfoldable pub canonical_resolved : FsPath → F → Result PluginError FsPath × F
  canonical_resolved joined f =
      if fs.exists f joined
      then (cannot_canonicalize (fs.canonicalize f joined), f)
      else elim (parent joined) [
        | none ↦ (err (invalid_path (codes "path has no parent")), f)
        | some dir ↦
            let made = fs.create_dir_all dir f in
            elim made.0 [
              | err e ↦ (err (toolkit (Error.io e)), made.1)
              | ok _ ↦ (
                cannot_canonicalize
                    (fs.canonicalize made.1 dir >>= λ p. ok (join_name (file_name joined) p)),
                made.1,
              )
            ]
      ]

  -- The end of `validate_and_resolve`: the path is contained, or refused.
  unfoldable pub check_contained :
      FsPath → FsPath → Result PluginError FsPath → Result PluginError FsPath
  check_contained joined canonical_base resolved = elim resolved [
    | err e ↦ err e
    | ok p ↦
        if path_starts_with canonical_base p
        then ok joined
        else err (path_traversal (codes "resolved path escapes the base directory"))
  ]

  unfoldable pub validate_and_resolve : Text → FsPath → F → Result PluginError FsPath × F
  validate_and_resolve path base f =
      let rel = path_of_text path in
      let joined = join_path base rel in
      let resolved = canonical_resolved joined f in
      if is_memory_path path
      then (ok rel, f)
      else if has_null path
      then (err (path_traversal (codes "path contains null byte")), f)
      else if rel.absolute
      then (err (path_traversal (codes "absolute paths are not allowed")), f)
      else if has_parent_dir rel
      then (err (path_traversal (codes "parent directory references are not allowed")), f)
      else elim (fs.canonicalize f base) [
        | err e ↦ (err (invalid_path (codes "cannot canonicalize base path: " ++ e)), f)
        | ok canonical_base ↦ (check_contained joined canonical_base resolved.0, resolved.1)
      ]

  -- `resolve_database_path`: `app_config_dir` is what Tauri gives.
  unfoldable pub resolve_database_path : Option FsPath → Text → F → Result PluginError FsPath × F
  resolve_database_path none path f = (err (invalid_path (codes "No app config path found")), f)
  resolve_database_path (some app_path) path f =
      let made = fs.create_dir_all app_path f in
      elim made.0 [
        | err e ↦ (err (toolkit (Error.io e)), made.1)
        | ok _ ↦ validate_and_resolve path app_path made.1
      ]
