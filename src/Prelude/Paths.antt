-- ===== src/Prelude/Paths.antt =====
-- Paths of Rust's standard library on Unix, as `std::path` compares them: by their parts, without
-- empty parts and dots. Also the tests of `str` that look for a text in another.
use Prim.Native.Nat.{ℕ}
use mathlib.Core.Bool.{Bool, true, false, not, ◌&&◌, ◌||◌}
use mathlib.Core.List.{List, [], ◌∷◌, ◌++◌}
use mathlib.Core.Option.{Option, none, some}
use tauri_plugin_sqlite.Prelude.Tests.{◌==◌, if◌then◌else◌}
use tauri_plugin_sqlite.Prelude.Texts.{Text, text_eq, split, join, codes}
use tauri_plugin_sqlite.Prelude.Lists.{is_empty}

-- `t.starts_with(p)`
unfoldable pub starts_with : Text → Text → Bool
starts_with [] t = true
starts_with (c ∷ p) [] = false
starts_with (c ∷ p) (d ∷ t) = c == d && starts_with p t

-- `t.contains(p)`
unfoldable pub contains : Text → Text → Bool
unfolding starts_with
contains p [] = is_empty p
contains p (c ∷ t) = starts_with p (c ∷ t) || contains p t

pub record FsPath : Type 0 where
  pub absolute : Bool
  pub parts : List Text

abbrev pub slash : ℕ
slash = b'/'

-- The parts of a text between slashes that name something.
unfoldable pub named_parts : List Text → List Text
named_parts [] = []
named_parts (p ∷ ps) =
    let rest = named_parts ps in if is_empty p || text_eq p (codes ".") then rest else p ∷ rest

-- `Path::new(text)`
unfoldable pub path_of_text : Text → FsPath
unfolding named_parts split starts_with
path_of_text t = record {
  absolute = starts_with (slash ∷ []) t;
  parts = named_parts (split slash t);
}

-- `base.join(path)`: an absolute path replaces the base.
unfoldable pub join_path : FsPath → FsPath → FsPath
join_path base path =
    if path.absolute
    then path
    else record { absolute = base.absolute; parts = base.parts ++ path.parts }

abbrev pub parent_dir : Text
parent_dir = codes ".."

unfoldable pub init : List Text → List Text
init [] = []
init (p ∷ []) = []
init (p ∷ q ∷ ps) = p ∷ init (q ∷ ps)

-- `path.parent()`: of the root and of the empty path there is none, and of a bare file name it is
-- the empty path.
unfoldable pub parent : FsPath → Option FsPath
unfolding init
parent path = if is_empty path.parts then none else some (record path { parts = init path.parts })

unfoldable pub last_name : List Text → Option Text
last_name [] = none
last_name (p ∷ []) = if text_eq p parent_dir then none else some p
last_name (p ∷ q ∷ ps) = last_name (q ∷ ps)

-- `path.file_name()`
unfoldable pub file_name : FsPath → Option Text
unfolding last_name
file_name path = last_name path.parts

unfoldable pub prefix : List Text → List Text → Bool
prefix [] ps = true
prefix (b ∷ bs) [] = false
prefix (b ∷ bs) (p ∷ ps) = text_eq b p && prefix bs ps

abbrev same_root : Bool → Bool → Bool
same_root true b = b
same_root false b = not b

-- `path.starts_with(base)`, part by part.
unfoldable pub path_starts_with : FsPath → FsPath → Bool
unfolding prefix
path_starts_with base path = same_root base.absolute path.absolute && prefix base.parts path.parts

-- The text of a path.
unfoldable pub path_text : FsPath → Text
unfolding join
path_text path = (if path.absolute then slash ∷ [] else []) ++ join (slash ∷ []) path.parts
