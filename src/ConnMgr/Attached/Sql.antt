-- ===== src/ConnMgr/Attached/Sql.antt =====
-- The statements that attach and detach a schema, read back by SQL's rule for quoted texts.
use tauri_plugin_sqlite.Prelude.{
  ℕ, true, [], ◌∷◌, ◌++◌, Option, none, some, Text, codes, is_empty, all, if◌then◌else◌, ◌==◌, ◌≡◌,
  refl, subst, arith, double, read_quoted, read_quoted-double, Lacks, is_ascii_alphanumeric,
  is_ascii_alphabetic, is_ascii_digit, ◌||◌,
}
use tauri_plugin_sqlite.ConnMgr.Attached.{
  is_valid_schema_name, attach_sql, detach_sql, single_quote, escape_path,
}

abbrev double_quote : ℕ
double_quote = 34

-- The text behind a prefix.
abbrev pub behind : Text → Text → Option Text
behind [] t = some t
behind (c ∷ p) [] = none
behind (c ∷ p) (d ∷ t) = let rest = behind p t in if c == d then rest else none

infixl 5 ◌then?◌
abbrev pub ◌then?◌ : {A B : Type 0} → Option A → (A → Option B) → Option B
none then? f = none
some a then? f = f a

-- The name and nothing behind it.
unfoldable pub read_schema : Text → Option Text
read_schema t = read_quoted double_quote t then? λ r. if is_empty r.1 then some r.0 else none

-- `ATTACH DATABASE '<path>' AS "<schema>"`
unfoldable pub read_attach : Text → Option (Text × Text)
unfolding read_schema
read_attach t = behind (codes "ATTACH DATABASE '") t then? λ r.
    read_quoted single_quote r then? λ q.
    behind (codes " AS \"") q.1 then? λ s. read_schema s then? λ name. some (q.0, name)

-- `DETACH DATABASE "<schema>"`
unfoldable pub read_detach : Text → Option Text
unfolding read_schema
read_detach t = behind (codes "DETACH DATABASE \"") t then? read_schema

double-Lacks : (q : ℕ) (t : Text) → Lacks q t → double q t ≡ t
unfolding double
double-Lacks q [] h = refl
double-Lacks q (c ∷ t) h = ground (arith, double-Lacks q t h.1)

all-Lacks :
    (t : Text) → all (λ c. is_ascii_alphanumeric c || c == b'_') t ≡ true → Lacks double_quote t
unfolding is_ascii_alphanumeric is_ascii_alphabetic is_ascii_digit
all-Lacks [] h = tt
all-Lacks (c ∷ t) h = (ground arith, all-Lacks t (ground arith))

read_schema-name :
    (name : Text) → is_valid_schema_name name ≡ true → read_schema (name ++ codes "\"") ≡ some name
unfolding read_schema is_valid_schema_name
read_schema-name name h =
    let plain = double-Lacks double_quote name (all-Lacks name (ground arith)) in
    subst
      (λ t.
        (read_quoted double_quote (t ++ double_quote ∷ []) then? λ r.
        if is_empty r.1 then some r.0 else none)
        ≡ some name)
      plain (rw (read_quoted-double double_quote name [] tt) refl)

-- Whatever the path of a database holds, quotes included, and whatever the schema name that passes
-- the check, SQLite reads the ATTACH statement as this path and this name, and the DETACH statement
-- as this name, with nothing behind them.
pub read_attach-attach_sql :
    (path name : Text)
    → is_valid_schema_name name ≡ true
    → (read_attach (attach_sql path name) ≡ some (path, name))
      × (read_detach (detach_sql name) ≡ some name)
unfolding read_attach read_detach attach_sql escape_path detach_sql
read_attach-attach_sql path name h = (
  rw (read_quoted-double single_quote path (codes " AS \"" ++ (name ++ codes "\"")) (omega arith))
      (rw (read_schema-name name h) refl),
  read_schema-name name h,
)
