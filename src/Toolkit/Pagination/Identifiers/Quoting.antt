-- ===== src/Toolkit/Pagination/Identifiers/Quoting.antt =====
-- `quote_identifier` is read back by SQL's rule for quoted identifiers.
use tauri_plugin_sqlite.Prelude.{
  ℕ, zero, suc, ◌≡◌, ◌≢◌, refl, List, [], ◌∷◌, ◌++◌, map, append_assoc, Option, none, some, arith,
  Text, split, join, length, ◌==◌, if◌then◌else◌, split-ne-nil, double, read_quoted,
  read_quoted-double, NotBefore,
}
use tauri_plugin_sqlite.Toolkit.Pagination.Identifiers.{
  dot, quote_char, escape, quote_part, quote_identifier,
}

read_part : Text → Option (Text × Text)
read_part [] = none
read_part (c ∷ r) = if c == quote_char then read_quoted quote_char r else none

abbrev with_part : Text → Option (List Text × Text) → Option (List Text × Text)
with_part p none = none
with_part p (some (ps, rest)) = some (p ∷ ps, rest)

-- What follows a part: a dot and another part, or the end of the name.
abbrev read_more :
    (Text → Option (List Text × Text)) → Option (Text × Text) → Option (List Text × Text)
read_more again none = none
read_more again (some (p, [])) = some (p ∷ [], [])
read_more again (some (p, c ∷ r)) =
    let rest = with_part p (again r) in if c == dot then rest else some (p ∷ [], c ∷ r)

-- A qualified name of at most the given number of parts.
pub read_name : ℕ → Text → Option (List Text × Text)
unfolding read_part
read_name zero t = none
read_name (suc n) t = read_more (read_name n) (read_part t)

read_part-quote_part :
    (p rest : Text) → NotBefore quote_char rest → read_part (quote_part p ++ rest) ≡ some (p, rest)
unfolding read_part quote_part escape
read_part-quote_part p rest h =
    rw (append_assoc (double quote_char p) (quote_char ∷ []) rest)
      (read_quoted-double quote_char p rest h)

abbrev quoted : List Text → Text
quoted ps = join (dot ∷ []) (map quote_part ps)

read_name-quoted :
    (p : Text) (ps : List Text) (rest : Text)
    → NotBefore quote_char rest
    → NotBefore dot rest
    → read_name (length (p ∷ ps)) (quoted (p ∷ ps) ++ rest) ≡ some (p ∷ ps, rest)
unfolding read_name join
read_name-quoted p [] [] hq hd = rw (read_part-quote_part p [] tt)
read_name-quoted p [] (c ∷ r) hq hd = rw (read_part-quote_part p (c ∷ r) hq) (ground arith)
read_name-quoted p (q ∷ ps) rest hq hd =
    rw (append_assoc (quote_part p) (dot ∷ quoted (q ∷ ps)) rest) (
      rw (read_part-quote_part p (dot ∷ (quoted (q ∷ ps) ++ rest)) (omega arith))
        (rw (read_name-quoted q ps rest hq hd)))

read_name-parts :
    (ps : List Text) (rest : Text)
    → ps ≢ []
    → NotBefore quote_char rest
    → NotBefore dot rest
    → read_name (length ps) (quoted ps ++ rest) ≡ some (ps, rest)
read_name-parts [] rest h hq hd = absurd (h refl)
read_name-parts (p ∷ ps) rest h hq hd = read_name-quoted p ps rest hq hd

-- Whatever the name holds, quotes included, SQL reads `quote_identifier name` as the parts of the
-- name between its dots, and goes on with the text behind it, if that begins with no quote or dot.
pub read_name-quote_identifier :
    (name rest : Text)
    → NotBefore quote_char rest
    → NotBefore dot rest
    → read_name (length (split dot name)) (quote_identifier name ++ rest)
      ≡ some (split dot name, rest)
unfolding quote_identifier
read_name-quote_identifier name rest hq hd =
    read_name-parts (split dot name) rest (split-ne-nil dot name) hq hd
