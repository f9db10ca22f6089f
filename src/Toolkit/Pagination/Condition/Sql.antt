-- ===== src/Toolkit/Pagination/Condition/Sql.antt =====
-- The SQL that a cursor condition stands for: conditions as data, their text, and when SQLite
-- holds a condition true of a row. This is SQL's side, written without the code.
use tauri_plugin_sqlite.Prelude.{
  ℕ, zero, suc, Bool, false, ◌&&◌, ◌||◌, List, ◌∷◌, ◌++◌, map, Option, none, some, Text, codes,
  join, decimal, get_elem?, all, any,
}
use tauri_plugin_sqlite.Toolkit.Row.{Row, get_value}
use tauri_plugin_sqlite.Toolkit.Pagination.{SortDirection, ascending, descending, KeysetColumn}
use tauri_plugin_sqlite.Toolkit.Pagination.Identifiers.{quote_identifier}

pub data Op : Type 0 where
  eq gt lt : Op

-- `"name" op $param`
pub record Comparison : Type 0 where
  pub column : Text
  pub op : Op
  pub param : ℕ

pub data Condition : Type 0 where
  row_value : List Text → Op → List ℕ → Condition
  any_of : List (List Comparison) → Condition

abbrev pub op_text : Op → Text
op_text eq = codes "="
op_text gt = codes ">"
op_text lt = codes "<"

abbrev param_text : ℕ → Text
param_text n = codes "$" ++ decimal n

abbrev pub comparison_text : Comparison → Text
comparison_text c =
    quote_identifier c.column ++ (codes " " ++ (op_text c.op ++ (codes " " ++ param_text c.param)))

abbrev pub conjunction_text : List Comparison → Text
conjunction_text cs = codes "(" ++ (join (codes " AND ") (map comparison_text cs) ++ codes ")")

unfoldable pub condition_text : Condition → Text
condition_text (row_value cols op params) =
    codes "("
    ++ (join (codes ", ") (map quote_identifier cols)
        ++ (codes ") "
            ++ (op_text op
                ++ (codes " (" ++ (join (codes ", ") (map param_text params) ++ codes ")")))))
condition_text (any_of clauses) = join (codes " OR ") (map conjunction_text clauses)

-- SQLite's comparison of two values that are not NULL.
pub record Order (V : Type 0) : Type 0 where
  pub same : V → V → Bool
  pub less : V → V → Bool

module _ {V : Type 0} (o : Order V) where
  -- A missing column or parameter satisfies nothing.
  abbrev pub related : Op → Option V → Option V → Bool
  related eq (some a) (some b) = o.same a b
  related gt (some a) (some b) = o.less b a
  related lt (some a) (some b) = o.less a b
  related op _ _ = false

  -- `(a, b, …) op (x, y, …)`: the first column that differs decides.
  unfoldable pub row_value_holds : Op → List (Option V) → List (Option V) → Bool
  row_value_holds op (a ∷ left) (b ∷ right) =
      related op a b || (related eq a b && row_value_holds op left right)
  row_value_holds op left right = false

-- `$n` is the `n`-th bound value, counted from 1.
abbrev pub nth_param : {V : Type 0} → List V → ℕ → Option V
nth_param binds zero = none
nth_param binds (suc i) = get_elem? binds i

module _ {V : Type 0} (o : Order V) (binds : List V) (row : Row V) where
  unfoldable pub comparison_holds : Comparison → Bool
  comparison_holds c = related o c.op (get_value row c.column) (nth_param binds c.param)

  unfoldable pub condition_holds : Condition → Bool
  unfolding row_value_holds comparison_holds
  condition_holds (row_value cols op params) =
      row_value_holds o op (map (get_value row) cols) (map (nth_param binds) params)
  condition_holds (any_of clauses) = any (all comparison_holds) clauses

module _ {V : Type 0} (o : Order V) where
  abbrev pub beyond : SortDirection → Option V → Option V → Bool
  beyond ascending = related o gt
  beyond descending = related o lt

  -- In the order of the keyset the row stands behind the one that the cursor was taken from.
  unfoldable pub comes_after : List KeysetColumn → List V → Row V → Bool
  comes_after (k ∷ ks) (v ∷ vs) row =
      beyond k.direction (get_value row k.name) (some v)
      || (related o eq (get_value row k.name) (some v) && comes_after ks vs row)
  comes_after ks vs row = false
