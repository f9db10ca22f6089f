-- ===== src/Toolkit/Pagination/Condition.antt =====
-- pagination.rs, `build_cursor_condition`. `V` is `serde_json::Value`: the values are only copied.
-- The outer `none` is the panic of an index out of range.
pub mod Sql
pub mod Meaning
mod Levels
mod Uniform
use tauri_plugin_sqlite.Prelude.{
  ℕ, zero, suc, ◌+◌, Bool, true, false, ◌&&◌, ◌||◌, List, [], ◌∷◌, ◌++◌, map, Option, none, some,
  Text, codes, join, decimal, length, all, if◌then◌else◌,
}
use tauri_plugin_sqlite.Toolkit.Pagination.{SortDirection, ascending, descending, KeysetColumn}
use tauri_plugin_sqlite.Toolkit.Pagination.Identifiers.{quote_identifier}

infixl 5 ◌>>=◌
abbrev ◌>>=◌ {ℓ κ} : {A : Type ℓ} {B : Type κ} → Option A → (A → Option B) → Option B
none >>= f = none
some a >>= f = f a

abbrev is_ascending : KeysetColumn → Bool
is_ascending k = elim k.direction [ ascending ↦ true | descending ↦ false ]

abbrev is_descending : KeysetColumn → Bool
is_descending k = elim k.direction [ ascending ↦ false | descending ↦ true ]

-- `format!("${}", n)`
abbrev pub placeholder : ℕ → Text
placeholder n = b'$' ∷ decimal n

-- `(0..n).map(|i| format!("${}", next_param + i))`
unfoldable pub placeholders : ℕ → ℕ → List Text
placeholders zero next_param = []
placeholders (suc n) next_param = placeholder next_param ∷ placeholders n (next_param + 1)

unfoldable pub equality : KeysetColumn → ℕ → Text
equality k next_param = quote_identifier k.name ++ (codes " = " ++ placeholder next_param)

-- `match direction { Asc => ">", Desc => "<" }`
abbrev pub direction_op : SortDirection → Text
direction_op ascending = codes ">"
direction_op descending = codes "<"

unfoldable pub inequality : KeysetColumn → ℕ → Text
inequality k next_param =
    quote_identifier k.name
    ++ (codes " " ++ (direction_op k.direction ++ (codes " " ++ placeholder next_param)))

module _ {V : Type 0} where
  -- The body of the loop over the levels: the equalities before the level, then its inequality.
  unfoldable pub level_parts : List KeysetColumn → List V → ℕ → ℕ → Option (List Text × List V)
  unfolding equality inequality
  level_parts (k ∷ ks) (v ∷ vs) zero next_param = some (inequality k next_param ∷ [], v ∷ [])
  level_parts (k ∷ ks) (v ∷ vs) (suc level) next_param = do
    rest ← level_parts ks vs level (next_param + 1)
    some (equality k next_param ∷ rest.0, v ∷ rest.1)
  level_parts ks vs level next_param = none

  -- The loop over the levels, with the number of rounds left.
  unfoldable pub level_clauses :
      List KeysetColumn → List V → ℕ → ℕ → ℕ → Option (List Text × List V)
  unfolding level_parts
  level_clauses keyset cursor_values zero level next_param = some ([], [])
  level_clauses keyset cursor_values (suc rounds) level next_param = do
    here ← level_parts keyset cursor_values level next_param
    rest ← level_clauses keyset cursor_values rounds (level + 1) (next_param + level + 1)
    some ((codes "(" ++ (join (codes " AND ") here.0 ++ codes ")")) ∷ rest.0, here.1 ++ rest.1)

  unfoldable pub build_cursor_condition : List KeysetColumn → List V → ℕ → Option (Text × List V)
  unfolding level_clauses placeholders
  build_cursor_condition keyset cursor_values param_offset =
      let n = length keyset in
      let next_param = param_offset + 1 in
      let all_asc = all is_ascending keyset in
      let all_desc = all is_descending keyset in
      let cols = map (λ (k : KeysetColumn). quote_identifier k.name) keyset in
      let op = if all_asc then codes ">" else codes "<" in
      let row_value =
        codes "("
        ++ (join (codes ", ") cols
            ++ (codes ") "
                ++ (op
                    ++ (codes " ("
                        ++ (join (codes ", ") (placeholders n next_param) ++ codes ")"))))) in
      if all_asc || all_desc then some (row_value, cursor_values) else do
        levels ← level_clauses keyset cursor_values n 0 next_param
        some (join (codes " OR ") levels.0, levels.1)
