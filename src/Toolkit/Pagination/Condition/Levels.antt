-- ===== src/Toolkit/Pagination/Condition/Levels.antt =====
-- The expanded form, for mixed directions: one clause for each level.
use tauri_plugin_sqlite.Prelude.{
  ℕ, zero, suc, ◌+◌, ◌≤◌, ◌<◌, ◌≡◌, refl, sym, ap, ap₂, ◌∙◌, Bool, true, false, ◌&&◌, ◌||◌, List,
  [], ◌∷◌, ◌++◌, map, append_assoc, Option, some, arith, length, take, all, any,
  get_elem?-append_right, length-append, length-take,
}
use tauri_plugin_sqlite.Toolkit.Row.{Row, get_value}
use tauri_plugin_sqlite.Toolkit.Pagination.{SortDirection, ascending, descending, KeysetColumn}
use tauri_plugin_sqlite.Toolkit.Pagination.Condition.{
  direction_op, equality, inequality, level_parts, level_clauses,
}
use tauri_plugin_sqlite.Toolkit.Pagination.Condition.Sql.{
  Op, eq, gt, lt, op_text, Comparison, comparison_text, conjunction_text, Order, related, nth_param,
  comparison_holds, beyond, comes_after,
}

abbrev pub op_of : SortDirection → Op
op_of ascending = gt
op_of descending = lt

-- The comparisons of one level, whose parameters begin at the given one.
pub level_comparisons : List KeysetColumn → ℕ → ℕ → List Comparison
level_comparisons [] level param = []
level_comparisons (k ∷ ks) zero param =
    record { column = k.name; op = op_of k.direction; param = param } ∷ []
level_comparisons (k ∷ ks) (suc level) param =
    record { column = k.name; op = eq; param = param } ∷ level_comparisons ks level (param + 1)

pub levels : List KeysetColumn → ℕ → ℕ → ℕ → List (List Comparison)
levels ks zero level param = []
levels ks (suc rounds) level param =
    level_comparisons ks level param ∷ levels ks rounds (level + 1) (param + level + 1)

pub level_values : {V : Type 0} → List V → ℕ → ℕ → List V
level_values vs zero level = []
level_values vs (suc rounds) level = take (suc level) vs ++ level_values vs rounds (level + 1)

op_text-op_of : (d : SortDirection) → op_text (op_of d) ≡ direction_op d
op_text-op_of ascending = refl
op_text-op_of descending = refl

inequality_lem :
    (k : KeysetColumn) (param : ℕ)
    → inequality k param
      ≡ comparison_text (record { column = k.name; op = op_of k.direction; param = param })
unfolding inequality
inequality_lem k param = rw (op_text-op_of k.direction)

module _ {V : Type 0} where
  level_parts_lem :
      (ks : List KeysetColumn) (vs : List V) (level param : ℕ)
      → length ks ≡ length vs
      → level < length ks
      → level_parts ks vs level param
        ≡ some (map comparison_text (level_comparisons ks level param), take (suc level) vs)
  unfolding level_parts level_comparisons equality
  level_parts_lem [] vs level param same h = absurd (omega arith)
  level_parts_lem (k ∷ ks) [] level param same h = absurd (omega arith)
  level_parts_lem (k ∷ ks) (v ∷ vs) zero param same h = rw (inequality_lem k param)
  level_parts_lem (k ∷ ks) (v ∷ vs) (suc level) param same h =
      rw (level_parts_lem ks vs level (param + 1) (omega arith) (omega arith))

  pub level_clauses_lem :
      (ks : List KeysetColumn) (vs : List V) (rounds level param : ℕ)
      → length ks ≡ length vs
      → level + rounds ≤ length ks
      → level_clauses ks vs rounds level param
        ≡ some (map conjunction_text (levels ks rounds level param), level_values vs rounds level)
  unfolding level_clauses levels level_values
  level_clauses_lem ks vs zero level param same h = refl
  level_clauses_lem ks vs (suc rounds) level param same h =
      rw (level_parts_lem ks vs level param same (omega arith))
        (rw (level_clauses_lem ks vs rounds (level + 1) (param + level + 1) same (omega arith)))

module _ {V : Type 0} (o : Order V) (row : Row V) where
  -- What one level says, column by column.
  level_holds : List KeysetColumn → List V → ℕ → Bool
  level_holds (k ∷ ks) (v ∷ vs) zero = beyond o k.direction (get_value row k.name) (some v)
  level_holds (k ∷ ks) (v ∷ vs) (suc level) =
      related o eq (get_value row k.name) (some v) && level_holds ks vs level
  level_holds ks vs level = false

  some_level_holds : List KeysetColumn → List V → ℕ → ℕ → Bool
  some_level_holds ks vs zero level = false
  some_level_holds ks vs (suc rounds) level =
      level_holds ks vs level || some_level_holds ks vs rounds (suc level)

pub nth_param_at :
    {V : Type 0} (pre : List V) (v : V) (rest : List V)
    → nth_param (pre ++ (v ∷ rest)) (length pre + 1) ≡ some v
nth_param_at pre v rest =
    let e : length pre + 1 ≡ suc (length pre + 0) = omega arith in
    rw e (get_elem?-append_right pre (v ∷ rest) 0)

and_true : (b : Bool) → (b && true) ≡ b
and_true true = refl
and_true false = refl

pub related-op_of :
    {V : Type 0} (o : Order V) (d : SortDirection) (a b : Option V)
    → related o (op_of d) a b ≡ beyond o d a b
related-op_of o ascending a b = refl
related-op_of o descending a b = refl

module _ {V : Type 0} (o : Order V) (row : Row V) where
  all-level_comparisons :
      (ks : List KeysetColumn) (vs pre rest binds : List V) (level param : ℕ)
      → length ks ≡ length vs
      → level < length ks
      → binds ≡ pre ++ (take (suc level) vs ++ rest)
      → param ≡ length pre + 1
      → all (comparison_holds o binds row) (level_comparisons ks level param)
        ≡ level_holds o row ks vs level
  unfolding level_comparisons comparison_holds level_holds
  all-level_comparisons [] vs pre rest binds level param same h eb ep = absurd (omega arith)
  all-level_comparisons (k ∷ ks) [] pre rest binds level param same h eb ep = absurd (omega arith)
  all-level_comparisons (k ∷ ks) (v ∷ vs) pre rest binds zero param same h eb ep =
      rw (eb, ep, nth_param_at pre v rest, related-op_of o k.direction)
        (and_true (beyond o k.direction (get_value row k.name) (some v)))
  all-level_comparisons (k ∷ ks) (v ∷ vs) pre rest binds (suc level) param same h eb ep =
      ap₂ ◌&&◌ (rw (eb, ep, nth_param_at pre v (take (suc level) vs ++ rest))) (
        all-level_comparisons ks vs (pre ++ (v ∷ [])) rest binds level (param + 1) (omega arith)
          (omega arith) (eb ∙ sym (append_assoc pre (v ∷ []) (take (suc level) vs ++ rest)))
          (omega (arith, length-append pre (v ∷ []))))

  any-levels :
      (ks : List KeysetColumn) (vs pre binds : List V) (rounds level param : ℕ)
      → length ks ≡ length vs
      → level + rounds ≤ length ks
      → binds ≡ pre ++ level_values vs rounds level
      → param ≡ length pre + 1
      → any (all (comparison_holds o binds row)) (levels ks rounds level param)
        ≡ some_level_holds o row ks vs rounds level
  unfolding levels level_values some_level_holds
  any-levels ks vs pre binds zero level param same h eb ep = refl
  any-levels ks vs pre binds (suc rounds) level param same h eb ep =
      ap₂ ◌||◌
        (all-level_comparisons ks vs pre (level_values vs rounds (level + 1)) binds level param same
          (omega arith) eb ep)
        (any-levels ks vs (pre ++ take (suc level) vs) binds rounds (level + 1) (param + level + 1)
            same (omega arith)
            (eb ∙ sym (append_assoc pre (take (suc level) vs) (level_values vs rounds (level + 1))))
            (omega (arith, length-append pre (take (suc level) vs), length-take (suc level) vs))
          ∙ ap (some_level_holds o row ks vs rounds) (omega arith))

  some_level_holds-suc :
      (k : KeysetColumn) (ks : List KeysetColumn) (v : V) (vs : List V) (rounds level : ℕ)
      → some_level_holds o row (k ∷ ks) (v ∷ vs) rounds (suc level) ≡ (
          related o eq (get_value row k.name) (some v) && some_level_holds o row ks vs rounds level)
  unfolding some_level_holds level_holds
  some_level_holds-suc k ks v vs zero level = ground arith
  some_level_holds-suc k ks v vs (suc rounds) level =
      rw (some_level_holds-suc k ks v vs rounds (suc level)) (ground arith)

  -- The levels together are the lexicographic order.
  some_level_holds-comes_after :
      (ks : List KeysetColumn) (vs : List V)
      → length ks ≡ length vs
      → some_level_holds o row ks vs (length ks) 0 ≡ comes_after o ks vs row
  unfolding some_level_holds level_holds comes_after
  some_level_holds-comes_after [] vs same = refl
  some_level_holds-comes_after (k ∷ ks) [] same = absurd (omega arith)
  some_level_holds-comes_after (k ∷ ks) (v ∷ vs) same =
      rw (some_level_holds-suc k ks v vs (length ks) 0)
        (rw (some_level_holds-comes_after ks vs (omega arith)))

  pub any-levels-comes_after :
      (ks : List KeysetColumn) (vs pre : List V) (param : ℕ)
      → length ks ≡ length vs
      → param ≡ length pre + 1
      → any
          (all (comparison_holds o (pre ++ level_values vs (length ks) 0) row))
          (levels ks (length ks) 0 param)
        ≡ comes_after o ks vs row
  any-levels-comes_after ks vs pre param same ep =
      any-levels ks vs pre _ (length ks) 0 param same (omega arith) refl ep
      ∙ some_level_holds-comes_after ks vs same
