-- ===== src/Toolkit/Pagination/Condition/Uniform.antt =====
-- The row-value form, where all directions are the same.
use tauri_plugin_sqlite.Prelude.{
  ℕ, zero, suc, ◌+◌, ◌≡◌, refl, sym, ap, ap₂, ◌∙◌, ◌&&◌, ◌||◌, List, [], ◌∷◌, ◌++◌, map,
  append_assoc, some, arith, length, length-append,
}
use tauri_plugin_sqlite.Toolkit.Row.{Row, get_value}
use tauri_plugin_sqlite.Toolkit.Pagination.{SortDirection, KeysetColumn}
use tauri_plugin_sqlite.Toolkit.Pagination.Condition.{placeholder, placeholders}
use tauri_plugin_sqlite.Toolkit.Pagination.Condition.Sql.{
  Order, nth_param, row_value_holds, comes_after,
}
use tauri_plugin_sqlite.Toolkit.Pagination.Condition.Levels.{op_of, nth_param_at, related-op_of}

pub params_from : ℕ → ℕ → List ℕ
params_from zero param = []
params_from (suc n) param = param ∷ params_from n (param + 1)

pub placeholders_lem : (n param : ℕ) → placeholders n param ≡ map placeholder (params_from n param)
unfolding placeholders params_from
placeholders_lem zero param = refl
placeholders_lem (suc n) param = ap (◌∷◌ (placeholder param)) (placeholders_lem n (param + 1))

-- All the columns have the direction.
abbrev pub Uniform : SortDirection → List KeysetColumn → Type 0
Uniform d [] = Unit
Uniform d (k ∷ ks) = (k.direction ≡ d) × Uniform d ks

module _ {V : Type 0} (o : Order V) (row : Row V) (d : SortDirection) where
  row_value_holds-at :
      (ks : List KeysetColumn) (vs pre binds : List V) (param : ℕ)
      → Uniform d ks
      → length ks ≡ length vs
      → binds ≡ pre ++ vs
      → param ≡ length pre + 1
      → row_value_holds o
          (op_of d)
          (map (get_value row) (map (λ (k : KeysetColumn). k.name) ks))
          (map (nth_param binds) (params_from (length ks) param))
        ≡ comes_after o ks vs row
  unfolding row_value_holds params_from comes_after
  row_value_holds-at [] vs pre binds param u same eb ep = refl
  row_value_holds-at (k ∷ ks) [] pre binds param u same eb ep = absurd (omega arith)
  row_value_holds-at (k ∷ ks) (v ∷ vs) pre binds param u same eb ep =
      ap₂ ◌||◌ (rw (here, u.0, related-op_of o d)) (
        ap₂ ◌&&◌ (rw here) (
          row_value_holds-at ks vs (pre ++ (v ∷ [])) binds (param + 1) u.1 (omega arith)
            (eb ∙ sym (append_assoc pre (v ∷ []) vs))
            (omega (arith, length-append pre (v ∷ []), ep))))
    where
      here : nth_param binds param ≡ some v
      here = rw (eb, ep) (nth_param_at pre v vs)

  pub row_value_holds-comes_after :
      (ks : List KeysetColumn) (vs pre : List V) (param : ℕ)
      → Uniform d ks
      → length ks ≡ length vs
      → param ≡ length pre + 1
      → row_value_holds o
          (op_of d)
          (map (get_value row) (map (λ (k : KeysetColumn). k.name) ks))
          (map (nth_param (pre ++ vs)) (params_from (length ks) param))
        ≡ comes_after o ks vs row
  row_value_holds-comes_after ks vs pre param u same ep =
      row_value_holds-at ks vs pre (pre ++ vs) param u same refl ep
