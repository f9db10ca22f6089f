-- ===== src/Toolkit/Json.antt =====
-- `serde_json::Value`, as far as the toolkit looks into it.
use tauri_plugin_sqlite.Prelude.{ℕ, Bool, Text}

-- The values of JSON, with numbers as serde_json keeps them: an integer that is not negative, the
-- absolute value of a negative integer, or the bits of a floating-point number.
pub data Json : Type 0 where
  null : Json
  bool : Bool → Json
  string : Text → Json
  unsigned : ℕ → Json
  negative : ℕ → Json
  float : ℕ → Json
  compound : Text → Json
