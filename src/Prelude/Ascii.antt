-- ===== src/Prelude/Ascii.antt =====
-- The tests of Rust's standard library on ASCII characters.
use Prim.Native.Nat.{ℕ}
use mathlib.Core.Bool.{Bool, ◌&&◌, ◌||◌}
use tauri_plugin_sqlite.Prelude.Tests.{leb}

unfoldable pub is_ascii_digit : ℕ → Bool
is_ascii_digit c = leb b'0' c && leb c b'9'

unfoldable pub is_ascii_alphabetic : ℕ → Bool
is_ascii_alphabetic c = (leb b'a' c && leb c b'z') || (leb b'A' c && leb c b'Z')

unfoldable pub is_ascii_alphanumeric : ℕ → Bool
unfolding is_ascii_digit is_ascii_alphabetic
is_ascii_alphanumeric c = is_ascii_alphabetic c || is_ascii_digit c
