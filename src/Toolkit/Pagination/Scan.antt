-- ===== src/Toolkit/Pagination/Scan.antt =====
-- pagination.rs, the scanner for top-level keywords. A query is its bytes, and `to_uppercase` is
-- that of ASCII: bytes of other characters are left as they are. An index past the end is only
-- read behind a test, as in the source. Each loop has fuel; `none` of a skip means that it ran out.
pub mod Termination
use tauri_plugin_sqlite.Prelude.{
  is_ascii_alphanumeric, ℕ, zero, suc, ◌+◌, ◌-◌, Bool, true, false, not, ◌&&◌, ◌||◌, List, [], ◌∷◌,
  map, Option, none, some, Text, codes, text_eq, length, get_or, take, drop, ltb, leb, ◌==◌,
  if◌then◌else◌, Result, ok, err,
}
use tauri_plugin_sqlite.Toolkit.{Error, invalid_pagination_query}

abbrev pub byte_at : Text → ℕ → ℕ
byte_at bytes i = get_or bytes i 0

unfoldable pub to_uppercase : Text → Text
to_uppercase = map (λ c. if leb b'a' c && leb c b'z' then c - 32 else c)

abbrev pub is_ident_char : ℕ → Bool
is_ident_char c = is_ascii_alphanumeric c || c == b'_'

unfoldable pub is_keyword_at : Text → ℕ → ℕ → Text → Bool
is_keyword_at bytes len i keyword =
    let klen = length keyword in
    let before_ok = i == 0 || not (is_ident_char (byte_at bytes (i - 1))) in
    let after_ok = leb len (i + klen) || not (is_ident_char (byte_at bytes (i + klen))) in
    if ltb len (i + klen)
    then false
    else if not (text_eq (take klen (drop i bytes)) keyword)
    then false
    else before_ok && after_ok

abbrev pub is_ascii_whitespace : ℕ → Bool
is_ascii_whitespace c = c == 32 || (c == 9 || (c == 10 || (c == 12 || c == 13)))

unfoldable pub skip_whitespace : ℕ → Text → ℕ → ℕ → ℕ
skip_whitespace zero bytes len j = j
skip_whitespace (suc f) bytes len j =
    let next = skip_whitespace f bytes len (j + 1) in
    if ltb j len && is_ascii_whitespace (byte_at bytes j) then next else j

unfoldable pub is_order_by_at : Text → ℕ → ℕ → Bool
unfolding is_keyword_at skip_whitespace
is_order_by_at bytes len i =
    if not (is_keyword_at bytes len i (codes "ORDER"))
    then false
    else is_keyword_at bytes len (skip_whitespace len bytes len (i + 5)) (codes "BY")

unfoldable pub skip_quoted_loop : ℕ → Text → ℕ → ℕ → ℕ → Option ℕ
skip_quoted_loop zero bytes len quote j = none
skip_quoted_loop (suc f) bytes len quote j =
    let doubled = skip_quoted_loop f bytes len quote (j + 2) in
    let next = skip_quoted_loop f bytes len quote (j + 1) in
    if ltb j len
    then (if byte_at bytes j == quote
        then (if ltb (j + 1) len && byte_at bytes (j + 1) == quote then doubled else some j)
        else next)
    else some j

unfoldable pub skip_quoted : Text → ℕ → ℕ → ℕ → Option ℕ
unfolding skip_quoted_loop
skip_quoted bytes len i quote = skip_quoted_loop len bytes len quote (i + 1)

unfoldable pub skip_line_comment_loop : ℕ → Text → ℕ → ℕ → Option ℕ
skip_line_comment_loop zero bytes len j = none
skip_line_comment_loop (suc f) bytes len j =
    let next = skip_line_comment_loop f bytes len (j + 1) in
    if ltb j len && not (byte_at bytes j == 10) then next else some j

unfoldable pub skip_line_comment : Text → ℕ → ℕ → Option ℕ
unfolding skip_line_comment_loop
skip_line_comment bytes len i = skip_line_comment_loop len bytes len (i + 2)

unfoldable pub skip_block_comment_loop : ℕ → Text → ℕ → ℕ → Option ℕ
skip_block_comment_loop zero bytes len j = none
skip_block_comment_loop (suc f) bytes len j =
    let next = skip_block_comment_loop f bytes len (j + 1) in
    if ltb (j + 1) len
    then (if byte_at bytes j == b'*' && byte_at bytes (j + 1) == b'/' then some (j + 1) else next)
    else some (len - 1)

unfoldable pub skip_block_comment : Text → ℕ → ℕ → Option ℕ
unfolding skip_block_comment_loop
skip_block_comment bytes len i = skip_block_comment_loop len bytes len (i + 2)

-- Where one round of the loop leaves the scanner: the parenthesis depth and the last byte read,
-- or a position to test for a keyword; or a skip ran out of fuel.
pub data Round : Type 0 where
  skip_to : ℕ → ℕ → Round
  test_at : Round
  stuck : Round

abbrev pub skip_past : ℕ → Option ℕ → Round
skip_past depth none = stuck
skip_past depth (some j) = skip_to depth j

unfoldable pub scan_round : Text → ℕ → ℕ → ℕ → Round
unfolding skip_quoted skip_line_comment skip_block_comment
scan_round bytes len depth i =
    let c = byte_at bytes i in
    let next = byte_at bytes (i + 1) in
    if c == b'('
    then skip_to (depth + 1) i
    else if c == b')'
    then skip_to (depth - 1) i
    else if c == 39
    then skip_past depth (skip_quoted bytes len i 39)
    else if c == 34
    then skip_past depth (skip_quoted bytes len i 34)
    else if c == b'-' && (ltb (i + 1) len && next == b'-')
    then skip_past depth (skip_line_comment bytes len i)
    else if c == b'/' && (ltb (i + 1) len && next == b'*')
    then skip_past depth (skip_block_comment bytes len i)
    else if depth == 0
    then test_at
    else skip_to depth i

-- How a round goes on: `hit` is what the keyword test of position `i` returns.
unfoldable pub scan_next {ℓ} :
    {A : Type ℓ} → (ℕ → ℕ → Option (Option A)) → ℕ → ℕ → Option A → Round → Option (Option A)
scan_next again depth i hit (skip_to d j) = again d (j + 1)
scan_next again depth i hit stuck = none
scan_next again depth i (some a) test_at = some (some a)
scan_next again depth i none test_at = again depth (i + 1)

-- The outer `none` means that the fuel ran out, here or in a skip.
module _ {ℓ} {A : Type ℓ} (on_keyword : Text → ℕ → ℕ → Option A) where
  unfoldable pub scan_loop : ℕ → Text → ℕ → ℕ → ℕ → Option (Option A)
  unfolding scan_round scan_next
  scan_loop zero bytes len depth i = none
  scan_loop (suc f) bytes len depth i =
      let rest =
        scan_next (scan_loop f bytes len) depth i (on_keyword bytes len i)
          (scan_round bytes len depth i) in
      if leb len i then some none else rest

  unfoldable pub scan_top_level : Text → Option (Option A)
  unfolding scan_loop to_uppercase
  scan_top_level query =
      let bytes = to_uppercase query in let len = length bytes in scan_loop (suc len) bytes len 0 0

abbrev pub on_forbidden : Text → ℕ → ℕ → Option (Unit {0})
on_forbidden bytes len i =
    if is_order_by_at bytes len i
    then some tt
    else if is_keyword_at bytes len i (codes "LIMIT")
    then some tt
    else none

abbrev pub on_where : Text → ℕ → ℕ → Option (Unit {0})
on_where bytes len i = if is_keyword_at bytes len i (codes "WHERE") then some tt else none

-- `is_some` of a scan.
abbrev pub found : Option (Option (Unit {0})) → Bool
found (some (some u)) = true
found (some none) = false
found none = false

unfoldable pub validate_base_query : Text → Result Error (Unit {0})
unfolding scan_top_level is_order_by_at
validate_base_query query =
    if found (scan_top_level on_forbidden query) then err invalid_pagination_query else ok tt

unfoldable pub has_top_level_where : Text → Bool
unfolding scan_top_level is_keyword_at
has_top_level_where query = found (scan_top_level on_where query)
