-- ===== src/Toolkit/Pagination/Scan/Termination.antt =====
-- The scanner and its skips always move on, so their fuel is enough.
use tauri_plugin_sqlite.Prelude.{
  ℕ, zero, suc, ◌+◌, ◌-◌, ◌≤◌, ◌<◌, ◌≢◌, ◌≡◌, refl, Bool, true, false, not, ◌&&◌, ◌==◌, ltb, Option,
  none, some, arith, Text, length, inl, inr, Bool-cases, leb, if◌then◌else◌,
}
use tauri_plugin_sqlite.Toolkit.Pagination.Scan.{
  Round, skip_to, test_at, stuck, skip_past, scan_round, scan_next, scan_loop, scan_top_level,
  to_uppercase, skip_quoted_loop, skip_line_comment_loop, skip_block_comment_loop, skip_whitespace,
  skip_quoted, skip_line_comment, skip_block_comment, is_ascii_whitespace, byte_at,
}

-- A skip gets to a position that is not behind `i`.
abbrev GetsPast : ℕ → Option ℕ → Type 0
GetsPast i none = ⊥
GetsPast i (some j) = i ≤ j

if-GetsPast :
    (b : Bool) (i : ℕ) (x y : Option ℕ)
    → (b ≡ true → GetsPast i x)
    → (b ≡ false → GetsPast i y)
    → GetsPast i (if b then x else y)
if-GetsPast true i x y h k = h refl
if-GetsPast false i x y h k = k refl

skip_quoted_loop-GetsPast :
    (f : ℕ) (bytes : Text) (len quote i j : ℕ)
    → len - j < f
    → i ≤ j
    → GetsPast i (skip_quoted_loop f bytes len quote j)
unfolding skip_quoted_loop
skip_quoted_loop-GetsPast zero bytes len quote i j h k = elim h [ ]
skip_quoted_loop-GetsPast (suc f) bytes len quote i j h k =
    if-GetsPast (ltb j len) i _ _
      (λ more.
        if-GetsPast (byte_at bytes j == quote) i _ _
          (λ q.
            if-GetsPast (ltb (j + 1) len && byte_at bytes (j + 1) == quote) i _ _
              (λ d.
                skip_quoted_loop-GetsPast f bytes len quote i (j + 2) (ground arith) (omega arith))
              (λ d. k))
          (λ q. skip_quoted_loop-GetsPast f bytes len quote i (j + 1) (ground arith) (omega arith)))
      (λ ended. k)

skip_line_comment_loop-GetsPast :
    (f : ℕ) (bytes : Text) (len i j : ℕ)
    → len - j < f
    → i ≤ j
    → GetsPast i (skip_line_comment_loop f bytes len j)
unfolding skip_line_comment_loop
skip_line_comment_loop-GetsPast zero bytes len i j h k = elim h [ ]
skip_line_comment_loop-GetsPast (suc f) bytes len i j h k =
    if-GetsPast (ltb j len && not (byte_at bytes j == 10)) i _ _
      (λ more. skip_line_comment_loop-GetsPast f bytes len i (j + 1) (ground arith) (omega arith))
      (λ ended. k)

skip_block_comment_loop-GetsPast :
    (f : ℕ) (bytes : Text) (len i j : ℕ)
    → len - j < f
    → i < len
    → i ≤ j
    → GetsPast i (skip_block_comment_loop f bytes len j)
unfolding skip_block_comment_loop
skip_block_comment_loop-GetsPast zero bytes len i j h l k = elim h [ ]
skip_block_comment_loop-GetsPast (suc f) bytes len i j h l k =
    if-GetsPast (ltb (j + 1) len) i _ _
      (λ more.
        if-GetsPast (byte_at bytes j == b'*' && byte_at bytes (j + 1) == b'/') i _ _
          (λ e. omega arith)
          (λ e.
            skip_block_comment_loop-GetsPast f bytes len i (j + 1) (ground arith) l (omega arith)))
      (λ ended. omega arith)

skip_whitespace-stops :
    (f : ℕ) (bytes : Text) (len j : ℕ)
    → len - j ≤ f
    → let k = skip_whitespace f bytes len j in
      (ltb k len && is_ascii_whitespace (byte_at bytes k)) ≡ false
unfolding skip_whitespace
skip_whitespace-stops zero bytes len j h = ground arith
skip_whitespace-stops (suc f) bytes len j h =
    elim (Bool-cases (ltb j len && is_ascii_whitespace (byte_at bytes j))) [
      | inl e ↦ rw e (skip_whitespace-stops f bytes len (j + 1) (ground arith))
      | inr e ↦ rw e e
    ]

-- A position that a round moves to is not behind it.
abbrev NotBehind : ℕ → Round → Type 0
NotBehind i (skip_to d j) = i ≤ j
NotBehind i test_at = Unit
NotBehind i stuck = ⊥

skip_past-NotBehind : (depth i : ℕ) (o : Option ℕ) → GetsPast i o → NotBehind i (skip_past depth o)
skip_past-NotBehind depth i none h = h
skip_past-NotBehind depth i (some j) h = h

scan_round-NotBehind :
    (bytes : Text) (len depth i : ℕ) → i < len → NotBehind i (scan_round bytes len depth i)
unfolding scan_round skip_quoted skip_line_comment skip_block_comment
scan_round-NotBehind bytes len depth i h = elim (Bool-cases (byte_at bytes i == b'(')) [
  | inl e ↦ rw e (omega arith)
  | inr e ↦ rw e (elim (Bool-cases (byte_at bytes i == b')')) [
    | inl e ↦ rw e (omega arith)
    | inr e ↦ rw e (elim (Bool-cases (byte_at bytes i == 39)) [
      | inl e ↦ rw e (
          skip_past-NotBehind depth i (skip_quoted bytes len i 39)
            (skip_quoted_loop-GetsPast len bytes len 39 i (i + 1) (omega arith) (omega arith)))
      | inr e ↦ rw e (elim (Bool-cases (byte_at bytes i == 34)) [
        | inl e ↦ rw e (
            skip_past-NotBehind depth i (skip_quoted bytes len i 34)
              (skip_quoted_loop-GetsPast len bytes len 34 i (i + 1) (omega arith) (omega arith)))
        | inr e ↦
            rw e
              (elim (Bool-cases
                (byte_at bytes i == b'-' && (ltb (i + 1) len && byte_at bytes (i + 1) == b'-'))) [
                  | inl e ↦ rw e (
                      skip_past-NotBehind depth i (skip_line_comment bytes len i) (
                        skip_line_comment_loop-GetsPast len bytes len i (i + 2) (omega arith)
                          (omega arith)))
                  | inr e ↦
                      rw e
                        (elim (Bool-cases (
                          byte_at bytes i == b'/'
                          && (ltb (i + 1) len && byte_at bytes (i + 1) == b'*'))) [
                            | inl e ↦ rw e (
                                skip_past-NotBehind depth i (skip_block_comment bytes len i) (
                                  skip_block_comment_loop-GetsPast len bytes len i (i + 2)
                                    (omega arith) h (omega arith)))
                            | inr e ↦ rw e (elim (Bool-cases (depth == 0)) [
                              | inl e ↦ rw e tt
                              | inr e ↦ rw e (omega arith)
                            ])
                          ])
                ])
      ])
    ])
  ])
]

scan_next-ne-none {ℓ} :
    {A : Type ℓ} (again : ℕ → ℕ → Option (Option A)) (f len depth i : ℕ) (hit : Option A)
    (r : Round)
    → ((d j : ℕ) → len - j < f → again d j ≢ none)
    → NotBehind i r
    → i < len
    → len - i < suc f
    → scan_next again depth i hit r ≢ none
unfolding scan_next
scan_next-ne-none again f len depth i hit (skip_to d j) more k below h =
    more d (j + 1) (omega arith)
scan_next-ne-none again f len depth i hit stuck more k below h = absurd k
scan_next-ne-none again f len depth i (some a) test_at more k below h = λ e. cc
scan_next-ne-none again f len depth i none test_at more k below h = more depth (i + 1) (omega arith)

module _ {ℓ} {A : Type ℓ} (on_keyword : Text → ℕ → ℕ → Option A) where
  scan_loop-ne-none :
      (f : ℕ) (bytes : Text) (len depth i : ℕ)
      → len - i < f
      → scan_loop on_keyword f bytes len depth i ≢ none
  unfolding scan_loop
  scan_loop-ne-none zero bytes len depth i h = elim h [ ]
  scan_loop-ne-none (suc f) bytes len depth i h = elim (Bool-cases (leb len i)) [
    | inl ended ↦ rw ended (λ e. cc)
    | inr more ↦ rw more (
        scan_next-ne-none (scan_loop on_keyword f bytes len) f len depth i (on_keyword bytes len i)
          (scan_round bytes len depth i) (λ d j k. scan_loop-ne-none f bytes len d j k)
          (scan_round-NotBehind bytes len depth i (ground arith)) (ground arith) h)
  ]

  -- The scan of any query, with any keyword test, ends by itself: neither its fuel nor that of a
  -- skip of a quoted text or a comment runs out. And the loop over the spaces behind ORDER, at any
  -- place of the query, stops at its end or at a byte that is no space.
  pub scan_top_level-ne-none :
      (query : Text)
      → (scan_top_level on_keyword query ≢ none)
        × ((j : ℕ)
            → let bytes = to_uppercase query in
              let k = skip_whitespace (length bytes) bytes (length bytes) j in
              (ltb k (length bytes) && is_ascii_whitespace (byte_at bytes k)) ≡ false)
  unfolding scan_top_level
  scan_top_level-ne-none query =
      let bytes = to_uppercase query in
      (
        scan_loop-ne-none (suc (length bytes)) bytes (length bytes) 0 0 (omega arith),
        λ j. skip_whitespace-stops (length bytes) bytes (length bytes) j (omega arith),
      )
