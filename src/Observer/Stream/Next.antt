-- ===== src/Observer/Stream/Next.antt =====
-- What a stream yields, one poll after the other.
use tauri_plugin_sqlite.Prelude.{
  suc, ◌≤◌, ◌≡◌, refl, ◌∙◌, ◌⊎◌, inl, inr, Bool, List, [], ◌∷◌, none, some, arith, length,
  Bool-cases, if◌then◌else◌,
}
use tauri_plugin_sqlite.Observer.Stream.{
  TableChangeEvent, change, lagged, TableChangeStream, ready, waiting, passes, poll_next,
}

-- The items that the filter lets through; it never holds a loss back.
unfoldable pub selected : TableChangeStream → List TableChangeEvent → List TableChangeEvent
selected stream [] = []
selected stream (change c ∷ items) =
    let rest = selected stream items in if passes stream c then change c ∷ rest else rest
selected stream (lagged count ∷ items) = lagged count ∷ selected stream items

-- A poll gives the next item that is selected, and leaves those behind it; without one, it ends or
-- waits.
abbrev pub Polls : TableChangeStream → Bool → List TableChangeEvent → Type 0
Polls stream closed items =
    ((selected stream items ≡ [])
      × (poll_next stream closed items ≡ (if closed then ready none else waiting, [])))
    ⊎ ((e : TableChangeEvent) × (rest : List TableChangeEvent) × (poll_next stream closed items
          ≡ (ready (some e), rest))
        × (selected stream items ≡ e ∷ selected stream rest)
        × (suc (length rest) ≤ length items))

-- A change that is not selected makes no difference.
longer :
    (stream : TableChangeStream) (c : Bool) (x : TableChangeEvent) (items : List TableChangeEvent)
    → poll_next stream c (x ∷ items) ≡ poll_next stream c items
    → selected stream (x ∷ items) ≡ selected stream items
    → Polls stream c items
    → Polls stream c (x ∷ items)
longer stream c x items p s (inl (empty, end)) = inl (s ∙ empty, p ∙ end)
longer stream c x items p s (inr (e, rest, next, more, le)) =
    inr (e, rest, p ∙ next, s ∙ more, omega arith)

pub poll_next-Polls :
    (stream : TableChangeStream) (closed : Bool) (items : List TableChangeEvent)
    → Polls stream closed items
unfolding poll_next selected
poll_next-Polls stream closed [] = inl (refl, refl)
poll_next-Polls stream closed (lagged count ∷ items) =
    inr (lagged count, items, refl, refl, omega arith)
poll_next-Polls stream closed (change c ∷ items) = elim (Bool-cases (passes stream c)) [
  | inl e ↦ rw e (inr (change c, items, refl, refl, omega arith))
  | inr e ↦
      longer stream closed (change c) items (rw e refl) (rw e refl)
        (poll_next-Polls stream closed items)
]
