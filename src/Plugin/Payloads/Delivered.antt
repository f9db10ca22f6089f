-- ===== src/Plugin/Payloads/Delivered.antt =====
-- What the task of a subscription sends.
use tauri_plugin_sqlite.Prelude.{
  ℕ, zero, suc, ◌<◌, ◌≤◌, ◌≡◌, refl, ap, ◌∙◌, inl, inr, Bool, true, false, List, [], ◌∷◌, map,
  arith, none, Text, length, Bool-cases, if◌then◌else◌,
}
use tauri_plugin_sqlite.Observer.Stream.{TableChangeEvent, TableChangeStream, Poll, ready, waiting}
use tauri_plugin_sqlite.Observer.Stream.Next.{selected, Polls, poll_next-Polls}
use tauri_plugin_sqlite.Plugin.Payloads.{TableChangePayload, event_to_payload, forward, forward_all}

-- The sends up to the first that is refused.
unfoldable pub taken : (ℕ → Bool) → ℕ → List TableChangePayload → List TableChangePayload
taken accepts i [] = []
taken accepts i (p ∷ ps) =
    let rest = taken accepts (suc i) ps in elim (accepts i) [ true ↦ p ∷ rest | false ↦ [] ]

module _ (encode : List ℕ → Text) (accepts : ℕ → Bool) (stream : TableChangeStream)
    (closed : Bool) where
  abbrev Delivers : ℕ → ℕ → List TableChangeEvent → Type 0
  Delivers fuel i items =
      forward encode fuel accepts i stream closed items
      ≡ taken accepts i (map (event_to_payload encode) (selected stream items))

  abbrev ends : Bool → Poll × List TableChangeEvent
  ends b = (if b then ready none else waiting, [])

  forward_step :
      (fuel i : ℕ) (items : List TableChangeEvent)
      → ((j : ℕ) (rest : List TableChangeEvent) → length rest < fuel → Delivers fuel j rest)
      → length items ≤ fuel
      → Polls stream closed items
      → Delivers (suc fuel) i items
  unfolding forward taken
  forward_step fuel i items more le (inl (empty, end)) = elim (Bool-cases closed) [
    | inl c ↦ rw empty (rw (end ∙ ap ends c, forward) refl)
    | inr c ↦ rw empty (rw (end ∙ ap ends c, forward) refl)
  ]
  forward_step fuel i items more le (inr (e, rest, next, first, shorter)) = rw first (
      rw (next, forward)
        (elim (Bool-cases (accepts i)) [
          | inl taking ↦ rw taking (
              ap (◌∷◌ (event_to_payload encode e)) (
                ap
                  (λ (p : Poll × List TableChangeEvent).
                    forward encode fuel accepts (suc i) stream closed p.1)
                  next
                ∙ more (suc i) rest (omega arith)))
          | inr refused ↦ rw refused refl
        ]))

  forward-Delivers :
      (fuel i : ℕ) (items : List TableChangeEvent)
      → length items ≤ fuel
      → Delivers (suc fuel) i items
  forward-Delivers zero i items le =
      forward_step zero i items (λ j rest lt. absurd (omega arith)) le
        (poll_next-Polls stream closed items)
  forward-Delivers (suc fuel) i items le =
      forward_step (suc fuel) i items (λ j rest lt. forward-Delivers fuel j rest (omega arith)) le
        (poll_next-Polls stream closed items)

  -- A closed stream gives exactly the payloads of the selected items, up to the first that the
  -- frontend does not take; of an open one, that is what was sent when the task waits.
  pub forward_all-delivers :
      (items : List TableChangeEvent)
      → forward_all encode accepts stream closed items
        ≡ taken accepts 0 (map (event_to_payload encode) (selected stream items))
  unfolding forward_all
  forward_all-delivers items = forward-Delivers (length items) 0 items (omega arith)
