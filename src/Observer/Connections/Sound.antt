-- ===== src/Observer/Connections/Sound.antt =====
-- The contexts of the hooks are neither used when they are freed, nor freed twice, nor leaked.
use tauri_plugin_sqlite.Prelude.{
  ℕ, ◌≤◌, ◌≡◌, ◌≢◌, ◌⊎◌, refl, sym, ap, ◌∙◌, subst, inl, inr, true, false, some, arith, ◌==◌,
  ==_iff, Bool-cases,
}
use tauri_plugin_sqlite.Observer.Connections.{
  Slots, no_hooks, hooks_of, unallocated, live, freed, ObservableConnection, Holder, pooled,
  observed, plain, HookHeap, set_at, register_hooks, unregister_hooks, unhook, World, lend,
}

-- A wrapper whose hooks are registered on its connection.
abbrev pub hooked : ℕ → ObservableConnection
hooked c = record { conn = some c; hooks_registered = true; raw_db = some c }

-- A connection that is lent with hooks has the three of them with one context, which is live; any
-- other has none.
abbrev pub Clean : HookHeap → ℕ → Holder → Type 0
Clean h c pooled = h.slots c ≡ no_hooks
Clean h c plain = h.slots c ≡ no_hooks
Clean h c (observed g) = (x : ℕ) × (h.slots c ≡ hooks_of x) × (h.contexts x ≡ live) × (g ≡ hooked c)

pub record Sound (w : World) : Type 0 where
  pub clean : (c : ℕ) → Clean w.heap c (w.holder c)
  pub unique : (c d x : ℕ) → w.heap.slots c ≡ hooks_of x → w.heap.slots d ≡ hooks_of x → c ≡ d
  pub fresh : (x : ℕ) → w.heap.next ≤ x → w.heap.contexts x ≡ unallocated
  pub owned : (x : ℕ) → w.heap.contexts x ≡ live → (c : ℕ) × (w.heap.slots c ≡ hooks_of x)
  pub safe : w.heap.fault ≡ false

set_at_self : {A : Type 0} (f : ℕ → A) (k : ℕ) (a : A) → set_at f k a k ≡ a
set_at_self f k a = ground arith

set_at_other : {A : Type 0} (f : ℕ → A) (k i : ℕ) (a : A) → (i == k) ≡ false → set_at f k a i ≡ f i
set_at_other f k i a h = rw h refl

hooks_of-injective : (x y : ℕ) → hooks_of x ≡ hooks_of y → x ≡ y
hooks_of-injective x y h = cc (ap (λ (s : Slots). s.preupdate_hook) h)

pub no_hooks-ne : (x : ℕ) → no_hooks ≢ hooks_of x
no_hooks-ne x h = cc (ap (λ (s : Slots). s.preupdate_hook) h)

-- What a connection sees of the heap is its hooks, and the contexts in them.
Clean-keeps :
    (h h' : HookHeap) (c : ℕ) (at : Holder)
    → h'.slots c ≡ h.slots c
    → ((x : ℕ) → h.slots c ≡ hooks_of x → h.contexts x ≡ live → h'.contexts x ≡ live)
    → Clean h c at
    → Clean h' c at
Clean-keeps h h' c pooled s k q = s ∙ q
Clean-keeps h h' c plain s k q = s ∙ q
Clean-keeps h h' c (observed g) s k (x, q, l, e) = (x, s ∙ q, k x q l, e)

-- A context that a connection has is live.
Clean-live :
    (h : HookHeap) (c x : ℕ) (at : Holder)
    → Clean h c at
    → h.slots c ≡ hooks_of x
    → h.contexts x ≡ live
Clean-live h c x pooled s q = absurd (no_hooks-ne x (sym s ∙ q))
Clean-live h c x plain s q = absurd (no_hooks-ne x (sym s ∙ q))
Clean-live h c x (observed g) (y, s, l, e) q =
    ap h.contexts (hooks_of-injective x y (sym q ∙ s)) ∙ l

-- A connection has no hooks, or has them all with one live context.
pub Clean-cases :
    (h : HookHeap) (c : ℕ) (at : Holder)
    → Clean h c at
    → (h.slots c ≡ no_hooks) ⊎ ((x : ℕ) × (h.slots c ≡ hooks_of x) × (h.contexts x ≡ live))
Clean-cases h c pooled s = inl s
Clean-cases h c plain s = inl s
Clean-cases h c (observed g) (x, s, l, e) = inr (x, s, l)

module _ (w : World) (sound : Sound w) (c : ℕ) where
  open sound use {clean, unique, fresh, owned, safe}

  -- Where the hooks of a connection stay as they are, it may go where they fit.
  pub lend-Sound : (at : Holder) → Clean w.heap c at → Sound (lend c at w.heap w)
  lend-Sound at q = record {
    clean = λ d. elim (Bool-cases (d == c)) [
      | inl e ↦ rw e (subst (λ i. Clean w.heap i at) (sym ((==_iff d c).0 e)) q)
      | inr e ↦ rw e (clean d)
    ];
    unique = unique;
    fresh = fresh;
    owned = owned;
    safe = safe;
  }

  -- The heap when the hooks of `c` are registered, and when they are unregistered.
  abbrev pub hooked_heap : HookHeap
  hooked_heap = (register_hooks true c w.heap).1

  abbrev unhooked_heap : HookHeap
  unhooked_heap = unregister_hooks c w.heap

  module _ (free : w.heap.slots c ≡ no_hooks) where
    not-owner : (d x : ℕ) → (d == c) ≡ true → w.heap.slots d ≢ hooks_of x
    not-owner d x e q = no_hooks-ne x (sym (free) ∙ ap w.heap.slots (sym ((==_iff d c).0 e)) ∙ q)

    not-fresh : (d x : ℕ) → w.heap.slots d ≡ hooks_of x → (x == w.heap.next) ≡ false
    not-fresh d x q = elim (Bool-cases (x == w.heap.next)) [
      | inl e ↦
          let u = fresh x (omega (arith, (==_iff x w.heap.next).0 e)) in
          let l = Clean-live w.heap d x (w.holder d) (clean d) q in absurd (cc)
      | inr e ↦ e
    ]

    -- What `d` has behind the registration: `c` has the new context.
    hooked_slot :
        (d x : ℕ)
        → set_at w.heap.slots c (hooks_of w.heap.next) d ≡ hooks_of x
        → ((d ≡ c) × (x ≡ w.heap.next))
          ⊎ ((w.heap.slots d ≡ hooks_of x) × ((x == w.heap.next) ≡ false))
    hooked_slot d x q = elim (Bool-cases (d == c)) [
      | inl e ↦ inl ((==_iff d c).0 e, hooks_of-injective x w.heap.next (sym q ∙ rw e refl))
      | inr e ↦
          let s = sym (set_at_other w.heap.slots c d (hooks_of w.heap.next) e) ∙ q in
          inr (s, not-fresh d x s)
    ]

    hooked_unique :
        (d e x : ℕ)
        → set_at w.heap.slots c (hooks_of w.heap.next) d ≡ hooks_of x
        → set_at w.heap.slots c (hooks_of w.heap.next) e ≡ hooks_of x
        → d ≡ e
    hooked_unique d e x q r = elim (hooked_slot d x q) [
      | inl a ↦ elim (hooked_slot e x r) [
        | inl b ↦ a.0 ∙ sym b.0
        | inr b ↦ absurd (ground (arith, a.1, b.1))
      ]
      | inr a ↦ elim (hooked_slot e x r) [
        | inl b ↦ absurd (ground (arith, a.1, b.1))
        | inr b ↦ unique d e x a.0 b.0
      ]
    ]

    hooked-Clean : (d : ℕ) → Clean hooked_heap d (set_at w.holder c (observed (hooked c)) d)
    unfolding register_hooks
    hooked-Clean d = elim (Bool-cases (d == c)) [
      | inl e ↦ rw e (
        w.heap.next,
        rw e refl,
        set_at_self w.heap.contexts w.heap.next live,
        ap hooked (sym ((==_iff d c).0 e)),
      )
      | inr e ↦ rw e (
          Clean-keeps w.heap hooked_heap d (w.holder d)
            (set_at_other w.heap.slots c d (hooks_of w.heap.next) e)
            (λ x q l. set_at_other w.heap.contexts w.heap.next x live (not-fresh d x q) ∙ l)
            (clean d))
    ]

    pub hook-Sound : Sound (lend c (observed (hooked c)) hooked_heap w)
    unfolding register_hooks
    hook-Sound = record {
      clean = hooked-Clean;
      unique = hooked_unique;
      fresh = λ x le.
          set_at_other w.heap.contexts w.heap.next x live (ground arith) ∙ fresh x (omega arith);
      owned = λ x l. elim (Bool-cases (x == w.heap.next)) [
        | inl e ↦ (
          c,
          set_at_self w.heap.slots c (hooks_of w.heap.next)
              ∙ ap hooks_of (sym ((==_iff x w.heap.next).0 e)),
        )
        | inr e ↦
            let o = owned x (sym (set_at_other w.heap.contexts w.heap.next x live e) ∙ l) in
            (
              o.0,
              elim (Bool-cases (o.0 == c)) [
                | inl k ↦ absurd (not-owner o.0 x k o.1)
                | inr k ↦ set_at_other w.heap.slots c o.0 (hooks_of w.heap.next) k ∙ o.1
              ],
            )
      ];
      safe = safe;
    }

  module _ (x : ℕ) (has : w.heap.slots c ≡ hooks_of x) where
    unhooked : unregister_hooks c w.heap ≡ record w.heap {
      slots = set_at w.heap.slots c no_hooks;
      contexts = set_at w.heap.contexts x freed;
    }
    unfolding unregister_hooks
    unhooked =
        let l = Clean-live w.heap c x (w.holder c) (clean c) has in
        rw (has, unregister_hooks) (rw l refl)

    -- Another context than that of `c`.
    other : (d y : ℕ) → (d == c) ≡ false → w.heap.slots d ≡ hooks_of y → (y == x) ≡ false
    other d y n q = elim (Bool-cases (y == x)) [
      | inl e ↦
          let k = unique d c x (q ∙ ap hooks_of ((==_iff y x).0 e)) has in
          absurd (ground (arith, k))
      | inr e ↦ e
    ]

    unhooked_slot :
        (d y : ℕ)
        → set_at w.heap.slots c no_hooks d ≡ hooks_of y
        → ((d == c) ≡ false) × (w.heap.slots d ≡ hooks_of y)
    unhooked_slot d y q = elim (Bool-cases (d == c)) [
      | inl e ↦ absurd (no_hooks-ne y (sym (rw e refl) ∙ q))
      | inr e ↦ (e, sym (set_at_other w.heap.slots c d no_hooks e) ∙ q)
    ]

    abbrev rest_heap : HookHeap
    rest_heap = record w.heap {
      slots = set_at w.heap.slots c no_hooks;
      contexts = set_at w.heap.contexts x freed;
    }

    module _ (at : Holder) (fits : (h : HookHeap) → h.slots c ≡ no_hooks → Clean h c at) where
      unhooked-Clean : (d : ℕ) → Clean rest_heap d (set_at w.holder c at d)
      unhooked-Clean d = elim (Bool-cases (d == c)) [
        | inl e ↦ rw e (
            subst (λ i. Clean rest_heap i at) (sym ((==_iff d c).0 e))
              (fits rest_heap (set_at_self w.heap.slots c no_hooks)))
        | inr e ↦ rw e (
            Clean-keeps w.heap rest_heap d (w.holder d) (set_at_other w.heap.slots c d no_hooks e)
              (λ y q l. set_at_other w.heap.contexts x y freed (other d y e q) ∙ l) (clean d))
      ]

      rest-Sound : Sound (lend c at rest_heap w)
      rest-Sound = record {
        clean = unhooked-Clean;
        unique = λ d e y q r. unique d e y (unhooked_slot d y q).1 (unhooked_slot e y r).1;
        fresh = λ y le. elim (Bool-cases (y == x)) [
          | inl e ↦
              let u = fresh x (subst (λ i. w.heap.next ≤ i) ((==_iff y x).0 e) le) in
              let l = Clean-live w.heap c x (w.holder c) (clean c) has in absurd (cc)
          | inr e ↦ set_at_other w.heap.contexts x y freed e ∙ fresh y le
        ];
        owned = λ y l. elim (Bool-cases (y == x)) [
          | inl e ↦ absurd (let k : freed ≡ live = sym (rw e refl) ∙ l in cc)
          | inr e ↦
              let o = owned y (sym (set_at_other w.heap.contexts x y freed e) ∙ l) in
              (
                o.0,
                elim (Bool-cases (o.0 == c)) [
                  | inl k ↦ absurd (
                      let j =
                        hooks_of-injective x y
                          (sym has ∙ ap w.heap.slots (sym ((==_iff o.0 c).0 k)) ∙ o.1) in
                      ground (arith, j))
                  | inr k ↦ set_at_other w.heap.slots c o.0 no_hooks k ∙ o.1
                ],
              )
        ];
        safe = safe;
      }

      -- A wrapper around `c` is done with, and `c` goes on without hooks.
      pub unhook-Sound : Sound (lend c at (unhook (hooked c) w.heap) w)
      unfolding unhook
      unhook-Sound = subst (λ h. Sound (lend c at h w)) (sym unhooked) rest-Sound
