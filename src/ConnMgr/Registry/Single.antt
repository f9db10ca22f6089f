-- ===== src/ConnMgr/Registry/Single.antt =====
-- The registry gives out one database for a path.
use tauri_plugin_sqlite.Prelude.{
  ℕ, true, false, [], ◌∷◌, none, some, Text, text_eq, text_eq→≡, Result, ok, err, ◌==◌, ==_iff, Map,
  find, put, erase, FsPath, path_of_text, ◌≡◌, ◌≢◌, refl, ◌∙◌, ap, sym, subst, Bool-cases,
  Option-cases, Result-cases, inl, inr, find-put, find-put_other, find-erase_other, find-head,
}
use tauri_plugin_sqlite.ConnMgr.{ConnError}
use tauri_plugin_sqlite.ConnMgr.Registry.{
  Status, gone, alive, Registry, canonicalize_path, is_alive, with_status, upgrade, retain_alive,
  opened, open_locked, get_or_open_database, uncache_database, let_go, close_handle, mark_closed,
  is_memory_database,
}

module _ {A : Type 0} where
  -- A database that is open is the one that the registry has under its path.
  unfoldable pub Registered : Registry A → Type 0
  Registered r =
      (h : ℕ) (key : Text) (a : A)
      → r.status h ≡ alive a (some key) false
      → find key r.entries ≡ some h

  status-same :
      (h i : ℕ) (st : Status A) (r : Registry A)
      → (i == h) ≡ true
      → Registry.status (with_status h st r) i ≡ st
  status-same h i st r e = rw e refl

  status-other :
      (h i : ℕ) (st : Status A) (r : Registry A)
      → (i == h) ≡ false
      → Registry.status (with_status h st r) i ≡ r.status i
  status-other h i st r e = rw e refl

  retain_alive-find :
      (status : ℕ → Status A) (k : Text) (h : ℕ) (m : Map ℕ)
      → is_alive (status h) ≡ true
      → find k m ≡ some h
      → find k (retain_alive status m) ≡ some h
  unfolding find retain_alive
  retain_alive-find status k h [] a f = cc
  retain_alive-find status k h ((l, i) ∷ m) a f = elim (Bool-cases (text_eq l k)) [
    | inl e ↦ let same = find-head k l i h m e f in rw same (rw a (rw e refl))
    | inr e ↦
        let rest = retain_alive-find status k h m a (rw e at f) in
        elim (Bool-cases (is_alive (status i))) [ inl b ↦ rw b (rw e rest) | inr b ↦ rw b rest ]
  ]

  upgrade-finds :
      (key : Text) (h : ℕ) (r : Registry A)
      → find key r.entries ≡ some h
      → is_alive (r.status h) ≡ true
      → upgrade key r ≡ some h
  unfolding upgrade
  upgrade-finds key h r f a = rw (upgrade, f) (rw a refl)

  abbrev cleaned : Registry A → Registry A
  cleaned r = record r { entries = retain_alive r.status r.entries }

  cleaned-Registered : (r : Registry A) → Registered r → Registered (cleaned r)
  unfolding Registered
  cleaned-Registered r reg h key a s =
      retain_alive-find r.status key h r.entries (ap is_alive s) (reg h key a s)

  abbrev added : Text → A → Registry A → Registry A
  added key a r = record (opened (some key) a r) { entries = put key r.next r.entries }

  added-Registered :
      (key : Text) (a : A) (r : Registry A)
      → ((h : ℕ) (b : A) → r.status h ≢ alive b (some key) false)
      → Registered r
      → Registered (added key a r)
  unfolding Registered opened
  added-Registered key a r none_alive reg h key' a' s = elim (Bool-cases (h == r.next)) [
    | inl e ↦
        let same : alive a (some key) false ≡ alive a' (some key') false = rw e at s in
        let keys : key ≡ key' = cc in
        subst (λ k. find k (put key r.next r.entries) ≡ some h) keys
          (find-put key r.next r.entries ∙ ap some (sym ((==_iff h r.next).0 e)))
    | inr e ↦
        let before : r.status h ≡ alive a' (some key') false = rw e at s in
        let found = reg h key' a' before in
        elim (Bool-cases (text_eq key key')) [
          | inl k ↦ absurd (
              none_alive h a'
                (before ∙ ap (λ x. alive a' (some x) false) (sym (text_eq→≡ key key' k))))
          | inr k ↦ find-put_other key' key r.next r.entries k ∙ found
        ]
  ]

  -- No live database is left under a path that the registry does not find.
  none-alive :
      (key : Text) (r : Registry A)
      → upgrade key r ≡ none
      → Registered r
      → (h : ℕ) (b : A) → r.status h ≢ alive b (some key) false
  unfolding Registered
  none-alive key r u reg h b s =
      let found = upgrade-finds key h r (reg h key b s) (ap is_alive s) in cc

  open_locked-Registered :
      (key : Text) (factory : Result ConnError A) (r : Registry A)
      → Registered r
      → Registered (open_locked key factory r).1
  unfolding open_locked
  open_locked-Registered key factory r reg =
      let Goal : Result ConnError ℕ × Registry A → Type 0 = λ o. Registered o.1 in
      elim (Option-cases (upgrade key r)) [
        | inr (h, u) ↦
            let is : open_locked key factory r ≡ (ok h, r) = rw (open_locked, u) refl in
            subst Goal (sym is) reg
        | inl u ↦ elim (Result-cases factory) [
          | inr (e, f) ↦
              let is : open_locked key factory r ≡ (err e, cleaned r) =
                rw (open_locked, u) (rw f refl) in
              subst Goal (sym is) (cleaned-Registered r reg)
          | inl (a, f) ↦
              let is : open_locked key factory r ≡ (ok r.next, added key a (cleaned r)) =
                rw (open_locked, u) (rw f refl) in
              subst Goal (sym is) (
                added-Registered key a (cleaned r) (none-alive key r u reg)
                  (cleaned-Registered r reg))
        ]
      ]

  set-Registered :
      (h : ℕ) (st : Status A) (r : Registry A)
      → ((key : Text) (b : A) → st ≢ alive b (some key) false)
      → Registered r
      → Registered (with_status h st r)
  unfolding Registered
  set-Registered h st r never reg i key a s = elim (Bool-cases (i == h)) [
    | inl e ↦ absurd (never key a (sym (status-same h i st r e) ∙ s))
    | inr e ↦ reg i key a (sym (status-other h i st r e) ∙ s)
  ]

  closed-not-open : (st : Status A) (key : Text) (b : A) → mark_closed st ≢ alive b (some key) false
  closed-not-open gone key b e = cc
  closed-not-open (alive a k c) key b e = cc

  -- Closing a database that is open takes out its own entry.
  erase-Registered :
      (h : ℕ) (key : Text) (a : A) (r : Registry A)
      → r.status h ≡ alive a (some key) false
      → Registered r
      → Registered
          (record (with_status h (mark_closed (r.status h)) r) { entries = erase key r.entries })
  unfolding Registered
  erase-Registered h key a r s reg i key' b t = elim (Bool-cases (i == h)) [
    | inl e ↦ absurd (
        closed-not-open (r.status h) key' b
          (sym (status-same h i (mark_closed (r.status h)) r e) ∙ t))
    | inr e ↦
        let before = sym (status-other h i (mark_closed (r.status h)) r e) ∙ t in
        let mine = reg h key a s in
        let theirs = reg i key' b before in
        elim (Bool-cases (text_eq key key')) [
          | inl k ↦
              let keys = ap (λ x. find x r.entries) (text_eq→≡ key key' k) in
              let same : i ≡ h = cc in let yes = (==_iff i h).1 same in absurd cc
          | inr k ↦ find-erase_other key' key r.entries k ∙ theirs
        ]
  ]

  opened-Registered : (a : A) (r : Registry A) → Registered r → Registered (opened none a r)
  unfolding opened Registered
  opened-Registered a r reg = set-Registered r.next (alive a none false) r (λ key b e. cc) reg

  -- What happens to the registry: a database is asked for, with a look at an earlier registry first;
  -- one that is open is closed under its path; and a handle is let go.
  pub data Event (canonicalize : FsPath → Result Text FsPath)
      : Registry A → Registry A → Type 0 where
    ask :
        (path : Text) (factory : Result ConnError A) (earlier r : Registry A)
        → Event canonicalize r (get_or_open_database canonicalize path factory earlier r).1
    shut :
        (h : ℕ) (path key : Text) (a : A) (r : Registry A)
        → r.status h ≡ alive a (some key) false
        → is_memory_database path ≡ false
        → canonicalize_path canonicalize (path_of_text path) ≡ ok key
        → Event canonicalize r (close_handle canonicalize h path r)
    leave : (h : ℕ) (r : Registry A) → Event canonicalize r (let_go h r)

  abbrev pub empty_registry : Registry A
  empty_registry = record { entries = []; status = λ h. gone; next = 0 }

  pub data Reachable (canonicalize : FsPath → Result Text FsPath) : Registry A → Type 0 where
    start : Reachable canonicalize empty_registry
    later :
        (r s : Registry A)
        → Reachable canonicalize r
        → Event canonicalize r s
        → Reachable canonicalize s

  module _ (canonicalize : FsPath → Result Text FsPath) where
    ask-Registered :
        (path : Text) (factory : Result ConnError A) (earlier r : Registry A)
        → Registered r
        → Registered (get_or_open_database canonicalize path factory earlier r).1
    unfolding get_or_open_database
    ask-Registered path factory earlier r reg =
        let Goal : Result ConnError ℕ × Registry A → Type 0 = λ o. Registered o.1 in
        let out = get_or_open_database canonicalize path factory earlier r in
        elim (Bool-cases (is_memory_database path)) [
          | inl m ↦ elim (Result-cases factory) [
            | inr (e, f) ↦
                let is : out ≡ (err e, r) = rw (get_or_open_database, m) (rw f refl) in
                subst Goal (sym is) reg
            | inl (a, f) ↦
                let is : out ≡ (ok r.next, opened none a r) =
                  rw (get_or_open_database, m) (rw f refl) in
                subst Goal (sym is) (opened-Registered a r reg)
          ]
          | inr m ↦ elim (Result-cases (canonicalize_path canonicalize (path_of_text path))) [
            | inr (e, c) ↦
                let is : out ≡ (err e, r) = rw (get_or_open_database, m) (rw c refl) in
                subst Goal (sym is) reg
            | inl (key, c) ↦ elim (Option-cases (upgrade key earlier)) [
              | inr (h, u) ↦
                  let is : out ≡ (ok h, r) = rw (get_or_open_database, m) (rw c (rw u refl)) in
                  subst Goal (sym is) reg
              | inl u ↦
                  let is : out ≡ open_locked key factory r =
                    rw (get_or_open_database, m) (rw c (rw u refl)) in
                  subst Goal (sym is) (open_locked-Registered key factory r reg)
            ]
          ]
        ]

    close_handle_lem :
        (h : ℕ) (path key : Text) (r : Registry A)
        → is_memory_database path ≡ false
        → canonicalize_path canonicalize (path_of_text path) ≡ ok key
        → close_handle canonicalize h path r
          ≡ record (with_status h (mark_closed (r.status h)) r) { entries = erase key r.entries }
    unfolding close_handle uncache_database
    close_handle_lem h path key r m c = rw (close_handle, uncache_database, m) (rw c refl)

    Event-Registered : {r s : Registry A} → Event canonicalize r s → Registered r → Registered s
    Event-Registered (ask path factory earlier r) reg = ask-Registered path factory earlier r reg
    Event-Registered (shut h path key a r p m c) reg =
        subst Registered (sym (close_handle_lem h path key r m c))
          (erase-Registered h key a r p reg)
    Event-Registered (leave h r) reg = set-Registered h gone r (λ key b e. cc) reg

    Reachable-Registered : {r : Registry A} → Reachable canonicalize r → Registered r
    unfolding Registered
    Reachable-Registered start = λ h key a e. absurd cc
    Reachable-Registered (later q r before e) = Event-Registered e (Reachable-Registered before)

    -- Two databases that are open and were got under the same canonical path are the same database,
    -- whatever was asked for, closed and let go before, by any number of tasks: a look at the
    -- registry before the write lock is taken may be out of date, and opening may fail. Each close
    -- is of a database that is still open.
    pub Reachable-single :
        (r : Registry A) (g h : ℕ) (key : Text) (a b : A)
        → Reachable canonicalize r
        → r.status g ≡ alive a (some key) false
        → r.status h ≡ alive b (some key) false
        → g ≡ h
    unfolding Registered
    Reachable-single r g h key a b reach p q =
        let one = Reachable-Registered reach g key a p in
        let two = Reachable-Registered reach h key b q in cc
