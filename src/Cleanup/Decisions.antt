-- ===== src/Cleanup/Decisions.antt =====
-- `cleanup_stale_work_dirs` of src/reconcile_cleanup.rs: what it leaves alone, and what it removes.
use crypto_nav_manager.Base.{
  ℕ, suc, ◌-◌, ltb, leb, ◌≡◌, refl, ap, ◌∙◌, inl, inr, Bool, true, false, ◌&&◌, not, arith, none,
  some, List, [], ◌∷◌, Outcome, done, failed, panicked, stuck, if◌then◌else◌, Bool-cases,
}
use crypto_nav_manager.Cleanup.{
  Node, Nodes, file, unreadable, dir, last, next, newer, newest_below, Entry, Process, is_dir,
  pid_of, threshold, newest_modified, owned, keep, count, cleanup_stale_work_dirs,
}

abbrev pub filter : (Entry → Bool) → List Entry → List Entry
filter p [] = []
filter p (e ∷ es) = if p e then e ∷ filter p es else filter p es

abbrev pub number : (Entry → Bool) → List Entry → ℕ
number p [] = 0
number p (e ∷ es) = if p e then suc (number p es) else number p es

-- Everything below a path can be read.
abbrev mutual
  pub is_readable : Node → Bool
  is_readable (file t) = true
  is_readable unreadable = false
  is_readable (dir t nodes) = are_readable nodes

  are_readable : Nodes → Bool
  are_readable last = true
  are_readable (next n nodes) = is_readable n && are_readable nodes

abbrev later : ℕ → ℕ → ℕ
later a b = if leb a b then b else a

-- The latest of the changes at and below a path.
abbrev mutual
  pub latest : Node → ℕ
  latest (file t) = t
  latest unreadable = 0
  latest (dir t nodes) = latest_below t nodes

  latest_below : ℕ → Nodes → ℕ
  latest_below t last = t
  latest_below t (next n nodes) = later (latest_below t nodes) (latest n)

newer-readable :
    (a b : Bool) (x y : ℕ)
    → newer (if a then some x else none) (if b then some y else none)
      ≡ (if b && a then some (later x y) else none)
newer-readable true true x y = refl
newer-readable true false x y = refl
newer-readable false true x y = refl
newer-readable false false x y = refl

mutual
  unfolding newest_modified newest_below

  newest_modified-readable :
      (n : Node) → newest_modified n ≡ (if is_readable n then some (latest n) else none)
  newest_modified-readable (file t) = refl
  newest_modified-readable unreadable = refl
  newest_modified-readable (dir t nodes) = newest_below-readable t nodes

  newest_below-readable :
      (t : ℕ) (nodes : Nodes)
      → newest_below t nodes ≡ (if are_readable nodes then some (latest_below t nodes) else none)
  newest_below-readable t last = refl
  newest_below-readable t (next n nodes) =
      rw (newest_below-readable t nodes, newest_modified-readable n)
        (newer-readable (are_readable nodes) (is_readable n) (latest_below t nodes) (latest n))

ltb-leb : (a b : ℕ) → ltb a b ≡ not (leb b a)
ltb-leb a b = ground arith

module _ (proc : ℕ → Process) (remove : Entry → Bool) (now stale_age : ℕ) where
  -- A directory that is readable throughout, whose latest change is as long ago as the threshold of its run, or
  -- of no run, and that no process owns.
  abbrev pub is_doomed : Entry → Bool
  is_doomed e =
      is_dir e.node
      && is_readable e.node
      && leb (threshold (pid_of e.name) stale_age) (now - latest e.node)
      && not (owned proc remove now stale_age (pid_of e.name))

  abbrev pub is_spared : Entry → Bool
  is_spared e = not (is_doomed e)

  count-kept : (r : List Entry × Outcome Entry ℕ) → (count proc remove now stale_age r).0 ≡ r.0
  count-kept (es, done n) = refl
  count-kept (es, failed x) = refl
  count-kept (es, panicked) = refl
  count-kept (es, stuck) = refl

  -- One entry, in the words of the description.
  cleanup-cons :
      (e : Entry) (es : List Entry)
      → cleanup_stale_work_dirs proc remove now stale_age (e ∷ es) ≡ (
          if is_doomed e
          then (if remove e
              then count proc remove now stale_age
                  (cleanup_stale_work_dirs proc remove now stale_age es)
              else (e ∷ es, failed e))
          else keep proc remove now stale_age e
              (cleanup_stale_work_dirs proc remove now stale_age es))
  unfolding cleanup_stale_work_dirs
  cleanup-cons e es = elim (Bool-cases (is_dir e.node)) [
    | inr d ↦ rw d refl
    | inl d ↦ elim (Bool-cases (is_readable e.node)) [
      | inr b ↦
          let n : newest_modified e.node ≡ none = rw (newest_modified-readable e.node, b) refl in
          rw (d, b, n) refl
      | inl b ↦
          let t = latest e.node in
          let n : newest_modified e.node ≡ some t = rw (newest_modified-readable e.node, b) refl in
          let since = ltb-leb (now - t) (threshold (pid_of e.name) stale_age) in
          elim (Bool-cases (leb (threshold (pid_of e.name) stale_age) (now - t))) [
            | inr l ↦ rw (d, b, n, since, l) refl
            | inl l ↦ elim (Bool-cases (owned proc remove now stale_age (pid_of e.name))) [
              | inl o ↦ rw (d, b, n, since, l, o) refl
              | inr o ↦ rw (d, b, n, since, l, o) refl
            ]
          ]
    ]
  ]

  cleanup-nil : cleanup_stale_work_dirs proc remove now stale_age [] ≡ ([], done 0)
  unfolding cleanup_stale_work_dirs
  cleanup-nil = refl

  spares_one :
      (doomed gone : Bool) (e : Entry) (es : List Entry) (rest : List Entry × Outcome Entry ℕ)
      → is_doomed e ≡ doomed
      → filter is_spared rest.0 ≡ filter is_spared es
      → filter is_spared
          (if doomed
            then (if gone then count proc remove now stale_age rest else (e ∷ es, failed e))
            else keep proc remove now stale_age e rest).0
        ≡ filter is_spared (e ∷ es)
  spares_one true true e es rest d h = ap (filter is_spared) (count-kept rest) ∙ h ∙ rw d refl
  spares_one true false e es rest d h = refl
  spares_one false gone e es rest d h = rw d (ap (λ x. e ∷ x) h)

  removes_one :
      (doomed : Bool) (e : Entry) (es : List Entry)
      → is_doomed e ≡ doomed
      → (if doomed
          then count proc remove now stale_age (filter is_spared es, done (number is_doomed es))
          else keep proc remove now stale_age e (filter is_spared es, done (number is_doomed es)))
        ≡ (filter is_spared (e ∷ es), done (number is_doomed (e ∷ es)))
  removes_one true e es d = rw d refl
  removes_one false e es d = rw d refl

  -- Whether or not a removal fails, what is left has every entry that is no directory, that has something
  -- unreadable at any depth, whose latest change at any depth is nearer than its threshold, or that a live run
  -- owns, in their order.
  pub cleanup-spares :
      (es : List Entry)
      → filter is_spared (cleanup_stale_work_dirs proc remove now stale_age es).0
        ≡ filter is_spared es
  cleanup-spares [] = ap (λ r. filter is_spared r.0) cleanup-nil
  cleanup-spares (e ∷ es) =
      ap (λ r. filter is_spared r.0) (cleanup-cons e es)
      ∙ spares_one (is_doomed e) (remove e) e es
          (cleanup_stale_work_dirs proc remove now stale_age es) refl (cleanup-spares es)

  -- If every removal succeeds, all the old directories that are readable throughout and that no process owns are
  -- gone, nothing else is, and the number returned is theirs.
  pub cleanup-removes :
      (es : List Entry)
      → ((e : Entry) → remove e ≡ true)
      → cleanup_stale_work_dirs proc remove now stale_age es
        ≡ (filter is_spared es, done (number is_doomed es))
  cleanup-removes [] h = cleanup-nil
  cleanup-removes (e ∷ es) h =
      cleanup-cons e es ∙ rw (h e, cleanup-removes es h) (removes_one (is_doomed e) e es refl)
