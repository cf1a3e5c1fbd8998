-- ===== src/Cleanup.antt =====
-- src/reconcile_cleanup.rs: which work directories of reconciliation runs are removed. The file system
-- and the process table are parameters, as values. Times are seconds, texts their bytes.
pub mod Decisions
pub mod Examples
use crypto_nav_manager.Base.{
  ℕ, suc, ◌+◌, ◌-◌, ◌*◌, ltb, leb, ◌==◌, Bool, true, false, ◌&&◌, ◌||◌, not, Option, none, some,
  List, [], ◌∷◌, length, get_elem?, take, drop, Outcome, done, failed, if◌then◌else◌,
}
use crypto_nav_manager.Base.Text.{codes, bytes_eq, is_ascii_digit, all, split}
use crypto_nav_manager.Dispatch.Headers.{u32_max, parse_unsigned}

abbrev pub legacy_stale_secs : ℕ
legacy_stale_secs = 24 * 60 * 60

-- What a path leads to: a file or a directory with the time of its last change, or neither can be told.
mutual
  pub data Node : Type 0 where
    file : ℕ → Node
    unreadable : Node
    dir : ℕ → Nodes → Node

  pub data Nodes : Type 0 where
    last : Nodes
    next : Node → Nodes → Nodes

abbrev pub newer : Option ℕ → Option ℕ → Option ℕ
newer none b = none
newer (some a) none = none
newer (some a) (some b) = some (if leb a b then b else a)

-- The latest change below a path; an error anywhere below is an error.
unfoldable mutual
  pub newest_modified : Node → Option ℕ
  newest_modified (file t) = some t
  newest_modified unreadable = none
  newest_modified (dir t nodes) = newest_below t nodes

  pub newest_below : ℕ → Nodes → Option ℕ
  newest_below t last = some t
  newest_below t (next n nodes) = newer (newest_below t nodes) (newest_modified n)

abbrev pub is_at : List ℕ → ℕ → ℕ → Bool
is_at bytes i c = elim (get_elem? bytes i) [ none ↦ false | some b ↦ b == c ]

abbrev pub is_stamp : List ℕ → Bool
unfolding is_ascii_digit
is_stamp stamp =
    length stamp == 16
    && all is_ascii_digit (take 8 stamp)
    && is_at stamp 8 b'T'
    && all is_ascii_digit (take 6 (drop 9 stamp))
    && is_at stamp 15 b'Z'

abbrev pub is_micros : List ℕ → Bool
unfolding is_ascii_digit
is_micros micros = not (length micros == 0) && all is_ascii_digit micros

abbrev pub positive : Option ℕ → Option ℕ
positive none = none
positive (some n) = if n == 0 then none else some n

-- The three parts of a name; fewer or more are no run's name.
unfoldable pub pid_of_parts : List (List ℕ) → Option ℕ
unfolding parse_unsigned
pid_of_parts [] = none
pid_of_parts (stamp ∷ []) = none
pid_of_parts (stamp ∷ pid ∷ []) = none
pid_of_parts (stamp ∷ pid ∷ micros ∷ []) =
    if is_stamp stamp && is_micros micros then positive (parse_unsigned u32_max pid) else none
pid_of_parts (stamp ∷ pid ∷ micros ∷ more ∷ parts) = none

unfoldable pub parse_run_pid : List ℕ → Option ℕ
unfolding pid_of_parts
parse_run_pid name = pid_of_parts (split b'-' name)

unfoldable pub has_prefix : List ℕ → List ℕ → Bool
has_prefix [] bytes = true
has_prefix (c ∷ cs) [] = false
has_prefix (c ∷ cs) (b ∷ bs) = c == b && has_prefix cs bs

unfoldable pub has_window : List ℕ → List ℕ → Bool
unfolding has_prefix
has_window word [] = has_prefix word []
has_window word (b ∷ bs) = has_prefix word (b ∷ bs) || has_window word bs

abbrev pub any_window : List ℕ → List (List ℕ) → Bool
any_window word [] = false
any_window word (arg ∷ args) = has_window word arg || any_window word args

-- `/proc/<pid>`: the command line if it can be read, and whether the directory is there.
pub record Process : Type 0 where
  pub cmdline : Option (List ℕ)
  pub exists : Bool

unfoldable pub process_owns_run : (ℕ → Process) → ℕ → Bool
unfolding has_window
process_owns_run proc pid = elim (proc pid).cmdline [
  | some cmdline ↦ any_window (codes "reconcile_rocksdb") (split 0 cmdline)
  | none ↦ (proc pid).exists
]

-- An entry of the work directory: its name if it is text, and what it is, which is taken to be
-- readable of the entry itself.
pub record Entry : Type 0 where
  pub name : Option (List ℕ)
  pub node : Node

abbrev pub is_dir : Node → Bool
is_dir (dir t nodes) = true
is_dir (file t) = false
is_dir unreadable = false

abbrev pub pid_of : Option (List ℕ) → Option ℕ
unfolding parse_run_pid
pid_of none = none
pid_of (some name) = parse_run_pid name

abbrev pub threshold : Option ℕ → ℕ → ℕ
threshold (some pid) stale_age = stale_age
threshold none stale_age = if leb stale_age legacy_stale_secs then legacy_stale_secs else stale_age

module _ (proc : ℕ → Process) (remove : Entry → Bool) (now stale_age : ℕ) where
  abbrev pub owned : Option ℕ → Bool
  owned none = false
  owned (some pid) = process_owns_run proc pid

  abbrev pub keep : Entry → List Entry × Outcome Entry ℕ → List Entry × Outcome Entry ℕ
  keep e (kept, r) = (e ∷ kept, r)

  abbrev pub count : List Entry × Outcome Entry ℕ → List Entry × Outcome Entry ℕ
  count (kept, done n) = (kept, done (suc n))
  count (kept, r) = (kept, r)

  -- The entries that stay, and how many are gone; an entry that cannot be removed ends the run.
  unfoldable pub cleanup_stale_work_dirs : List Entry → List Entry × Outcome Entry ℕ
  unfolding newest_modified process_owns_run
  cleanup_stale_work_dirs [] = ([], done 0)
  cleanup_stale_work_dirs (e ∷ es) =
      let rest = cleanup_stale_work_dirs es in
      let pid = pid_of e.name in
      if not (is_dir e.node) then keep e rest else elim (newest_modified e.node) [
        | none ↦ keep e rest
        | some newest ↦
            if ltb (now - newest) (threshold pid stale_age)
            then keep e rest
            else if owned pid
            then keep e rest
            else if remove e
            then count rest
            else (e ∷ es, failed e)
      ]
