-- ===== src/Cleanup/Examples.antt =====
-- Tests of the cleanup of work directories, and its theorems at concrete inputs.
use crypto_nav_manager.Base.{
  ℕ, ◌≡◌, refl, Bool, true, false, ◌==◌, if◌then◌else◌, none, some, List, [], ◌∷◌, done,
}
use crypto_nav_manager.Base.Text.{codes}
use crypto_nav_manager.Dispatch.Headers.{parse_unsigned, parse_digits}
use crypto_nav_manager.Cleanup.{
  Entry, Process, dir, last, file, cleanup_stale_work_dirs, parse_run_pid, pid_of_parts,
}
use crypto_nav_manager.Cleanup.Decisions.{
  filter, number, is_spared, is_doomed, cleanup-spares, cleanup-removes,
}

-- Process 12345 runs a reconciliation.
abbrev proc : ℕ → Process
proc pid = record {
  cmdline = if pid == 12345 then some (codes "/bin/reconcile_rocksdb") else none;
  exists = false;
}

abbrev removable : Entry → Bool
removable e = true

abbrev entries : List Entry
entries =
    record { name = some (codes "20261003T060000Z-12345-1791007200000000"); node = dir 10 last }
    ∷ record { name = some (codes "20261003T060000Z-12346-1791007200000001"); node = dir 10 last }
    ∷ record { name = some (codes "old-run"); node = dir 10 last }
    ∷ record { name = some (codes "notes"); node = file 10 }
    ∷ []

reads_the_pid : parse_run_pid (codes "20261003T060000Z-12345-1791007200000000") ≡ some 12345
unfolding parse_run_pid pid_of_parts parse_unsigned parse_digits
reads_the_pid = refl

cleanup-spares_example :
    filter
      (is_spared proc removable 10010 7200)
      (cleanup_stale_work_dirs proc removable 10010 7200 entries).0
    ≡ filter (is_spared proc removable 10010 7200) entries
cleanup-spares_example = cleanup-spares proc removable 10010 7200 entries

cleanup-removes_example : cleanup_stale_work_dirs proc removable 10010 7200 entries ≡ (
  filter (is_spared proc removable 10010 7200) entries,
  done (number (is_doomed proc removable 10010 7200) entries),
)
cleanup-removes_example = cleanup-removes proc removable 10010 7200 entries (λ e. refl)
