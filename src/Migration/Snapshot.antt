-- ===== src/Migration/Snapshot.antt =====
-- internal/config/migration_journal.go: the files of a transaction, its snapshots, and the journal
-- as it is begun, loaded, advanced and completed. `digest` is SHA-256 in hexadecimal digits.
use ipgw_meta.Prelude.{
  ◌∷◌, [], ◌++◌, Bool, true, false, not, ◌&&◌, Option, none, some, [], leb, length, if◌then◌else◌,
}
use ipgw_meta.Text.{Bytes, bytes_eq}
use ipgw_meta.Migration.Disk.{
  Disk, ◌>>◌, File, M, pure, refuse, ◌>>=◌, ◌>>◌, effect, look, on_failure, put, put_journal, check,
  max_config_bytes,
}
use ipgw_meta.Migration.Journal.{
  Phase, unknown, marker_verified, Snapshot, Journal, next, same_phase, valid_sha256,
  valid_transaction_id, validate_journal,
}

abbrev pub Io : Type 0 → Type 0
Io A = M Journal A

unfoldable pub is_absent : Option Bytes → Bool
is_absent none = true
is_absent (some s) = false

unfoldable pub fits : Option Bytes → Bool
fits none = true
fits (some s) = leb (length s) max_config_bytes

-- `readBoundedRegularMigrationFile`
unfoldable pub read_file : File → Io (Option Bytes)
unfolding fits
read_file f = do
  effect (λ d. d)
  content ← look (λ d. d.files f)
  check (fits content)
  pure content

unfoldable pub the_content : Option Bytes → Io Bytes
the_content none = refuse
the_content (some s) = pure s

-- `readBoundedPrivateMigrationFile`: here the file has to exist.
unfoldable pub read_private : File → Io Bytes
unfolding the_content
read_private f = do content ← read_file f; the_content content

-- The bytes of a file are written one after another, so that the file may be cut off behind any.
unfoldable pub append_bytes : File → Bytes → Bytes → Io (Unit {0})
append_bytes f written [] = pure tt
append_bytes f written (c ∷ s) = do
  effect (put f (some (written ++ c ∷ [])))
  append_bytes f (written ++ c ∷ []) s

-- What cannot be finished is removed, if that works.
unfoldable pub clean_up : (Disk Journal → Disk Journal) → Io (Unit {0})
clean_up remove = do on_failure (effect remove) (pure tt); refuse

-- `writeExclusiveMigrationFile`: the file is created, written and synced, then its directory is synced.
unfoldable pub write_exclusive : File → Bytes → Io (Unit {0})
unfolding is_absent append_bytes clean_up
write_exclusive f s = do
  check (leb (length s) max_config_bytes)
  old ← look (λ d. d.files f)
  check (is_absent old)
  effect (put f (some []))
  on_failure (append_bytes f [] s >> effect (λ d. d)) (clean_up (put f none))
  effect (λ d. d)

-- `atomicWriteFile`
unfoldable pub atomic_write : File → Bytes → Io (Unit {0})
atomic_write f s = effect (put f (some s))

unfoldable pub remove_found : File → (allow_missing : Bool) → Option Bytes → Io (Unit {0})
remove_found f allow_missing none = do effect (λ d. d); check allow_missing
remove_found f allow_missing (some s) = effect (put f none)

-- `removeRegularMigrationFile`
unfoldable pub remove_file : File → (allow_missing : Bool) → Io (Unit {0})
unfolding remove_found
remove_file f allow_missing = do
  content ← look (λ d. d.files f)
  remove_found f allow_missing content

-- A snapshot of a file that did not exist says nothing else.
unfoldable pub plain_absent : Snapshot → Bool
plain_absent s = elim s.path [ none ↦ bytes_eq s.digest [] | some f ↦ false ]

unfoldable pub is_empty : Option Bytes → Bool
is_empty none = true
is_empty (some s) = bytes_eq s []

module _ (digest : Bytes → Bytes) where
  unfoldable pub has_digest : Bytes → Option Bytes → Io (Unit {0})
  has_digest expected none = refuse
  has_digest expected (some s) = check (bytes_eq (digest s) expected)

  -- `verifyMigrationArtifact`
  unfoldable pub verify_artifact : File → Bytes → Io (Unit {0})
  unfolding has_digest
  verify_artifact f expected = do content ← read_file f; has_digest expected content

  unfoldable pub snapshot_of : File → Option Bytes → Snapshot
  snapshot_of recovery none = record { existed = false; path = none; digest = [] }
  snapshot_of recovery (some s) = record { existed = true; path = some recovery; digest = digest s }

  -- `prepareMigrationSnapshot`
  unfoldable pub prepare_snapshot : File → File → Io (Snapshot × Option Bytes)
  unfolding snapshot_of is_absent
  prepare_snapshot source recovery = do
    effect (λ d. d)
    old ← look (λ d. d.files recovery)
    check (is_absent old)
    content ← read_file source
    pure (snapshot_of recovery content, content)

  unfoldable pub write_bytes : Snapshot → Option File → Option Bytes → Io (Unit {0})
  write_bytes snapshot (some f) (some s) = do
    check (bytes_eq (digest s) snapshot.digest)
    write_exclusive f s
  write_bytes snapshot (some f) none = refuse
  write_bytes snapshot none content = refuse

  -- `writePreparedMigrationSnapshot`
  unfoldable pub write_snapshot : Snapshot → Option Bytes → Io (Unit {0})
  unfolding plain_absent is_empty write_bytes
  write_snapshot snapshot content =
      if snapshot.existed
      then write_bytes snapshot snapshot.path content
      else check (plain_absent snapshot && is_empty content)

  unfoldable pub load_bytes : Snapshot → Option File → Io Bytes
  load_bytes snapshot none = refuse
  load_bytes snapshot (some f) = do
    check (valid_sha256 snapshot.digest)
    s ← read_private f
    check (bytes_eq (digest s) snapshot.digest)
    pure s

  -- `loadMigrationSnapshot`, of a file that did exist.
  unfoldable pub load_snapshot : Snapshot → Io Bytes
  unfolding load_bytes
  load_snapshot snapshot = load_bytes snapshot snapshot.path

  unfoldable pub remove_loaded : Snapshot → File → Option Bytes → Io (Unit {0})
  remove_loaded snapshot f none = pure tt
  remove_loaded snapshot f (some s) = load_snapshot snapshot >>= λ _. remove_file f false

  unfoldable pub remove_bytes : Snapshot → Option File → Io (Unit {0})
  unfolding remove_loaded
  remove_bytes snapshot none = refuse
  remove_bytes snapshot (some f) = do
    effect (λ d. d)
    content ← look (λ d. d.files f)
    remove_loaded snapshot f content

  -- `removeMigrationSnapshot`
  unfoldable pub remove_snapshot : Snapshot → Io (Unit {0})
  unfolding plain_absent remove_bytes
  remove_snapshot snapshot =
      if snapshot.existed
      then remove_bytes snapshot snapshot.path
      else check (plain_absent snapshot)

unfoldable pub the_journal : Option Journal → Io Journal
the_journal none = refuse
the_journal (some j) = do check (validate_journal j); pure j

-- `loadMigrationJournal`
unfoldable pub load_journal : Io Journal
unfolding the_journal
load_journal = do effect (λ d. d); j ← look (λ d. d.journal); the_journal j

unfoldable pub no_journal : Option Journal → Bool
no_journal none = true
no_journal (some j) = false

abbrev pub at_phase : Phase → Journal → Journal
at_phase q j = record j { phase = q }

-- A journal that is cut off in the middle of its first write is kept as one without a phase, which
-- every load refuses.
abbrev pub cut_off : Journal → Journal
cut_off j = at_phase (unknown []) j

-- `beginMigrationJournal`, with the same steps as `writeExclusiveMigrationFile`.
unfoldable pub begin_journal : Journal → Io (Unit {0})
unfolding no_journal clean_up
begin_journal j = do
  check (validate_journal j)
  old ← look (λ d. d.journal)
  check (no_journal old)
  effect (put_journal (some (cut_off j)))
  on_failure (effect (put_journal (some j)) >> effect (λ d. d)) (clean_up (put_journal none))
  effect (λ d. d)

unfoldable pub follows : Phase → Option Phase → Bool
follows q none = false
follows q (some expected) = same_phase q expected

unfoldable pub advance_loaded : Bytes → Phase → Journal → Io (Unit {0})
unfolding follows
advance_loaded transaction_id q j = do
  check (bytes_eq j.transaction_id transaction_id)
  check (follows q (next j.phase))
  effect (put_journal (some (at_phase q j)))
  stored ← load_journal
  check (bytes_eq stored.transaction_id transaction_id && same_phase stored.phase q)

-- `advanceMigrationJournal`
unfoldable pub advance : Bytes → Phase → Io (Unit {0})
unfolding advance_loaded
advance transaction_id q = do
  check (valid_transaction_id transaction_id)
  j ← load_journal
  advance_loaded transaction_id q j

-- The removal of the journal.
unfoldable pub remove_journal : Io (Unit {0})
unfolding no_journal
remove_journal = do j ← look (λ d. d.journal); check (not (no_journal j)); effect (put_journal none)

module _ (digest : Bytes → Bytes) where
  unfoldable pub complete_loaded : Bytes → Journal → Io (Unit {0})
  complete_loaded transaction_id j = do
    check (valid_transaction_id transaction_id && bytes_eq j.transaction_id transaction_id)
    check (same_phase j.phase marker_verified)
    verify_artifact digest j.config_artifact.target_path j.config_artifact.after_digest
    verify_artifact digest j.marker_artifact.target_path j.marker_artifact.after_digest
    remove_snapshot digest j.config_artifact.before
    remove_snapshot digest j.marker_artifact.before
    remove_journal

  -- `completeMigrationJournal`
  unfoldable pub complete : Bytes → Io (Unit {0})
  complete transaction_id = do j ← load_journal; complete_loaded transaction_id j
