-- ===== src/Migration/Apply.antt =====
-- internal/config/migration.go: `applyMigrationLocked` from the journal's first write on. What it
-- writes has been prepared: the plan, the candidate configuration and the marker as bytes.
use ipgw_meta.Prelude.{ℕ, Bool, false, Option, none, some, List, [], ◌∷◌, map, if◌then◌else◌}
use ipgw_meta.Text.{Bytes, bytes_eq}
use ipgw_meta.Migration.Disk.{
  File, config_file, marker_file, config_recovery, marker_recovery, backup, pure, refuse, ◌>>=◌,
  ◌>>◌, effect, look, put_secret, check, on_failure,
}
use ipgw_meta.Migration.Journal.{
  SourceStamp, prepared, backups, keyring, config, marker_verified, BackupRecord, Journal,
}
use ipgw_meta.Migration.Snapshot.{
  Io, read_file, read_private, write_exclusive, atomic_write, verify_artifact, write_snapshot,
  begin_journal, advance, complete, snapshot_of,
}
use ipgw_meta.Migration.Recover.{recover_pending}

-- One of the migrated sources: its stamp, the number of its backup, and its bytes.
pub record Source : Type 0 where
  pub stamp : SourceStamp
  pub number : ℕ
  pub content : Bytes

-- What has been prepared: `loads_config` is the strict decoder of a configuration, and `marker_id`
-- that of a marker, with the transaction that the marker names.
pub record Plan : Type 0 where
  pub transaction_id : Bytes
  pub tool_version : Bytes
  pub migrated : List Source
  pub config_before : Option Bytes
  pub marker_before : Option Bytes
  pub candidate : Bytes
  pub marker : Bytes
  pub secrets : List (Bytes × Bytes)
  pub loads_config : Bytes → Bool
  pub marker_id : Bytes → Option Bytes

unfoldable pub backup_record : Source → BackupRecord
backup_record s = record { source_location_hash = s.stamp.location_hash; path = backup s.number }

unfoldable pub backup_file : Source → File × Bytes
backup_file s = (backup s.number, s.content)

-- The journal of the transaction.
abbrev pub new_journal : (Bytes → Bytes) → Plan → Journal
new_journal digest p = record {
  schema_version = 1;
  transaction_id = p.transaction_id;
  phase = prepared;
  target_schema = 1;
  tool_version = p.tool_version;
  sources = map (λ s. s.stamp) p.migrated;
  config_artifact = record {
    target_path = config_file;
    before = snapshot_of digest config_recovery p.config_before;
    after_digest = digest p.candidate;
  };
  marker_artifact = record {
    target_path = marker_file;
    before = snapshot_of digest marker_recovery p.marker_before;
    after_digest = digest p.marker;
  };
  backup_records = map backup_record p.migrated;
  new_keyring_refs = map (λ secret. secret.0) p.secrets;
}

pub data Reply : Type 0 where
  applied rolled_back : Reply

unfoldable pub write_backups : List (File × Bytes) → Io (Unit {0})
write_backups [] = pure tt
write_backups ((f, s) ∷ rest) = write_exclusive f s >>= λ _. write_backups rest

unfoldable pub stored_secret : Bytes → Option Bytes → Io (Unit {0})
stored_secret password none = refuse
stored_secret password (some s) = check (bytes_eq s password)

-- Each secret is written and read back.
unfoldable pub write_secrets : List (Bytes × Bytes) → Io (Unit {0})
unfolding stored_secret
write_secrets [] = pure tt
write_secrets ((ref, password) ∷ rest) = do
  effect (put_secret ref (some password))
  effect (λ d. d)
  stored ← look (λ d. d.keyring ref)
  stored_secret password stored
  write_secrets rest

unfoldable pub loaded : (Bytes → Bool) → Option Bytes → Io (Unit {0})
loaded loads none = refuse
loaded loads (some s) = check (loads s)

unfoldable pub names : Bytes → Option Bytes → Bool
names transaction_id none = false
names transaction_id (some named) = bytes_eq named transaction_id

-- The reply after the recovery.
unfoldable pub answer : Bool → Io Reply
answer committed = if committed then pure applied else pure rolled_back

module _ (digest : Bytes → Bytes) (p : Plan) where
  -- Snapshots and backups.
  unfoldable pub save_before : Io (Unit {0})
  save_before = do
    write_snapshot digest (snapshot_of digest config_recovery p.config_before) p.config_before
    write_snapshot digest (snapshot_of digest marker_recovery p.marker_before) p.marker_before
    write_backups (map backup_file p.migrated)
    advance p.transaction_id backups

  unfoldable pub save_secrets : Io (Unit {0})
  save_secrets = do write_secrets p.secrets; advance p.transaction_id keyring

  unfoldable pub commit_config : Io (Unit {0})
  unfolding loaded
  commit_config = do
    effect (λ d. d)
    atomic_write config_file p.candidate
    verify_artifact digest config_file (digest p.candidate)
    stored ← read_file config_file
    loaded p.loads_config stored
    advance p.transaction_id config

  unfoldable pub commit_marker : Io (Unit {0})
  unfolding names
  commit_marker = do
    atomic_write marker_file p.marker
    stored ← read_private marker_file
    check (names p.transaction_id (p.marker_id stored))
    verify_artifact digest marker_file (digest p.marker)
    advance p.transaction_id marker_verified

  unfoldable pub commit : Io Reply
  commit = do
    save_before
    save_secrets
    commit_config
    commit_marker
    complete digest p.transaction_id
    pure applied

  -- `fail`
  unfoldable pub apply_fail : Io Reply
  unfolding answer
  apply_fail = do committed ← recover_pending digest; answer committed

  -- `applyMigrationLocked`
  unfoldable pub apply_migration : Io Reply
  apply_migration = do begin_journal (new_journal digest p); on_failure commit apply_fail
