-- ===== src/Migration/Recover.antt =====
-- internal/config/migration.go: `recoverPendingMigration`, which finishes a committed transaction
-- and undoes any other.
use ipgw_meta.Prelude.{Bool, true, false, ◌&&◌, Option, none, some, List, [], ◌∷◌, if◌then◌else◌}
use ipgw_meta.Text.{Bytes, bytes_eq}
use ipgw_meta.Migration.Disk.{
  File, config_recovery, marker_recovery, pure, refuse, ◌>>=◌, ◌>>◌, effect, look, put_secret,
  check,
}
use ipgw_meta.Migration.Journal.{
  prepared, marker_verified, Artifact, BackupRecord, Journal, same_phase,
}
use ipgw_meta.Migration.Snapshot.{
  Io, read_file, atomic_write, remove_file, verify_artifact, load_snapshot, remove_snapshot,
  load_journal, remove_journal, complete,
}

pub data ArtifactState : Type 0 where
  at_before at_after : ArtifactState

unfoldable pub delete_refs : List Bytes → Io (Unit {0})
delete_refs [] = pure tt
delete_refs (r ∷ refs) = effect (put_secret r none) >>= λ _. delete_refs refs

unfoldable pub remove_backups : List BackupRecord → Io (Unit {0})
remove_backups [] = pure tt
remove_backups (b ∷ rest) = remove_file b.path true >>= λ _. remove_backups rest

-- The keyring entries of a transaction that got beyond its first phase.
unfoldable pub undo_keyring : Journal → Io (Unit {0})
unfolding delete_refs
undo_keyring j = if same_phase j.phase prepared then pure tt else delete_refs j.new_keyring_refs

unfoldable pub has_journal : Option Journal → Bool
has_journal none = false
has_journal (some j) = true

unfoldable pub orphan_free : Option Bytes → Bool
orphan_free none = true
orphan_free (some s) = false

unfoldable pub no_file : File → Io (Unit {0})
unfolding orphan_free
no_file f = do effect (λ d. d); content ← look (λ d. d.files f); check (orphan_free content)

-- `inspectOrphanMigrationRecovery`
unfoldable pub inspect_orphan : Io (Unit {0})
unfolding no_file
inspect_orphan = do no_file config_recovery; no_file marker_recovery

module _ (digest : Bytes → Bytes) where
  -- An artifact whose digest is the one after the transaction can be undone.
  unfoldable pub inspect_after : Artifact → Io ArtifactState
  inspect_after a =
      if a.before.existed
      then (load_snapshot digest a.before >>= λ _. pure at_after)
      else pure at_after

  unfoldable pub inspect_content : Artifact → Option Bytes → Io ArtifactState
  unfolding inspect_after
  inspect_content a none = if a.before.existed then refuse else pure at_before
  inspect_content a (some s) =
      if a.before.existed && bytes_eq (digest s) a.before.digest
      then pure at_before
      else if bytes_eq (digest s) a.after_digest
      then inspect_after a
      else refuse

  -- `inspectMigrationRollbackArtifact`
  unfoldable pub inspect : Artifact → Io ArtifactState
  unfolding inspect_content
  inspect a = do content ← read_file a.target_path; inspect_content a content

  unfoldable pub restore : Artifact → Io (Unit {0})
  restore a = do
    s ← load_snapshot digest a.before
    atomic_write a.target_path s
    verify_artifact digest a.target_path a.before.digest

  unfoldable pub undo : Artifact → Io (Unit {0})
  unfolding restore
  undo a = if a.before.existed then restore a else remove_file a.target_path false

  -- `rollbackMigrationArtifact`
  unfoldable pub roll_back : Artifact → ArtifactState → Io (Unit {0})
  unfolding undo
  roll_back a at_before = pure tt
  roll_back a at_after = undo a

  -- The transaction of this journal is undone.
  unfoldable pub roll_back_all : Journal → Io Bool
  roll_back_all j = do
    marker_state ← inspect j.marker_artifact
    config_state ← inspect j.config_artifact
    roll_back j.marker_artifact marker_state
    roll_back j.config_artifact config_state
    undo_keyring j
    remove_backups j.backup_records
    remove_snapshot digest j.marker_artifact.before
    remove_snapshot digest j.config_artifact.before
    remove_journal
    pure false

  unfoldable pub finish : Journal → Io Bool
  finish j = do complete digest j.transaction_id; pure true

  unfoldable pub recover_loaded : Journal → Io Bool
  unfolding finish
  recover_loaded j = if same_phase j.phase marker_verified then finish j else roll_back_all j

  -- `recoverPendingMigration`: whether the transaction was committed.
  unfoldable pub recover_pending : Io Bool
  unfolding recover_loaded
  recover_pending = do j ← load_journal; recover_loaded j

  unfoldable pub recover_if : Bool → Io (Unit {0})
  recover_if false = inspect_orphan
  recover_if true = do recover_pending; pure tt

  -- `recoverPendingMigrationIfPresent`
  unfoldable pub recover_if_present : Io (Unit {0})
  unfolding has_journal recover_if
  recover_if_present = do effect (λ d. d); j ← look (λ d. d.journal); recover_if (has_journal j)
