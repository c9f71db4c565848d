-- ===== src/Migration/Journal.antt =====
-- internal/config/migration_journal.go: the journal of a transaction, its phases and its check.
-- Paths are the files of Disk, so that only their being different is left to check.
use ipgw_meta.Prelude.{
  ℕ, Bool, true, false, not, ◌&&◌, ◌||◌, Option, none, some, List, [], ◌∷◌, ◌==◌, leb, ltb, length,
  all, any, if◌then◌else◌,
}
use ipgw_meta.Text.{Bytes, bytes_eq, trim_space}
use ipgw_meta.Migration.Disk.{File, same_file}

-- `unknown` is any text that is no phase.
pub data Phase : Type 0 where
  prepared backups keyring config marker_verified : Phase
  unknown : Bytes → Phase

pub data SourceKind : Type 0 where
  meta_yaml neucn_json : SourceKind
  other_kind : Bytes → SourceKind

pub record SourceStamp : Type 0 where
  pub kind : SourceKind
  pub location_hash : Bytes
  pub redacted_digest : Bytes

-- An absent snapshot has neither path nor digest.
pub record Snapshot : Type 0 where
  pub existed : Bool
  pub path : Option File
  pub digest : Bytes

pub record Artifact : Type 0 where
  pub target_path : File
  pub before : Snapshot
  pub after_digest : Bytes

pub record BackupRecord : Type 0 where
  pub source_location_hash : Bytes
  pub path : File

pub record Journal : Type 0 where
  pub schema_version : ℕ
  pub transaction_id : Bytes
  pub phase : Phase
  pub target_schema : ℕ
  pub tool_version : Bytes
  pub sources : List SourceStamp
  pub config_artifact : Artifact
  pub marker_artifact : Artifact
  pub backup_records : List BackupRecord
  pub new_keyring_refs : List Bytes

-- `migrationJournalPhase.valid`
unfoldable pub valid_phase : Phase → Bool
valid_phase prepared = true
valid_phase backups = true
valid_phase keyring = true
valid_phase config = true
valid_phase marker_verified = true
valid_phase (unknown s) = false

-- `migrationJournalPhase.next`
unfoldable pub next : Phase → Option Phase
next prepared = some backups
next backups = some keyring
next keyring = some config
next config = some marker_verified
next marker_verified = none
next (unknown s) = none

unfoldable pub same_phase : Phase → Phase → Bool
same_phase prepared q = elim q [ prepared ↦ true | _ ↦ false ]
same_phase backups q = elim q [ backups ↦ true | _ ↦ false ]
same_phase keyring q = elim q [ keyring ↦ true | _ ↦ false ]
same_phase config q = elim q [ config ↦ true | _ ↦ false ]
same_phase marker_verified q = elim q [ marker_verified ↦ true | _ ↦ false ]
same_phase (unknown s) q = elim q [ unknown t ↦ bytes_eq s t | _ ↦ false ]

-- `validLowerHex`, of a text with an even number of digits.
lower_hex : ℕ → Bool
lower_hex c = (leb b'0' c && leb c b'9') || (leb b'a' c && leb c b'f')

unfoldable pub valid_sha256 : Bytes → Bool
unfolding lower_hex
valid_sha256 s = (length s == 64) && all lower_hex s

unfoldable pub valid_transaction_id : Bytes → Bool
unfolding lower_hex
valid_transaction_id s = (length s == 32) && all lower_hex s

known_kind : SourceKind → Bool
known_kind meta_yaml = true
known_kind neucn_json = true
known_kind (other_kind s) = false

validate_sources : List Bytes → List SourceStamp → Bool
validate_sources seen [] = true
validate_sources seen (s ∷ rest) =
    known_kind s.kind
    && valid_sha256 s.location_hash
    && valid_sha256 s.redacted_digest
    && not (any (bytes_eq s.location_hash) seen)
    && validate_sources (s.location_hash ∷ seen) rest

-- `addMigrationPath`: the paths seen, with this one.
unfoldable pub add_path : File → List File → Option (List File)
add_path f seen = if any (same_file f) seen then none else some (f ∷ seen)

-- The path of a snapshot that did exist.
add_before : Snapshot → List File → Option (List File)
add_before before seen =
    if before.existed
    then (if valid_sha256 before.digest
        then elim before.path [ none ↦ none | some f ↦ add_path f seen ]
        else none)
    else elim before.path [
      | none ↦ if bytes_eq before.digest [] then some seen else none
      | some f ↦ none
    ]

-- `validateMigrationArtifact`
unfoldable pub validate_artifact : Artifact → List File → Option (List File)
unfolding add_before
validate_artifact a seen =
    if valid_sha256 a.after_digest
    then elim (add_path a.target_path seen) [ none ↦ none | some seen' ↦ add_before a.before seen' ]
    else none

validate_backups : List Bytes → List Bytes → List File → List BackupRecord → Bool
validate_backups sources seen paths [] = true
validate_backups sources seen paths (b ∷ rest) =
    any (bytes_eq b.source_location_hash) sources
    && not (any (bytes_eq b.source_location_hash) seen)
    && not (any (same_file b.path) paths)
    && validate_backups sources (b.source_location_hash ∷ seen) (b.path ∷ paths) rest

hashes : List SourceStamp → List Bytes
hashes [] = []
hashes (s ∷ rest) = s.location_hash ∷ hashes rest

-- `validJournalText`; whether a text is UTF-8 is left aside, since the decoder of the journal has
-- refused any other.
unfoldable pub valid_journal_text : Bytes → ℕ → Bool
valid_journal_text s limit =
    not (bytes_eq s [])
    && leb (length s) limit
    && bytes_eq (trim_space s) s
    && all (λ c. not (ltb c 0x20 || (c == 0x7f))) s

validate_refs : List Bytes → List Bytes → Bool
validate_refs seen [] = true
validate_refs seen (r ∷ rest) =
    valid_journal_text r 256 && not (any (bytes_eq r) seen) && validate_refs (r ∷ seen) rest

-- The paths of the two artifacts.
artifact_paths : Journal → Option (List File)
artifact_paths j = elim (validate_artifact j.config_artifact []) [
  | none ↦ none
  | some seen ↦ validate_artifact j.marker_artifact seen
]

-- `validateMigrationJournal`
unfoldable pub validate_journal : Journal → Bool
unfolding known_kind validate_sources validate_backups hashes validate_refs artifact_paths
validate_journal j =
    (j.schema_version == 1)
    && valid_transaction_id j.transaction_id
    && valid_phase j.phase
    && (j.target_schema == 1)
    && valid_journal_text j.tool_version 128
    && ltb 0 (length j.sources)
    && validate_sources [] j.sources
    && elim (artifact_paths j) [
      | none ↦ false
      | some paths ↦
          (length j.backup_records == length j.sources)
          && validate_backups (hashes j.sources) [] paths j.backup_records
    ]
    && validate_refs [] j.new_keyring_refs
