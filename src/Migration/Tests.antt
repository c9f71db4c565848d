-- ===== src/Migration/Tests.antt =====
-- A migration of one file, run on a small disk, and the theorems at it.
use ipgw_meta.Prelude.{
  arith, ℕ, zero, suc, ◌≡◌, inr, refl, sym, ap, ◌∙◌, true, Option, none, some, List, [], ◌∷◌,
  if◌then◌else◌, ◌==◌, length,
}
use ipgw_meta.Text.{Bytes, codes, bytes_eq, trim_space, trim_left, trim_right}
use ipgw_meta.Migration.Disk.{
  File, config_file, marker_file, config_recovery, marker_recovery, backup, same_file, State, done,
  failed, Fate, works, fails, stops, ◌>>=◌, check, look, effect, on_failure, pure, refuse,
}
use ipgw_meta.Migration.Journal.{
  config, Journal, meta_yaml, valid_sha256, validate_journal, valid_transaction_id, valid_phase,
  valid_journal_text, validate_artifact, add_path, same_phase, next,
}
use ipgw_meta.Migration.Snapshot.{
  at_phase, snapshot_of, fits, begin_journal, advance, advance_loaded, atomic_write, complete,
  complete_loaded, follows, has_digest, is_absent, load_bytes, load_journal, load_snapshot,
  no_journal, plain_absent, is_empty, read_file, read_private, remove_bytes, remove_file,
  remove_found, remove_journal, remove_loaded, remove_snapshot, the_content, the_journal,
  verify_artifact, write_bytes, write_exclusive, write_snapshot, append_bytes, clean_up,
}
use ipgw_meta.Migration.Recover.{
  recover_if_present, recover_pending, delete_refs, finish, inspect, inspect_after, inspect_content,
  recover_loaded, recover_if, has_journal, remove_backups, restore, roll_back, roll_back_all, undo,
  undo_keyring,
}
use ipgw_meta.Migration.Apply.{
  Plan, Reply, rolled_back, backup_record, new_journal, apply_migration, answer, apply_fail,
  backup_file, commit, commit_config, commit_marker, loaded, names, save_before, save_secrets,
  stored_secret, write_backups, write_secrets,
}
use ipgw_meta.Migration.Steps.{D}
use ipgw_meta.Migration.Transaction.{Prepared, Untouched}
use ipgw_meta.Migration.Atomicity.{
  LeftBy, Recovered, recoveries, apply_migration-LeftBy, recover_if_present-Recovered,
}
use ipgw_meta.Migration.Unknown.{GivesUp, recover_pending-Unknown}

abbrev repeated : ℕ → ℕ → Bytes
repeated c zero = []
repeated c (suc n) = c ∷ repeated c n

-- A digest that tells texts apart by their first bytes.
abbrev by_first : Bytes → Bytes
by_first [] = repeated b'0' 64
by_first (c ∷ s) = c ∷ repeated b'0' 63

-- A digest that tells the texts of this run apart.
abbrev by_length : Bytes → Bytes
by_length s = (if length s == 3 then b'a' else b'b') ∷ repeated b'0' 63

abbrev head_of : Bytes → ℕ
head_of [] = 0
head_of (c ∷ s) = c

abbrev old_config : Bytes
old_config = codes "old"

abbrev one_file : Plan
one_file = record {
  transaction_id = repeated b'7' 32;
  tool_version = codes "v1";
  migrated =
      record {
        stamp = record {
          kind = meta_yaml;
          location_hash = repeated b'1' 64;
          redacted_digest = repeated b'2' 64;
        };
        number = 1;
        content = codes "source";
      }
      ∷ [];
  config_before = some old_config;
  marker_before = none;
  candidate = codes "new config";
  marker = codes "marker";
  secrets = (codes "ref", codes "pw") ∷ [];
  loads_config = λ s. true;
  marker_id = λ s. some (repeated b'7' 32);
}

valid_by_length : (s : Bytes) → valid_sha256 (by_length s) ≡ true
unfolding valid_sha256
valid_by_length s = ground arith

one_file-journal : validate_journal (new_journal by_length one_file) ≡ true
unfolding validate_journal valid_transaction_id valid_phase valid_journal_text valid_sha256 bytes_eq
    trim_space snapshot_of validate_artifact add_path same_file backup_record
one_file-journal = refl

one_file-Prepared : Prepared by_length one_file
unfolding fits
one_file-Prepared = record {
  digest_valid = valid_by_length;
  journal_valid = one_file-journal;
  fits_config_before = refl;
  fits_marker_before = refl;
  fits_candidate = refl;
  fits_marker = refl;
  config_distinct = λ s e d.
      let old : old_config ≡ s = cc in
      let heads : head_of (by_length (codes "new config")) ≡ head_of (by_length old_config) =
        ap head_of (d ∙ ap by_length (sym old)) in
      absurd (omega arith);
  marker_distinct = λ s e d. absurd (cc);
}

-- Only the configuration is there.
abbrev start_files : File → Option Bytes
start_files config_file = some old_config
start_files marker_file = none
start_files config_recovery = none
start_files marker_recovery = none
start_files (backup n) = none

abbrev start_disk : D
start_disk = record { files = start_files; journal = none; keyring = λ r. none }

abbrev start : List Fate → State Journal
start fates = record { fates = fates; disk = start_disk }

start-Untouched : Untouched by_length one_file start_disk
start-Untouched = ((refl, refl, refl), refl, refl)

abbrev works_times : ℕ → List Fate → List Fate
works_times zero rest = rest
works_times (suc n) rest = works ∷ works_times n rest

-- The process stops in the middle; the first recovery fails as well.
apply_migration-LeftBy_example :
    LeftBy by_length one_file one_file-Prepared
      ((apply_migration by_length one_file (start (works_times 29 (stops ∷ [])))).0)
      ((apply_migration by_length one_file (start (works_times 29 (stops ∷ [])))).1.disk)
apply_migration-LeftBy_example =
    apply_migration-LeftBy by_length one_file one_file-Prepared
      (start (works_times 29 (stops ∷ []))) start-Untouched

recover_if_present-Recovered_example :
    Recovered by_length one_file one_file-Prepared
      (recoveries by_length
        ((works ∷ fails ∷ []) ∷ [])
        ((apply_migration by_length one_file (start (works_times 29 (stops ∷ [])))).1.disk))
      ((recover_if_present by_length (record {
        fates = [];
        disk =
            recoveries by_length
              ((works ∷ fails ∷ []) ∷ [])
              ((apply_migration by_length one_file (start (works_times 29 (stops ∷ [])))).1.disk);
      })).0)
      ((recover_if_present by_length (record {
        fates = [];
        disk =
            recoveries by_length
              ((works ∷ fails ∷ []) ∷ [])
              ((apply_migration by_length one_file (start (works_times 29 (stops ∷ [])))).1.disk);
      })).1.disk)
recover_if_present-Recovered_example =
    recover_if_present-Recovered by_length one_file one_file-Prepared
      (start (works_times 29 (stops ∷ []))) ((works ∷ fails ∷ []) ∷ []) start-Untouched

-- Without mishaps the migration is applied; a failure behind the write of the configuration is
-- undone.
runs :
    ((apply_migration by_length one_file (start [])).0 ≡ done Reply.applied)
    × ((apply_migration by_length one_file (start [])).1.disk.files config_file
        ≡ some (codes "new config"))
    × ((apply_migration by_length one_file (start (works_times 29 (fails ∷ [])))).0
        ≡ done rolled_back)
unfolding ◌>>=◌ check look effect on_failure pure refuse same_file validate_journal
    valid_transaction_id valid_phase valid_journal_text valid_sha256 validate_artifact add_path next
    same_phase apply_migration answer apply_fail backup_file commit commit_config commit_marker
    loaded names save_before save_secrets stored_secret write_backups write_secrets backup_record
    delete_refs finish inspect inspect_after inspect_content recover_loaded recover_pending
    remove_backups restore roll_back roll_back_all undo undo_keyring begin_journal snapshot_of
    advance advance_loaded atomic_write complete complete_loaded fits follows has_digest is_absent
    load_bytes load_journal load_snapshot no_journal plain_absent is_empty read_file read_private
    remove_bytes remove_file remove_found remove_journal remove_loaded remove_snapshot the_content
    the_journal verify_artifact write_bytes write_exclusive append_bytes clean_up write_snapshot
    bytes_eq trim_space trim_left trim_right
runs = (refl, refl, refl)

-- Where the process stops in the middle of a snapshot, recovery refuses that; the configuration is
-- what it was.
cut_off_snapshot :
    ((recover_if_present by_length (record {
      fates = [];
      disk = (apply_migration by_length one_file (start (works_times 6 (stops ∷ [])))).1.disk;
    })).0
      ≡ failed)
    × ((apply_migration by_length one_file (start (works_times 6 (stops ∷ [])))).1.disk.files
          config_file
        ≡ some old_config)
    × ((apply_migration by_length one_file (start (works_times 6 (stops ∷ [])))).1.disk.files
          config_recovery
        ≡ some (codes "o"))
unfolding recover_if_present recover_if has_journal ◌>>=◌ check look effect on_failure pure refuse
    same_file validate_journal valid_transaction_id valid_phase valid_journal_text valid_sha256
    validate_artifact add_path next same_phase apply_migration answer apply_fail backup_file commit
    commit_config commit_marker loaded names save_before save_secrets stored_secret write_backups
    write_secrets backup_record delete_refs finish inspect inspect_after inspect_content
    recover_loaded recover_pending remove_backups restore roll_back roll_back_all undo undo_keyring
    begin_journal snapshot_of advance advance_loaded atomic_write complete complete_loaded fits
    follows has_digest is_absent load_bytes load_journal load_snapshot no_journal plain_absent
    is_empty read_file read_private remove_bytes remove_file remove_found remove_journal
    remove_loaded remove_snapshot the_content the_journal verify_artifact write_bytes
    write_exclusive append_bytes clean_up write_snapshot bytes_eq trim_space trim_left trim_right
cut_off_snapshot = (refl, refl, refl)

-- Someone else has written the configuration.
abbrev foreign_disk : D
foreign_disk = record start_disk {
  files = λ f. elim f [
    | config_file ↦ some (codes "abc")
    | marker_file ↦ none
    | config_recovery ↦ some old_config
    | marker_recovery ↦ none
    | backup n ↦ none
  ];
  journal = some (at_phase config (new_journal by_first one_file));
}

recover_pending-Unknown_example :
    ((recover_pending by_first (record { fates = []; disk = foreign_disk })).1.disk ≡ foreign_disk)
    × GivesUp ((recover_pending by_first (record { fates = []; disk = foreign_disk })).0)
recover_pending-Unknown_example =
    recover_pending-Unknown by_first (record { fates = []; disk = foreign_disk })
      (at_phase config (new_journal by_first one_file)) refl (unfold same_phase in refl)
      (inr record {
        content = codes "abc";
        there = refl;
        not_before = unfold snapshot_of bytes_eq in refl;
        not_after = unfold bytes_eq in refl;
      })
