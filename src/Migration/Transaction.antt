-- ===== src/Migration/Transaction.antt =====
-- Where a transaction can be found, at any point and after any interruption.
use ipgw_meta.Prelude.{◌≡◌, ◌≢◌, ◌⊎◌, inl, inr, refl, true, false, none, some, leb, length}
use ipgw_meta.Text.{Bytes}
use ipgw_meta.Migration.Disk.{
  config_file, marker_file, config_recovery, marker_recovery, same_file, max_config_bytes,
}
use ipgw_meta.Migration.Journal.{
  Phase, marker_verified, same_phase, valid_phase, valid_sha256, validate_journal,
}
use ipgw_meta.Migration.Snapshot.{fits, at_phase, cut_off}
use ipgw_meta.Migration.Apply.{Plan, new_journal}
use ipgw_meta.Migration.Steps.{D}
use ipgw_meta.Migration.Artifact.{Slot, SnapshotOk, Pending}

-- What is known of a plan that has been prepared: its files are within the limit, its journal is
-- valid, and the digests of a file before and after the transaction differ where the file does.
pub record Prepared (digest : Bytes → Bytes) (p : Plan) : Type 0 where
  pub digest_valid : (s : Bytes) → valid_sha256 (digest s) ≡ true
  pub journal_valid : validate_journal (new_journal digest p) ≡ true
  pub fits_config_before : fits p.config_before ≡ true
  pub fits_marker_before : fits p.marker_before ≡ true
  pub fits_candidate : leb (length p.candidate) max_config_bytes ≡ true
  pub fits_marker : leb (length p.marker) max_config_bytes ≡ true
  pub config_distinct :
      (s : Bytes) → p.config_before ≡ some s → digest p.candidate ≡ digest s → p.candidate ≡ s
  pub marker_distinct :
      (s : Bytes) → p.marker_before ≡ some s → digest p.marker ≡ digest s → p.marker ≡ s

module _ {digest : Bytes → Bytes} {p : Plan} where
  abbrev pub config_slot : Prepared digest p → Slot digest
  unfolding same_file
  config_slot h = record {
    target = config_file;
    recovery = config_recovery;
    content_before = p.config_before;
    content_after = p.candidate;
    target_self = refl;
    recovery_self = refl;
    apart = refl;
    apart_back = refl;
    fits_before = h.fits_config_before;
    fits_after = h.fits_candidate;
    distinct = h.config_distinct;
  }

  abbrev pub marker_slot : Prepared digest p → Slot digest
  unfolding same_file
  marker_slot h = record {
    target = marker_file;
    recovery = marker_recovery;
    content_before = p.marker_before;
    content_after = p.marker;
    target_self = refl;
    recovery_self = refl;
    apart = refl;
    apart_back = refl;
    fits_before = h.fits_marker_before;
    fits_after = h.fits_marker;
    distinct = h.marker_distinct;
  }

module _ (digest : Bytes → Bytes) (p : Plan) where
  abbrev pub JournalAt : Phase → D → Type 0
  JournalAt q d = d.journal ≡ some (at_phase q (new_journal digest p))

  -- No journal and no snapshot.
  abbrev pub Settled : D → Type 0
  Settled d =
      (d.journal ≡ none) × (d.files config_recovery ≡ none) × (d.files marker_recovery ≡ none)

  -- Both files are what they were before.
  abbrev pub Untouched : D → Type 0
  Untouched d =
      Settled d × (d.files config_file ≡ p.config_before) × (d.files marker_file ≡ p.marker_before)

  -- Both files are what the transaction writes.
  abbrev pub Applied : D → Type 0
  Applied d =
      Settled d × (d.files config_file ≡ some p.candidate) × (d.files marker_file ≡ some p.marker)

  -- The journal is cut off, and nothing else has been written.
  abbrev pub Unreadable : D → Type 0
  Unreadable d =
      (d.journal ≡ some (cut_off (new_journal digest p)))
      × (d.files config_recovery ≡ none)
      × (d.files marker_recovery ≡ none)
      × (d.files config_file ≡ p.config_before)
      × (d.files marker_file ≡ p.marker_before)

  -- Both files have been written and verified; what is left is to clean up.
  abbrev pub Committed : Prepared digest p → D → Type 0
  Committed h d =
      (d.files marker_file ≡ some p.marker)
      × (d.files config_file ≡ some p.candidate)
      × SnapshotOk (marker_slot h) d
      × SnapshotOk (config_slot h) d
      × JournalAt marker_verified d

  -- Neither the journal nor a snapshot is cut off.
  abbrev pub Whole : Prepared digest p → D → Type 0
  Whole h d =
      (d.journal ≢ some (cut_off (new_journal digest p)))
      × SnapshotOk (marker_slot h) d
      × SnapshotOk (config_slot h) d

  -- The journal is in a phase; both snapshots are whole, or both files are what they were before.
  abbrev pub InPhase : Prepared digest p → Phase → D → Type 0
  InPhase h q d =
      (JournalAt q d × SnapshotOk (marker_slot h) d × SnapshotOk (config_slot h) d)
      ⊎ (JournalAt q d
          × (d.files config_file ≡ p.config_before)
          × (d.files marker_file ≡ p.marker_before))

  pub InPhase-JournalAt :
      (h : Prepared digest p) (q : Phase) (d : D) → InPhase h q d → JournalAt q d
  InPhase-JournalAt h q d (inl (j, sm, sc)) = j
  InPhase-JournalAt h q d (inr (j, cf, mf)) = j

-- Where `L` holds, no file is cut off.
module _ (L : Type 0) (digest : Bytes → Bytes) (p : Plan) (h : Prepared digest p) where
  -- Both files can be rolled back, in this phase of the journal.
  abbrev pub UncommittedAt : Phase → D → Type 0
  UncommittedAt q d =
      Pending L (marker_slot h) d × Pending L (config_slot h) d × InPhase digest p h q d

  abbrev pub Uncommitted : D → Type 0
  Uncommitted d =
      (q : Phase) × (valid_phase q ≡ true)
      × (same_phase q marker_verified ≡ false)
      × UncommittedAt q d

  pub data Anywhere (d : D) : Type 0 where
    untouched : Untouched digest p d → Anywhere d
    unreadable : (L → ⊥) → Unreadable digest p d → Anywhere d
    uncommitted : Uncommitted d → Anywhere d
    committed : Committed digest p h d → Anywhere d
    applied : Applied digest p d → Anywhere d
