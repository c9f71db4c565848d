-- ===== src/Migration/Complete.antt =====
-- How a transaction whose files are verified is completed.
use ipgw_meta.Prelude.{◌≡◌, inl, refl, Bool, true, ◌&&◌, none, some, arith}
use ipgw_meta.Text.{Bytes, bytes_eq}
use ipgw_meta.Text.Laws.{bytes_eq_refl}
use ipgw_meta.Migration.Disk.{
  config_file, marker_file, config_recovery, marker_recovery, same_file, check, put_journal,
}
use ipgw_meta.Migration.Journal.{
  Phase, marker_verified, Journal, same_phase, valid_phase, valid_transaction_id, validate_journal,
}
use ipgw_meta.Migration.Logic.{Triple, Triple-weaken, Triple-bind, Triple-check, Triple-known}
use ipgw_meta.Migration.Snapshot.{at_phase, snapshot_of, complete_loaded, complete, remove_snapshot}
use ipgw_meta.Migration.Apply.{Plan, new_journal}
use ipgw_meta.Migration.Steps.{D, verify_lem}
use ipgw_meta.Migration.JournalSteps.{load_journal_lem}
use ipgw_meta.Migration.RollBack.{remove_journal_lem}
use ipgw_meta.Migration.Artifact.{Slot, SnapshotOk, certain}
use ipgw_meta.Migration.Removal.{remove_snapshot_lem}
use ipgw_meta.Migration.Transaction.{
  Prepared, config_slot, marker_slot, JournalAt, Applied, Committed, Anywhere, committed, applied,
}

-- The check of a journal does not depend on its phase, as long as that is one.
pub validate_journal-at_phase :
    (q : Phase) (j : Journal)
    → valid_phase q ≡ true
    → validate_journal j ≡ true
    → validate_journal (at_phase q j) ≡ true
unfolding validate_journal
validate_journal-at_phase q j v h = ground arith

transaction_id-valid :
    (j : Journal) → validate_journal j ≡ true → valid_transaction_id j.transaction_id ≡ true
unfolding validate_journal
transaction_id-valid j h = ground arith

module _ (L : Type 0) (digest : Bytes → Bytes) (p : Plan) (h : Prepared digest p) where
  abbrev m : Slot digest
  m = marker_slot h

  abbrev c : Slot digest
  c = config_slot h

  abbrev Any : D → Type 0
  Any d = Anywhere L digest p h d

  abbrev Done : D → Type 0
  Done d = Committed digest p h d

  abbrev verified : Journal
  verified = at_phase marker_verified (new_journal digest p)

  pub verified-valid : validate_journal verified ≡ true
  unfolding valid_phase
  verified-valid =
      validate_journal-at_phase marker_verified (new_journal digest p) refl h.journal_valid

  -- The snapshot of the configuration is gone.
  abbrev HalfDone : D → Type 0
  HalfDone d =
      (d.files config_recovery ≡ none)
      × (d.files marker_file ≡ some p.marker)
      × (d.files config_file ≡ some p.candidate)
      × SnapshotOk m d
      × JournalAt digest p marker_verified d

  abbrev AllDone : D → Type 0
  AllDone d =
      (d.files marker_recovery ≡ none)
      × (d.files config_recovery ≡ none)
      × (d.files marker_file ≡ some p.marker)
      × (d.files config_file ≡ some p.candidate)
      × JournalAt digest p marker_verified d

  finish_config :
      Triple L Done
        (remove_snapshot digest (snapshot_of digest config_recovery p.config_before))
        (λ u. HalfDone)
        Any
  unfolding same_file
  finish_config =
      Triple-weaken (λ d b. (certain c d (b.3), (b.0, b.1, b.2, b.4)))
        (λ u d g. (g.0, g.1.0, g.1.1, g.1.2, g.1.3))
        (λ d g. committed (g.1.0, g.1.1, g.1.2, g.0.0 tt, g.1.3))
        (remove_snapshot_lem L digest h.digest_valid c
          (λ d.
            (d.files marker_file ≡ some p.marker)
            × (d.files config_file ≡ some p.candidate)
            × SnapshotOk m d
            × JournalAt digest p marker_verified d)
          (λ d f. f) Unit (λ l. tt))

  finish_marker :
      Triple L HalfDone
        (remove_snapshot digest (snapshot_of digest marker_recovery p.marker_before))
        (λ u. AllDone)
        Any
  unfolding same_file
  finish_marker =
      Triple-weaken (λ d b. (certain m d (b.3), (b.0, b.1, b.2, b.4)))
        (λ u d g. (g.0, g.1.0, g.1.1, g.1.2, g.1.3))
        (λ d g. committed (g.1.1, g.1.2, g.0.0 tt, inl (g.1.0), g.1.3))
        (remove_snapshot_lem L digest h.digest_valid m
          (λ d.
            (d.files config_recovery ≡ none)
            × (d.files marker_file ≡ some p.marker)
            × (d.files config_file ≡ some p.candidate)
            × JournalAt digest p marker_verified d)
          (λ d f. f) Unit (λ l. tt))

  all_done : (d : D) → AllDone d → Any d
  unfolding same_file
  all_done d (m0, c0, mf, cf, j) = committed (mf, cf, inl m0, inl c0, j)

  pub Done-Any : (d : D) → Done d → Any d
  Done-Any d b = committed b

  checked : (b : Bool) → b ≡ true → Triple {J = Journal} L Done (check b) (λ u. Done) Any
  checked b e =
      Triple-weaken (λ d b. b) (λ u d q. q.0) (λ d e. e)
        (Triple-check b (λ d b. (Done-Any d b, λ l. e)))

  complete_loaded_lem :
      Triple L Done (complete_loaded digest p.transaction_id verified) (λ u. Applied digest p) Any
  unfolding complete_loaded same_file
  complete_loaded_lem =
      Triple-bind
        (checked
          (valid_transaction_id p.transaction_id && bytes_eq p.transaction_id p.transaction_id)
          named)
        λ u.
          Triple-bind
            (checked (same_phase marker_verified marker_verified) (unfold same_phase in refl))
            λ u.
              Triple-bind
                (verify_lem {P = Done} {E = Any} Done-Any config_file p.candidate (λ d b. b.1)
                  h.fits_candidate digest (digest p.candidate) refl)
                λ u.
                  Triple-bind
                    (verify_lem {P = Done} {E = Any} Done-Any marker_file p.marker (λ d b. b.0)
                      h.fits_marker digest (digest p.marker) refl)
                    λ u. Triple-bind finish_config λ u. Triple-bind finish_marker λ u.
                      remove_journal_lem all_done verified (Applied digest p) (λ d b. b.4)
                        (λ d b.
                          let a : Applied digest p (put_journal none d) =
                            ((refl, b.1, b.0), b.3, b.2) in
                          (a, applied a))
    where
      named :
          (valid_transaction_id p.transaction_id && bytes_eq p.transaction_id p.transaction_id)
          ≡ true
      named =
          rw (transaction_id-valid (new_journal digest p) h.journal_valid)
            (bytes_eq_refl p.transaction_id)

  pub complete_lem : Triple L Done (complete digest p.transaction_id) (λ u. Applied digest p) Any
  unfolding complete
  complete_lem =
      Triple-bind (load_journal_lem Done-Any verified (λ d b. b.4) verified-valid)
        λ j. Triple-known verified (complete_loaded digest p.transaction_id) j complete_loaded_lem
