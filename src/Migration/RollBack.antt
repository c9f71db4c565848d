-- ===== src/Migration/RollBack.antt =====
-- The rollback of an uncommitted transaction, whatever its files have become.
use ipgw_meta.Prelude.{◌≡◌, inl, inr, refl, sym, ◌∙◌, true, false, not, Option, none, some, map}
use ipgw_meta.Text.{Bytes}
use ipgw_meta.Migration.Disk.{
  config_file, marker_file, config_recovery, marker_recovery, same_file, ◌>>=◌, effect, check, put,
  put_journal,
}
use ipgw_meta.Migration.Journal.{Phase, prepared, marker_verified, Journal, same_phase, valid_phase}
use ipgw_meta.Migration.Logic.{
  Triple, Triple-weaken, Triple-pure, Triple-look, Triple-bind, Triple-effect, Triple-check,
  Triple-if,
}
use ipgw_meta.Migration.Snapshot.{
  at_phase, no_journal, remove_journal, snapshot_of, remove_snapshot,
}
use ipgw_meta.Migration.Recover.{
  remove_backups, undo_keyring, roll_back_all, ArtifactState, at_before, at_after, inspect,
  roll_back,
}
use ipgw_meta.Migration.Apply.{Plan, new_journal, backup_record}
use ipgw_meta.Migration.Steps.{D}
use ipgw_meta.Migration.JournalSteps.{delete_refs_lem, remove_backups_lem}
use ipgw_meta.Migration.Removal.{remove_snapshot_lem}
use ipgw_meta.Migration.Artifact.{
  artifact, Slot, AtBefore, Pending, Framed, StateIs, StateIs-Pending, inspect_lem, roll_back_lem,
}
use ipgw_meta.Migration.Transaction.{
  Prepared, config_slot, marker_slot, InPhase, InPhase-JournalAt, Untouched, UncommittedAt,
  Anywhere, untouched, uncommitted,
}

module _ (L : Type 0) (digest : Bytes → Bytes) (p : Plan) (h : Prepared digest p) (q : Phase)
    (valid : valid_phase q ≡ true) (open_phase : same_phase q marker_verified ≡ false) where
  abbrev m : Slot digest
  m = marker_slot h

  abbrev c : Slot digest
  c = config_slot h

  abbrev Jn : D → Type 0
  Jn d = InPhase digest p h q d

  abbrev Any : D → Type 0
  Any d = Anywhere L digest p h d

  pending : (d : D) → Pending L m d → Pending L c d → Jn d → Any d
  pending d pm pc j = uncommitted (q, valid, open_phase, (pm, pc, j))

  -- Both files are back; the snapshots are still to be removed.
  abbrev Both : D → Type 0
  Both d = AtBefore L m d × AtBefore L c d × Jn d

  Both-Any : (d : D) → Both d → Any d
  Both-Any d (bm, bc, j) = pending d (inl bm) (inl bc) j

  inspect_marker :
      Triple L
        (UncommittedAt L digest p h q)
        (inspect digest (artifact m))
        (λ st d. StateIs L m st d × Pending L c d × Jn d)
        Any
  inspect_marker =
      Triple-weaken (λ d u. (u.0, (u.1, u.2))) (λ st d u. (u.0, u.1.0, u.1.1))
        (λ d u. pending d (u.0) (u.1.0) (u.1.1))
        (inspect_lem L digest h.digest_valid m (λ d. Pending L c d × Jn d))

  inspect_config :
      (st : ArtifactState)
      → Triple L
          (λ d. StateIs L m st d × Pending L c d × Jn d)
          (inspect digest (artifact c))
          (λ st' d. StateIs L m st d × StateIs L c st' d × Jn d)
          Any
  inspect_config st =
      Triple-weaken (λ d u. (u.1, (u.0, u.2))) (λ st' d u. (u.1.0, u.0, u.1.1))
        (λ d u. pending d (StateIs-Pending L digest m st d (u.1.0)) (u.0) (u.1.1))
        (inspect_lem L digest h.digest_valid c (λ d. StateIs L m st d × Jn d))

  Jn-marker :
      (content : Option Bytes) (d : D)
      → p.marker_before ≡ content
      → Jn d
      → Jn (put marker_file content d)
  unfolding same_file
  Jn-marker content d e (inl a) = inl a
  Jn-marker content d e (inr (j, cf, mf)) = inr (j, cf, sym e)

  Jn-config :
      (content : Option Bytes) (d : D)
      → p.config_before ≡ content
      → Jn d
      → Jn (put config_file content d)
  unfolding same_file
  Jn-config content d e (inl a) = inl a
  Jn-config content d e (inr (j, cf, mf)) = inr (j, sym e, mf)

  Jn-drop_marker : (d : D) → Jn d → Jn (put marker_recovery none d)
  unfolding same_file
  Jn-drop_marker d (inl (j, sm, sc)) = inl (j, inl refl, sc)
  Jn-drop_marker d (inr a) = inr a

  Jn-drop_config : (d : D) → Jn d → Jn (put config_recovery none d)
  unfolding same_file
  Jn-drop_config d (inl (j, sm, sc)) = inl (j, sm, inl refl)
  Jn-drop_config d (inr a) = inr a

  framed_marker : (st : ArtifactState) → Framed m (λ d. StateIs L c st d × Jn d)
  unfolding same_file
  framed_marker at_before = record { on_target = λ x d e f. (f.0, Jn-marker x d e (f.1)) }
  framed_marker at_after = record { on_target = λ x d e f. (f.0, Jn-marker x d e (f.1)) }

  framed_config : Framed c (λ d. AtBefore L m d × Jn d)
  unfolding same_file
  framed_config = record { on_target = λ x d e f. (f.0, Jn-config x d e (f.1)) }

  roll_back_marker :
      (st st' : ArtifactState)
      → Triple L
          (λ d. StateIs L m st d × StateIs L c st' d × Jn d)
          (roll_back digest (artifact m) st)
          (λ u d. AtBefore L m d × StateIs L c st' d × Jn d)
          Any
  roll_back_marker st st' =
      Triple-weaken (λ d u. (u.0, (u.1, u.2))) (λ v d u. (u.0, u.1.0, u.1.1))
        (λ d u. pending d (u.0) (StateIs-Pending L digest c st' d (u.1.0)) (u.1.1))
        (roll_back_lem L digest h.digest_valid m (λ d. StateIs L c st' d × Jn d) (framed_marker st')
          st)

  roll_back_config :
      (st' : ArtifactState)
      → Triple L
          (λ d. AtBefore L m d × StateIs L c st' d × Jn d)
          (roll_back digest (artifact c) st')
          (λ u. Both)
          Any
  roll_back_config st' =
      Triple-weaken (λ d u. (u.1, (u.0, u.2))) (λ v d u. (u.1.0, u.0, u.1.1))
        (λ d u. pending d (inl (u.1.0)) (u.0) (u.1.1))
        (roll_back_lem L digest h.digest_valid c (λ d. AtBefore L m d × Jn d) framed_config st')

  undo_keyring_lem :
      Triple L Both (undo_keyring (at_phase q (new_journal digest p))) (λ u. Both) Any
  unfolding undo_keyring
  undo_keyring_lem =
      Triple-if (same_phase q prepared) (λ e. Triple-pure tt (λ d b. b))
        (λ e. delete_refs_lem Both-Any (map (λ secret. secret.0) p.secrets) (λ r d b. b))

  remove_backups_all : Triple L Both (remove_backups (map backup_record p.migrated)) (λ u. Both) Any
  unfolding same_file
  remove_backups_all = remove_backups_lem Both-Any p.migrated (λ n d b. b)

  -- The snapshot of the marker is gone.
  abbrev HalfClean : D → Type 0
  HalfClean d =
      (d.files marker_recovery ≡ none)
      × (d.files marker_file ≡ p.marker_before)
      × AtBefore L c d
      × Jn d

  drop_marker :
      Triple L Both
        (remove_snapshot digest (snapshot_of digest marker_recovery p.marker_before))
        (λ u. HalfClean)
        Any
  unfolding same_file
  drop_marker =
      Triple-weaken (λ d b. (b.0.1, (b.0.0, b.1, b.2))) (λ u d g. (g.0, g.1.0, g.1.1, g.1.2))
        (λ d g. Both-Any d ((g.1.0, g.0), g.1.1, g.1.2))
        (remove_snapshot_lem L digest h.digest_valid m
          (λ d. (d.files marker_file ≡ p.marker_before) × AtBefore L c d × Jn d)
          (λ d f. (f.0, f.1, Jn-drop_marker d (f.2))) L (λ l. l))

  -- Both snapshots are gone.
  abbrev Clean : D → Type 0
  Clean d =
      (d.files config_recovery ≡ none)
      × (d.files marker_recovery ≡ none)
      × (d.files config_file ≡ p.config_before)
      × (d.files marker_file ≡ p.marker_before)
      × Jn d

  drop_config :
      Triple L HalfClean
        (remove_snapshot digest (snapshot_of digest config_recovery p.config_before))
        (λ u. Clean)
        Any
  unfolding same_file
  drop_config =
      Triple-weaken (λ d b. (b.2.1, (b.0, b.2.0, b.1, b.3)))
        (λ u d g. (g.0, g.1.0, g.1.1, g.1.2, g.1.3))
        (λ d g. Both-Any d ((g.1.2, ((λ l. inl (g.1.0)), λ n. g.1.0)), (g.1.1, g.0), g.1.3))
        (remove_snapshot_lem L digest h.digest_valid c
          (λ d.
            (d.files marker_recovery ≡ none)
            × (d.files config_file ≡ p.config_before)
            × (d.files marker_file ≡ p.marker_before)
            × Jn d)
          (λ d f. (f.0, f.1, f.2, Jn-drop_config d (f.3))) L (λ l. l))

  Clean-Any : (d : D) → Clean d → Any d
  unfolding same_file
  Clean-Any d (c0, m0, cf, mf, j) =
      Both-Any d ((mf, ((λ l. inl m0), λ n. m0)), (cf, ((λ l. inl c0), λ n. c0)), j)

  cleaned : (d : D) → Clean d → Untouched digest p (put_journal none d)
  cleaned d (c0, m0, cf, mf, j) = ((refl, c0, m0), cf, mf)

module _ {L : Type 0} {P E : D → Type 0} (keep : (d : D) → P d → E d) where
  journal_gone :
      (o : Option Journal) (j : Journal) (Q : D → Type 0)
      → ((d : D) → P d → d.journal ≡ some j)
      → ((d : D) → P d → Q (put_journal none d) × E (put_journal none d))
      → Triple L
          (λ d. P d × (d.journal ≡ o))
          (check (not (no_journal o)) >>= λ u. effect (put_journal none))
          (λ u. Q)
          E
  unfolding no_journal
  journal_gone none j Q here gone =
      Triple-bind
        (Triple-check false (λ d p. (keep d (p.0), λ l. absurd (cc (sym (here d (p.0)) ∙ p.1)))))
        λ u. Triple-effect (put_journal none) (λ d p. absurd (cc (p.1)))
  journal_gone (some k) j Q here gone =
      Triple-bind (Triple-check true (λ d p. (keep d (p.0), λ l. refl))) λ u.
        Triple-effect (put_journal none)
          (λ d p. let g = gone d (p.0.0) in (g.0, keep d (p.0.0), g.1))

  pub remove_journal_lem :
      (j : Journal) (Q : D → Type 0)
      → ((d : D) → P d → d.journal ≡ some j)
      → ((d : D) → P d → Q (put_journal none d) × E (put_journal none d))
      → Triple L P remove_journal (λ u. Q) E
  unfolding remove_journal
  remove_journal_lem j Q here gone =
      Triple-bind {R = λ o d. P d × (d.journal ≡ o)}
        (Triple-look (λ d. d.journal) (λ d p. (p, refl))) λ o. journal_gone o j Q here gone

-- The whole rollback ends with both files as they were before; wherever it is interrupted, it can be
-- run again.
module _ (L : Type 0) (digest : Bytes → Bytes) (p : Plan) (h : Prepared digest p) (q : Phase)
    (valid : valid_phase q ≡ true) (open_phase : same_phase q marker_verified ≡ false) where
  pub roll_back_all_lem :
      Triple L
        (UncommittedAt L digest p h q)
        (roll_back_all digest (at_phase q (new_journal digest p)))
        (λ committed d. (committed ≡ false) × Untouched digest p d)
        (Anywhere L digest p h)
  unfolding roll_back_all same_file
  roll_back_all_lem = Triple-bind (inspect_marker L digest p h q valid open_phase) λ st.
      Triple-bind (inspect_config L digest p h q valid open_phase st) λ st'.
        Triple-bind (roll_back_marker L digest p h q valid open_phase st st') λ u.
          Triple-bind (roll_back_config L digest p h q valid open_phase st') λ u.
            Triple-bind (undo_keyring_lem L digest p h q valid open_phase) λ u.
              Triple-bind (remove_backups_all L digest p h q valid open_phase) λ u.
                Triple-bind (drop_marker L digest p h q valid open_phase) λ u.
                  Triple-bind (drop_config L digest p h q valid open_phase) λ u.
                    Triple-bind
                      (remove_journal_lem (Clean-Any L digest p h q valid open_phase)
                        (at_phase q (new_journal digest p)) (Untouched digest p)
                        (λ d b. InPhase-JournalAt digest p h q d (b.4))
                        (λ d b.
                          let u = cleaned L digest p h q valid open_phase d b in (u, untouched u)))
                      λ u. Triple-pure false (λ d b. (refl, b))
