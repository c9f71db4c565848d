-- ===== src/Migration/Atomicity.antt =====
-- What the migration promises: the configuration and the marker are replaced together or not at
-- all, whatever accesses fail and wherever the process stops.
use ipgw_meta.Prelude.{◌≡◌, ◌≢◌, sym, ap, ◌∙◌, true, some, ◌⊎◌, inl, inr, refl, List, [], ◌∷◌}
use ipgw_meta.Text.{Bytes}
use ipgw_meta.Migration.Disk.{
  same_file, config_file, marker_file, State, Fate, Out, done, failed, stopped,
}
use ipgw_meta.Migration.Journal.{Journal, Phase, marker_verified, valid_phase}
use ipgw_meta.Migration.Snapshot.{at_phase, cut_off}
use ipgw_meta.Migration.JournalSteps.{some_inj}
use ipgw_meta.Migration.Logic.{Ends}
use ipgw_meta.Migration.Recover.{recover_if_present}
use ipgw_meta.Migration.Apply.{Plan, new_journal, Reply, rolled_back, apply_migration}
use ipgw_meta.Migration.Steps.{D}
use ipgw_meta.Migration.Transaction.{
  Prepared, Untouched, Applied, Whole, Anywhere, untouched, unreadable, uncommitted, committed,
  applied, config_slot, marker_slot, JournalAt,
}
use ipgw_meta.Migration.Artifact.{Slot, SnapshotOk, Pending}
use ipgw_meta.Migration.Atomic.{Settles, recover_if_present_lem}
use ipgw_meta.Migration.Applies.{Replied, apply_migration_lem}

-- What may be found after the reply of a transaction.
pub LeftBy : (digest : Bytes → Bytes) (p : Plan) → Prepared digest p → Out Reply → D → Type 0
LeftBy digest p h (done Reply.applied) d = Applied digest p d
LeftBy digest p h (done rolled_back) d = Untouched digest p d
LeftBy digest p h failed d = Anywhere ⊥ digest p h d
LeftBy digest p h stopped d = Anywhere ⊥ digest p h d

-- A file is cut off, while the configuration and the marker are what they were before.
pub CutOff : (digest : Bytes → Bytes) (p : Plan) → Prepared digest p → D → Type 0
CutOff digest p h d =
    (Whole digest p h d → ⊥)
    × (d.files config_file ≡ p.config_before)
    × (d.files marker_file ≡ p.marker_before)

-- A recovery that returned, with both files before or both files after the transaction; or one that
-- had found a file that was cut off.
pub Recovered :
    (digest : Bytes → Bytes) (p : Plan) → Prepared digest p → D → Out (Unit {0}) → D → Type 0
Recovered digest p h found (done u) d = Untouched digest p d ⊎ Applied digest p d
Recovered digest p h found failed d = CutOff digest p h found × Anywhere ⊥ digest p h d
Recovered digest p h found stopped d = CutOff digest p h found × Anywhere ⊥ digest p h d

-- One recovery after another, each with its own mishaps.
unfoldable pub recoveries : (Bytes → Bytes) → List (List Fate) → D → D
recoveries digest [] d = d
recoveries digest (fates ∷ runs) d =
    recoveries digest runs ((recover_if_present digest (record { fates = fates; disk = d })).1.disk)

module _ (digest : Bytes → Bytes) (p : Plan) (h : Prepared digest p) where
  left_lem :
      (fates : List Fate) (o : Out Reply × State Journal)
      → Ends ⊥ (Replied digest p h) (Anywhere ⊥ digest p h) fates o
      → LeftBy digest p h (o.0) (o.1.disk)
  unfolding LeftBy
  left_lem fates (done Reply.applied, s) (q, k) = q
  left_lem fates (done rolled_back, s) (q, k) = q
  left_lem fates (failed, s) (e, k, n) = e
  left_lem fates (stopped, s) (e, k, n) = e

  left-Anywhere : (r : Out Reply) (d : D) → LeftBy digest p h r d → Anywhere ⊥ digest p h d
  unfolding LeftBy
  left-Anywhere (done Reply.applied) d a = Anywhere.applied a
  left-Anywhere (done rolled_back) d a = Anywhere.untouched a
  left-Anywhere failed d a = a
  left-Anywhere stopped d a = a

  Ends-Anywhere :
      (fates : List Fate) (o : Out (Unit {0}) × State Journal)
      → Ends ⊥ (λ u d. Settles ⊥ digest p h d) (Anywhere ⊥ digest p h) fates o
      → Anywhere ⊥ digest p h (o.1.disk)
  Ends-Anywhere fates (done u, s) (inl a, k) = Anywhere.untouched a
  Ends-Anywhere fates (done u, s) (inr a, k) = Anywhere.applied a
  Ends-Anywhere fates (failed, s) (e, k, n) = e
  Ends-Anywhere fates (stopped, s) (e, k, n) = e

  Pending-whole :
      (K : Type 0) (x : Slot digest) (d : D) → (K → SnapshotOk x d) → Pending ⊥ x d → Pending K x d
  Pending-whole K x d ok (inl (f, n)) = inl (f, (ok, n.1))
  Pending-whole K x d ok (inr a) = inr a

  -- The files are whole where they are said to be.
  Anywhere-Whole : (d : D) → Anywhere ⊥ digest p h d → Anywhere (Whole digest p h d) digest p h d
  Anywhere-Whole d (untouched u) = Anywhere.untouched u
  Anywhere-Whole d (unreadable n u) = Anywhere.unreadable (λ w. w.0 (u.0)) u
  Anywhere-Whole d (uncommitted (q, v, o, (pm, pc, j))) = Anywhere.uncommitted (
    q,
    v,
    o,
    (
      Pending-whole (Whole digest p h d) (marker_slot h) d (λ w. w.1) pm,
      Pending-whole (Whole digest p h d) (config_slot h) d (λ w. w.2) pc,
      j,
    ),
  )
  Anywhere-Whole d (committed b) = Anywhere.committed b
  Anywhere-Whole d (applied a) = Anywhere.applied a

  Pending-loose : (K : Type 0) (x : Slot digest) (d : D) → Pending K x d → Pending ⊥ x d
  Pending-loose K x d (inl (f, n)) = inl (f, ((λ l. absurd l), n.1))
  Pending-loose K x d (inr a) = inr a

  Anywhere-loose : (K : Type 0) (d : D) → Anywhere K digest p h d → Anywhere ⊥ digest p h d
  Anywhere-loose K d (untouched u) = Anywhere.untouched u
  Anywhere-loose K d (unreadable n u) = Anywhere.unreadable (λ l. l) u
  Anywhere-loose K d (uncommitted (q, v, o, (pm, pc, j))) =
      Anywhere.uncommitted
        (q, v, o, (Pending-loose K (marker_slot h) d pm, Pending-loose K (config_slot h) d pc, j))
  Anywhere-loose K d (committed b) = Anywhere.committed b
  Anywhere-loose K d (applied a) = Anywhere.applied a

  readable :
      (q : Phase) (d : D)
      → valid_phase q ≡ true
      → JournalAt digest p q d
      → d.journal ≢ some (cut_off (new_journal digest p))
  unfolding valid_phase
  readable q d v j e =
      let same : at_phase q (new_journal digest p) ≡ cut_off (new_journal digest p) =
        some_inj (at_phase q (new_journal digest p)) (cut_off (new_journal digest p)) (sym j ∙ e) in
      cc (sym v ∙ ap (λ (k : Journal). valid_phase k.phase) same)

  -- Where a file is cut off, nothing has been overwritten.
  Anywhere-CutOff :
      (d : D) → Anywhere ⊥ digest p h d → (Whole digest p h d → ⊥) → CutOff digest p h d
  unfolding CutOff same_file
  Anywhere-CutOff d (untouched ((n, c0, m0), cf, mf)) w = (w, cf, mf)
  Anywhere-CutOff d (unreadable n u) w = (w, u.3, u.4)
  Anywhere-CutOff d (uncommitted (q, v, o, (pm, pc, inl (j, sm, sc)))) w =
      absurd (w (readable q d v j, sm, sc))
  Anywhere-CutOff d (uncommitted (q, v, o, (pm, pc, inr (j, cf, mf)))) w = (w, cf, mf)
  Anywhere-CutOff d (committed (mf, cf, sm, sc, j)) w =
      absurd (w (readable marker_verified d (unfold valid_phase in refl) j, sm, sc))
  Anywhere-CutOff d (applied ((n, c0, m0), cf, mf)) w =
      absurd (w ((λ e. cc (sym n ∙ e)), inl m0, inl c0))

  Ends-Recovered :
      (found : D) (o : Out (Unit {0}) × State Journal)
      → Anywhere ⊥ digest p h found
      → Ends
          (Whole digest p h found)
          (λ u d. Settles (Whole digest p h found) digest p h d)
          (Anywhere (Whole digest p h found) digest p h)
          []
          o
      → Recovered digest p h found (o.0) (o.1.disk)
  unfolding Recovered
  Ends-Recovered found (done u, s) there (q, k) = q
  Ends-Recovered found (failed, s) there (e, k, n) = (
    Anywhere-CutOff found there (λ w. k w refl),
    Anywhere-loose (Whole digest p h found) s.disk e,
  )
  Ends-Recovered found (stopped, s) there (e, k, n) = (
    Anywhere-CutOff found there (λ w. k w refl),
    Anywhere-loose (Whole digest p h found) s.disk e,
  )

  recoveries-Anywhere :
      (runs : List (List Fate)) (d : D)
      → Anywhere ⊥ digest p h d
      → Anywhere ⊥ digest p h (recoveries digest runs d)
  unfolding recoveries
  recoveries-Anywhere [] d a = a
  recoveries-Anywhere (fates ∷ runs) d a =
      recoveries-Anywhere runs
        ((recover_if_present digest (record { fates = fates; disk = d })).1.disk)
        (Ends-Anywhere fates (recover_if_present digest (record { fates = fates; disk = d }))
          ((recover_if_present_lem ⊥ digest p h).at (record { fates = fates; disk = d }) a))

-- A prepared migration that starts on the files that it was prepared for, without journal and
-- snapshots, and returns has replaced both files, if it says that it is applied, or neither, if it
-- reports its failure. If it cannot even undo its steps, or the process stops anywhere, either both
-- files are written and verified; or each is as it was, or has been written and has a whole snapshot
-- of what it was. The journal or a snapshot can be cut off, but only if both files are as they were.
pub apply_migration-LeftBy :
    (digest : Bytes → Bytes) (p : Plan) (h : Prepared digest p) (s : State Journal)
    → Untouched digest p s.disk
    → LeftBy digest p h ((apply_migration digest p s).0) ((apply_migration digest p s).1.disk)
apply_migration-LeftBy digest p h s u =
    left_lem digest p h s.fates (apply_migration digest p s)
      ((apply_migration_lem digest p h).at s u)

-- Let a prepared migration start on the files that it was prepared for, without journal and
-- snapshots. However it was interrupted, and however many recoveries failed or were stopped after
-- it: if the next recovery, whose accesses all work, returns, both files are as they were before the
-- migration or both are as it writes them, with no journal and no snapshot behind; and it does
-- return, unless it has found both files as they were before, and the journal or a snapshot cut off.
pub recover_if_present-Recovered :
    (digest : Bytes → Bytes) (p : Plan) (h : Prepared digest p) (s : State Journal)
    (runs : List (List Fate))
    → Untouched digest p s.disk
    → Recovered digest p h
        (recoveries digest runs ((apply_migration digest p s).1.disk))
        ((recover_if_present digest (record {
          fates = [];
          disk = recoveries digest runs ((apply_migration digest p s).1.disk);
        })).0)
        ((recover_if_present digest (record {
          fates = [];
          disk = recoveries digest runs ((apply_migration digest p s).1.disk);
        })).1.disk)
recover_if_present-Recovered digest p h s runs u =
    let left = apply_migration-LeftBy digest p h s u in
    let found : D = recoveries digest runs ((apply_migration digest p s).1.disk) in
    let there = recoveries-Anywhere digest p h runs ((apply_migration digest p s).1.disk) (
      left-Anywhere digest p h ((apply_migration digest p s).0)
        ((apply_migration digest p s).1.disk) left) in
    Ends-Recovered digest p h found
      (recover_if_present digest (record { fates = []; disk = found })) there
      ((recover_if_present_lem (Whole digest p h found) digest p h).at
        (record { fates = []; disk = found }) (Anywhere-Whole digest p h found there))
