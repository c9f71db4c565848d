-- ===== src/Migration/Applies.antt =====
-- A whole transaction is applied or leaves no trace, whatever goes wrong and wherever it stops.
use ipgw_meta.Prelude.{◌≡◌, ◌⊎◌, inl, inr, refl, sym, ◌∙◌, Bool, true, false, Option, none, some}
use ipgw_meta.Text.{Bytes}
use ipgw_meta.Migration.Disk.{
  config_file, marker_file, config_recovery, marker_recovery, same_file, check, put, put_journal,
  State,
}
use ipgw_meta.Migration.Journal.{
  Phase, prepared, keyring, config, marker_verified, Journal, same_phase, valid_phase,
  validate_journal,
}
use ipgw_meta.Migration.Logic.{
  Ends, Triple, Triple-weaken, Triple-pure, Triple-refuse, Triple-look, Triple-bind, Triple-effect,
  Triple-check, Triple-on_failure,
}
use ipgw_meta.Migration.Snapshot.{
  atomic_write, cut_off, begin_journal, the_journal, load_journal, no_journal,
}
use ipgw_meta.Migration.Recover.{recover_pending}
use ipgw_meta.Migration.Apply.{
  Reply, rolled_back, loaded, names, commit_config, commit_marker, commit, answer, apply_fail,
  apply_migration, Plan, new_journal,
}
use ipgw_meta.Migration.Steps.{D, look_around, read_lem, private_lem, verify_lem}
use ipgw_meta.Migration.Writes.{clean_up_lem}
use ipgw_meta.Migration.Complete.{complete_lem}
use ipgw_meta.Migration.Atomic.{Answer, recover_pending_lem}
use ipgw_meta.Migration.Commit.{Stage, Open, Stage-Any, tested, around, refused, moved, advance_lem}
use ipgw_meta.Migration.Transaction.{
  Prepared, Untouched, Applied, Committed, Anywhere, untouched, unreadable, uncommitted, committed,
  applied,
}
use ipgw_meta.Migration.Saves.{
  clean, saved, configured, marked, Saved, Configured, Marked, save_before_lem, save_secrets_lem,
}

module _ (digest : Bytes → Bytes) (p : Plan) (h : Prepared digest p) where
  abbrev Any : D → Type 0
  Any d = Anywhere ⊥ digest p h d

  abbrev At : Option Bytes → Option Bytes → Option Bytes → Option Bytes → Phase → D → Type 0
  At cf cr mf mr q = Stage digest p h cf cr mf mr q

  Configured-Any :
      (q : Phase)
      → valid_phase q ≡ true
      → same_phase q marker_verified ≡ false
      → (d : D) → Configured digest p h q d
      → Any d
  Configured-Any q v o =
      Stage-Any digest p h (some p.candidate) p.config_before p.marker_before p.marker_before q
        (configured digest p h q v o)

  loaded_lem :
      (q : Phase)
      (o : Open digest p h (some p.candidate) p.config_before p.marker_before p.marker_before q)
      (content : Option Bytes)
      → Triple ⊥
          (Configured digest p h q)
          (loaded p.loads_config content)
          (λ u. Configured digest p h q)
          Any
  unfolding loaded
  loaded_lem q o none =
      refused digest p h (some p.candidate) p.config_before p.marker_before p.marker_before q o
        (λ u. Configured digest p h q)
  loaded_lem q o (some s) =
      tested digest p h (some p.candidate) p.config_before p.marker_before p.marker_before q o
        (p.loads_config s)

  commit_config_lem :
      Triple ⊥
        (Saved digest p h keyring)
        (commit_config digest p)
        (λ u. Configured digest p h config)
        Any
  unfolding commit_config valid_phase same_phase atomic_write same_file
  commit_config_lem =
      Triple-bind
        (around digest p h p.config_before p.config_before p.marker_before p.marker_before keyring
          (saved digest p h keyring refl refl))
        λ u.
          Triple-bind
            (moved digest p h p.config_before p.config_before p.marker_before p.marker_before
              keyring (saved digest p h keyring refl refl) (put config_file (some p.candidate))
              (Configured digest p h keyring)
              (λ d s.
                let n : Configured digest p h keyring (put config_file (some p.candidate) d) =
                  (refl, s.1, s.2, s.3, s.4) in
                (n, Configured-Any keyring refl refl (put config_file (some p.candidate) d) n)))
            λ u.
              Triple-bind
                (verify_lem {P = Configured digest p h keyring} {E = Any}
                  (Configured-Any keyring refl refl) config_file p.candidate (λ d s. s.0)
                  h.fits_candidate digest (digest p.candidate) refl)
                λ u.
                  Triple-bind
                    (Triple-weaken (λ d s. s) (λ c d s. s.0) (λ d e. e)
                      (read_lem {L = ⊥} {P = Configured digest p h keyring} {E = Any}
                        (Configured-Any keyring refl refl) config_file (λ d s l. absurd l)))
                    λ content.
                      Triple-bind
                        (loaded_lem keyring (configured digest p h keyring refl refl) content)
                        λ u.
                          advance_lem digest p h (some p.candidate) p.config_before p.marker_before
                            p.marker_before keyring (configured digest p h keyring refl refl) config
                            refl (Configured-Any config refl refl)

  Marked-Any :
      (q : Phase)
      → valid_phase q ≡ true
      → same_phase q marker_verified ≡ false
      → (d : D) → Marked digest p h q d
      → Any d
  Marked-Any q v o =
      Stage-Any digest p h (some p.candidate) p.config_before (some p.marker) p.marker_before q
        (marked digest p h q v o)

  Marked-Committed : (d : D) → Marked digest p h marker_verified d → Committed digest p h d
  unfolding same_file
  Marked-Committed d (cf, cr, mf, mr, j) = (mf, cf, inr mr, inr cr, j)

  commit_marker_lem :
      Triple ⊥
        (Configured digest p h config)
        (commit_marker digest p)
        (λ u. Marked digest p h marker_verified)
        Any
  unfolding commit_marker valid_phase same_phase atomic_write same_file
  commit_marker_lem =
      Triple-bind
        (moved digest p h (some p.candidate) p.config_before p.marker_before p.marker_before config
          (configured digest p h config refl refl) (put marker_file (some p.marker))
          (Marked digest p h config)
          (λ d s.
            let n : Marked digest p h config (put marker_file (some p.marker) d) =
              (s.0, s.1, refl, s.3, s.4) in
            (n, Marked-Any config refl refl (put marker_file (some p.marker) d) n)))
        λ u.
          Triple-bind
            (Triple-weaken (λ d s. s) (λ t d s. s.0) (λ d e. e)
              (private_lem {L = ⊥} {P = Marked digest p h config} {E = Any}
                (Marked-Any config refl refl) marker_file p.marker (λ d s. s.2) h.fits_marker))
            λ t.
              Triple-bind
                (tested digest p h (some p.candidate) p.config_before (some p.marker)
                  p.marker_before config (marked digest p h config refl refl)
                  (names p.transaction_id (p.marker_id t)))
                λ u.
                  Triple-bind
                    (verify_lem {P = Marked digest p h config} {E = Any}
                      (Marked-Any config refl refl) marker_file p.marker (λ d s. s.2) h.fits_marker
                      digest (digest p.marker) refl)
                    λ u.
                      advance_lem digest p h (some p.candidate) p.config_before (some p.marker)
                        p.marker_before config (marked digest p h config refl refl) marker_verified
                        refl (λ d s. committed (Marked-Committed d s))

  -- The reply of a transaction is where it leaves the files.
  abbrev pub Replied : Reply → D → Type 0
  Replied Reply.applied d = Applied digest p d
  Replied rolled_back d = Untouched digest p d

  commit_lem :
      Triple ⊥ (At p.config_before none p.marker_before none prepared) (commit digest p) Replied Any
  unfolding commit
  commit_lem = Triple-bind (save_before_lem digest p h) λ u.
      Triple-bind (save_secrets_lem digest p h) λ u. Triple-bind commit_config_lem λ u.
        Triple-bind commit_marker_lem λ u.
          Triple-bind
            (Triple-weaken Marked-Committed (λ u d a. a) (λ d e. e) (complete_lem ⊥ digest p h))
            λ u. Triple-pure Reply.applied (λ d a. a)

  absent_journal :
      {Q : Bool → D → Type 0} {P : D → Type 0}
      → ((d : D) → P d → Any d)
      → ((d : D) → P d → d.journal ≡ none)
      → Triple ⊥ P (recover_pending digest) Q Any
  unfolding recover_pending load_journal
  absent_journal {Q} {P} keep gone =
      Triple-bind {R = λ j d. ⊥}
        (Triple-bind (look_around keep) λ u.
          Triple-bind {R = λ o d. P d × (d.journal ≡ o)}
            (Triple-look (λ d. d.journal) (λ d a. (a, refl))) λ o. nothing o)
        λ j. record { at = λ s b. absurd b }
    where
      nothing :
          (o : Option Journal)
          → Triple ⊥ (λ d. P d × (d.journal ≡ o)) (the_journal o) (λ j d. ⊥) Any
      nothing none = unfold the_journal in Triple-refuse (λ d a. (keep d (a.0), λ l. l))
      nothing (some j) = record { at = λ s a. absurd (cc (sym (gone s.disk (a.0)) ∙ a.1)) }

  recover-Any : Triple ⊥ Any (recover_pending digest) (Answer ⊥ digest p h) Any
  recover-Any = record { at = λ s a. from s a }
    where
      from :
          (s : State Journal)
          → Any s.disk
          → Ends ⊥ (Answer ⊥ digest p h) Any s.fates (recover_pending digest s)
      from s (untouched u) =
          (absent_journal {P = Untouched digest p} (λ d u. untouched u) (λ d u. u.0.0)).at s u
      from s (applied a) =
          (absent_journal {P = Applied digest p} (λ d u. applied u) (λ d u. u.0.0)).at s a
      from s (unreadable n u) = (recover_pending_lem ⊥ digest p h).at s (inr (inr (n, u)))
      from s (uncommitted u) = (recover_pending_lem ⊥ digest p h).at s (inl u)
      from s (committed b) = (recover_pending_lem ⊥ digest p h).at s (inr (inl b))

  answer_lem : (b : Bool) → Triple ⊥ (Answer ⊥ digest p h b) (answer b) Replied Any
  unfolding answer
  answer_lem true = Triple-pure Reply.applied (λ d a. a)
  answer_lem false = Triple-pure rolled_back (λ d a. a)

  -- The journal while it is written; the files are as they were.
  abbrev Begun : Option Journal → D → Type 0
  Begun o d =
      (d.journal ≡ o)
      × (d.files config_recovery ≡ none)
      × (d.files marker_recovery ≡ none)
      × (d.files config_file ≡ p.config_before)
      × (d.files marker_file ≡ p.marker_before)

  abbrev new : Journal
  new = new_journal digest p

  abbrev Begins : D → Type 0
  Begins d = Begun none d ⊎ (Begun (some (cut_off new)) d ⊎ Begun (some new) d)

  Begins-Any : (d : D) → Begins d → Any d
  Begins-Any d (inl (n, c0, m0, cf, mf)) = untouched ((n, c0, m0), cf, mf)
  Begins-Any d (inr (inl u)) = unreadable (λ l. l) u
  Begins-Any d (inr (inr (j, c0, m0, cf, mf))) =
      Stage-Any digest p h p.config_before none p.marker_before none prepared
        (clean digest p h prepared (unfold valid_phase in refl) (unfold same_phase in refl)) d
        (cf, c0, mf, m0, j)

  removed : (d : D) → Begins d → Begins (put_journal none d)
  removed d (inl b) = inl (refl, b.1, b.2, b.3, b.4)
  removed d (inr (inl b)) = inl (refl, b.1, b.2, b.3, b.4)
  removed d (inr (inr b)) = inl (refl, b.1, b.2, b.3, b.4)

  not-Begun : (b : Bool) → Triple {J = Journal} ⊥ (Begun none) (check b) (λ u. Begun none) Begins
  not-Begun b =
      Triple-weaken (λ d a. a) (λ u d a. a.0) (λ d e. e)
        (Triple-check b (λ d a. (inl a, λ l. absurd l)))

  begin_steps : Triple ⊥ (Begun none) (begin_journal new) (λ u. Begun (some new)) Begins
  unfolding begin_journal
  begin_steps = Triple-bind (not-Begun (validate_journal new)) λ u.
      Triple-bind {R = λ o. Begun none} (Triple-look (λ d. d.journal) (λ d a. a)) λ o.
        Triple-bind (not-Begun (no_journal o)) λ u.
          Triple-bind {R = λ u. Begun (some (cut_off new))}
            (Triple-effect (put_journal (some (cut_off new)))
              (λ d a. ((refl, a.1, a.2, a.3, a.4), inl a, inr (inl (refl, a.1, a.2, a.3, a.4)))))
            λ u.
              Triple-bind
                (Triple-on_failure
                  (Triple-bind {R = λ u. Begun (some new)}
                    (Triple-effect (put_journal (some new)) (λ d a. (
                      (refl, a.1, a.2, a.3, a.4),
                      inr (inl a),
                      inr (inr (refl, a.1, a.2, a.3, a.4)),
                    )))
                    λ u. look_around (λ d a. inr (inr a)))
                  (clean_up_lem Begins (put_journal none) removed))
                λ u. look_around (λ d a. inr (inr a))

  begin_lem :
      Triple ⊥
        (Untouched digest p)
        (begin_journal new)
        (λ u. At p.config_before none p.marker_before none prepared)
        Any
  begin_lem =
      Triple-weaken (λ d u. (u.0.0, u.0.1, u.0.2, u.1, u.2)) (λ u d a. (a.3, a.1, a.4, a.2, a.0))
        Begins-Any begin_steps

  pub apply_migration_lem : Triple ⊥ (Untouched digest p) (apply_migration digest p) Replied Any
  unfolding apply_migration apply_fail
  apply_migration_lem =
      Triple-bind begin_lem λ u. Triple-on_failure commit_lem (Triple-bind recover-Any answer_lem)
