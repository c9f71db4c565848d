-- ===== src/Migration/Saves.antt =====
-- A transaction up to its secrets: what is saved before the configuration and the marker are written.
use ipgw_meta.Prelude.{◌∙◌, ◌&&◌, ◌≡◌, inl, inr, refl, true, false, Option, none, some}
use ipgw_meta.Text.{Bytes, bytes_eq}
use ipgw_meta.Migration.Disk.{config_recovery, marker_recovery, same_file}
use ipgw_meta.Migration.Journal.{
  Phase, prepared, backups, keyring, marker_verified, same_phase, valid_phase,
}
use ipgw_meta.Migration.Logic.{Triple, Triple-bind}
use ipgw_meta.Migration.Snapshot.{write_snapshot, write_bytes, plain_absent, is_empty, snapshot_of}
use ipgw_meta.Migration.Apply.{save_before, save_secrets, Plan}
use ipgw_meta.Migration.Steps.{D}
use ipgw_meta.Migration.Writes.{exclusive_lem}
use ipgw_meta.Migration.Commit.{
  Stage, Open, Stage-Any, tested, advance_lem, backups_lem, secrets_lem,
}
use ipgw_meta.Migration.Transaction.{Prepared, Anywhere}

module _ (digest : Bytes → Bytes) (p : Plan) (h : Prepared digest p) where
  abbrev Any : D → Type 0
  Any d = Anywhere ⊥ digest p h d

  abbrev At : Option Bytes → Option Bytes → Option Bytes → Option Bytes → Phase → D → Type 0
  At cf cr mf mr q = Stage digest p h cf cr mf mr q

  save_config :
      (c mf mr : Option Bytes) (q : Phase)
      → (c ≡ p.config_before)
      → ((r : Option Bytes)
          → (p.config_before ≡ none → r ≡ none)
          → Open digest p h p.config_before r mf mr q)
      → Triple ⊥
          (At p.config_before none mf mr q)
          (write_snapshot digest (snapshot_of digest config_recovery c) c)
          (λ u. At p.config_before c mf mr q)
          Any
  unfolding write_snapshot write_bytes snapshot_of same_file
  save_config none mf mr q e o =
      tested digest p h p.config_before none mf mr q (o none (λ n. refl))
        (plain_absent (snapshot_of digest config_recovery none) && is_empty none)
  save_config (some b) mf mr q e o =
      Triple-bind
        (tested digest p h p.config_before none mf mr q (o none (λ n. refl))
          (bytes_eq (digest b) (digest b)))
        λ u.
          exclusive_lem config_recovery (λ r. At p.config_before r mf mr q)
            (λ r r' d s. (s.0, refl, s.2, s.3, s.4)) Any
            (λ r d s.
              Stage-Any digest p h p.config_before r mf mr q (o r (λ n. absurd (cc (e ∙ n)))) d s)
            b

  save_marker :
      (c cf cr : Option Bytes) (q : Phase)
      → (c ≡ p.marker_before)
      → ((r : Option Bytes)
          → (p.marker_before ≡ none → r ≡ none)
          → Open digest p h cf cr p.marker_before r q)
      → Triple ⊥
          (At cf cr p.marker_before none q)
          (write_snapshot digest (snapshot_of digest marker_recovery c) c)
          (λ u. At cf cr p.marker_before c q)
          Any
  unfolding write_snapshot write_bytes snapshot_of same_file
  save_marker none cf cr q e o =
      tested digest p h cf cr p.marker_before none q (o none (λ n. refl))
        (plain_absent (snapshot_of digest marker_recovery none) && is_empty none)
  save_marker (some b) cf cr q e o =
      Triple-bind
        (tested digest p h cf cr p.marker_before none q (o none (λ n. refl))
          (bytes_eq (digest b) (digest b)))
        λ u.
          exclusive_lem marker_recovery (λ r. At cf cr p.marker_before r q)
            (λ r r' d s. (s.0, s.1, s.2, refl, s.4)) Any
            (λ r d s.
              Stage-Any digest p h cf cr p.marker_before r q (o r (λ n. absurd (cc (e ∙ n)))) d s)
            b

  -- Both files are what they were before, with any snapshots that there can be.
  Open-before :
      (cr mr : Option Bytes) (q : Phase)
      → valid_phase q ≡ true
      → same_phase q marker_verified ≡ false
      → (p.config_before ≡ none → cr ≡ none)
      → (p.marker_before ≡ none → mr ≡ none)
      → Open digest p h p.config_before cr p.marker_before mr q
  Open-before cr mr q v o nc nm = record {
    config_safe = inl (refl, nc);
    marker_safe = inl (refl, nm);
    valid = v;
    open_phase = o;
    calm = inr (refl, refl);
  }

  -- The files before the transaction, with and without the snapshots, and behind each write.
  pub clean :
      (q : Phase)
      → valid_phase q ≡ true
      → same_phase q marker_verified ≡ false
      → Open digest p h p.config_before none p.marker_before none q
  clean q v o = Open-before none none q v o (λ n. refl) (λ n. refl)

  pub saved :
      (q : Phase)
      → valid_phase q ≡ true
      → same_phase q marker_verified ≡ false
      → Open digest p h p.config_before p.config_before p.marker_before p.marker_before q
  saved q v o = Open-before p.config_before p.marker_before q v o (λ n. n) (λ n. n)

  pub configured :
      (q : Phase)
      → valid_phase q ≡ true
      → same_phase q marker_verified ≡ false
      → Open digest p h (some p.candidate) p.config_before p.marker_before p.marker_before q
  configured q v o = record {
    config_safe = inr (refl, refl);
    marker_safe = inl (refl, λ n. n);
    valid = v;
    open_phase = o;
    calm = inl (inr refl, inr refl);
  }

  pub marked :
      (q : Phase)
      → valid_phase q ≡ true
      → same_phase q marker_verified ≡ false
      → Open digest p h (some p.candidate) p.config_before (some p.marker) p.marker_before q
  marked q v o = record {
    config_safe = inr (refl, refl);
    marker_safe = inr (refl, refl);
    valid = v;
    open_phase = o;
    calm = inl (inr refl, inr refl);
  }

  abbrev pub Saved : Phase → D → Type 0
  Saved q = At p.config_before p.config_before p.marker_before p.marker_before q

  abbrev pub Configured : Phase → D → Type 0
  Configured q = At (some p.candidate) p.config_before p.marker_before p.marker_before q

  abbrev pub Marked : Phase → D → Type 0
  Marked q = At (some p.candidate) p.config_before (some p.marker) p.marker_before q

  pub save_before_lem :
      Triple ⊥
        (At p.config_before none p.marker_before none prepared)
        (save_before digest p)
        (λ u. Saved backups)
        Any
  unfolding save_before valid_phase same_phase
  save_before_lem =
      Triple-bind
        (save_config p.config_before p.marker_before none prepared refl
          (λ r n. Open-before r none prepared refl refl n (λ e. refl)))
        λ u.
          Triple-bind
            (save_marker p.marker_before p.config_before p.config_before prepared refl
              (λ r n. Open-before p.config_before r prepared refl refl (λ e. e) n))
            λ u.
              Triple-bind
                (backups_lem digest p h p.config_before p.config_before p.marker_before
                  p.marker_before prepared (saved prepared refl refl) p.migrated)
                λ u.
                  advance_lem digest p h p.config_before p.config_before p.marker_before
                    p.marker_before prepared (saved prepared refl refl) backups refl
                    (Stage-Any digest p h p.config_before p.config_before p.marker_before
                      p.marker_before backups (saved backups refl refl))

  pub save_secrets_lem : Triple ⊥ (Saved backups) (save_secrets digest p) (λ u. Saved keyring) Any
  unfolding save_secrets valid_phase same_phase
  save_secrets_lem =
      Triple-bind
        (secrets_lem digest p h p.config_before p.config_before p.marker_before p.marker_before
          backups (saved backups refl refl) p.secrets)
        λ u.
          advance_lem digest p h p.config_before p.config_before p.marker_before p.marker_before
            backups (saved backups refl refl) keyring refl
            (Stage-Any digest p h p.config_before p.config_before p.marker_before p.marker_before
              keyring (saved keyring refl refl))
