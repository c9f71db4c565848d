-- ===== src/Migration/Removal.antt =====
-- How the snapshot of a file is removed at the end of a transaction or of its rollback.
use ipgw_meta.Prelude.{◌≡◌, inl, inr, refl, sym, ◌∙◌, true, false, Option, none, some}
use ipgw_meta.Text.{Bytes, bytes_eq}
use ipgw_meta.Migration.Disk.{put}
use ipgw_meta.Migration.Journal.{valid_sha256}
use ipgw_meta.Migration.Logic.{
  Triple, Triple-weaken, Triple-pure, Triple-look, Triple-bind, Triple-effect, Triple-check,
}
use ipgw_meta.Migration.Snapshot.{
  snapshot_of, remove_loaded, remove_bytes, remove_snapshot, remove_found, remove_file,
  plain_absent,
}
use ipgw_meta.Migration.Steps.{D, look_around, load_any_lem}
use ipgw_meta.Migration.Artifact.{Slot, SnapshotOk, MaybeCut, fits_before_some}

-- The removal of a snapshot, of a file that is held at what it was before, or after.
module _ (L : Type 0) (digest : Bytes → Bytes)
    (valid : (s : Bytes) → valid_sha256 (digest s) ≡ true) (x : Slot digest) (F : D → Type 0)
    (on_recovery : (d : D) → F d → F (put x.recovery none d)) (K : Type 0) (whole : L → K) where
  abbrev Held : D → Type 0
  Held d = MaybeCut K x d × F d

  abbrev Gone : D → Type 0
  Gone d = (d.files x.recovery ≡ none) × F d

  Gone-Held : (d : D) → Gone d → Held d
  Gone-Held d (h, f) = (((λ k. inl h), λ n. h), f)

  abbrev Kept : Bytes → D → Type 0
  Kept s d = Held d × (d.files x.recovery ≡ some s)

  whole_lem :
      (b s : Bytes) (d : D) → x.content_before ≡ some b → Kept s d → L → d.files x.recovery ≡ some b
  whole_lem b s d e ((h, f), p) l = found (h.0 (whole l))
    where
      found : SnapshotOk x d → d.files x.recovery ≡ some b
      found (inl n) = absurd (cc (sym n ∙ p))
      found (inr k) = k ∙ e

  gone_lem : (d : D) → F d → Gone (put x.recovery none d)
  gone_lem d f = (rw x.recovery_self refl, on_recovery d f)

  drop_found :
      (s : Bytes) (c : Option Bytes)
      → Triple L
          (λ d. Kept s d × (d.files x.recovery ≡ c))
          (remove_found x.recovery false c)
          (λ u. Gone)
          Held
  unfolding remove_found
  drop_found s none =
      Triple-bind {R = λ u d. ⊥} (Triple-effect (λ d. d) (λ d p. absurd (cc (sym (p.0.1) ∙ p.1))))
        λ u.
          Triple-weaken (λ d p. p) (λ u d p. absurd (p.0)) (λ d p. p)
            (Triple-check false (λ d p. absurd p))
  drop_found s (some t) = Triple-effect (put x.recovery none) (λ d p.
      let gone = gone_lem d (p.0.0.1) in (gone, p.0.0, Gone-Held (put x.recovery none d) gone))

  drop_loaded :
      (b : Bytes) (c : Option Bytes)
      → x.content_before ≡ some b
      → Triple L
          (λ d. Held d × (d.files x.recovery ≡ c))
          (remove_loaded digest (snapshot_of digest x.recovery (some b)) x.recovery c)
          (λ u. Gone)
          Held
  unfolding remove_loaded remove_file
  drop_loaded b none e = Triple-pure tt (λ d p. (p.1, p.0.1))
  drop_loaded b (some s) e =
      Triple-bind
        (load_any_lem {P = Kept s} {E = Held} (λ d p. p.0) x.recovery b
          (λ d p l. whole_lem b s d e p l) (fits_before_some L digest valid x F b e) digest
          (valid b))
        λ t.
          Triple-bind {R = λ c d. Kept s d × (d.files x.recovery ≡ c)}
            (Triple-look (λ d. d.files x.recovery) (λ d p. (p, refl))) λ c. drop_found s c

  absent : x.content_before ≡ none → (d : D) → Held d → Gone d
  absent e d (h, f) = (h.1 e, f)

  drop_as :
      (c : Option Bytes)
      → x.content_before ≡ c
      → Triple L Held (remove_snapshot digest (snapshot_of digest x.recovery c)) (λ u. Gone) Held
  unfolding remove_snapshot remove_bytes snapshot_of plain_absent bytes_eq
  drop_as none e =
      Triple-weaken (λ d p. p) (λ u d p. absent e d (p.0)) (λ d p. p)
        (Triple-check true (λ d p. (p, λ l. refl)))
  drop_as (some b) e = Triple-bind (look_around (λ d p. p)) λ u.
      Triple-bind {R = λ c d. Held d × (d.files x.recovery ≡ c)}
        (Triple-look (λ d. d.files x.recovery) (λ d p. (p, refl))) λ c. drop_loaded b c e

  -- The snapshot is gone; up to then it is what it was.
  pub remove_snapshot_lem :
      Triple L Held
        (remove_snapshot digest (snapshot_of digest x.recovery x.content_before))
        (λ u. Gone)
        Held
  remove_snapshot_lem = drop_as x.content_before refl
