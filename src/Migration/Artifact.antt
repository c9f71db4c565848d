-- ===== src/Migration/Artifact.antt =====
-- One file of a transaction with its snapshot: how recovery inspects it and rolls it back.
use ipgw_meta.Prelude.{
  ◌≡◌, ◌≢◌, ◌⊎◌, inl, inr, refl, sym, ap, ◌∙◌, true, false, Option, none, some, leb, length,
}
use ipgw_meta.Text.{Bytes, bytes_eq}
use ipgw_meta.Text.Laws.{bytes_eq_refl, bytes_eq→eq}
use ipgw_meta.Migration.Disk.{File, same_file, put, max_config_bytes}
use ipgw_meta.Migration.Journal.{Artifact, valid_sha256}
use ipgw_meta.Migration.Logic.{
  Triple, Triple-weaken, Triple-pure, Triple-refuse, Triple-look, Triple-bind, Triple-effect,
  Triple-check, Triple-if,
}
use ipgw_meta.Migration.Snapshot.{fits, snapshot_of, remove_found, remove_file, atomic_write}
use ipgw_meta.Migration.Recover.{
  ArtifactState, at_before, at_after, inspect_after, inspect_content, inspect, restore, undo,
  roll_back,
}
use ipgw_meta.Migration.Steps.{D, read_lem, verify_lem, load_lem, same_content}

-- What a transaction knows of a file: where it is and where its snapshot, what it holds before and
-- after the transaction.
pub record Slot (digest : Bytes → Bytes) : Type 0 where
  pub target : File
  pub recovery : File
  pub content_before : Option Bytes
  pub content_after : Bytes
  pub target_self : same_file target target ≡ true
  pub recovery_self : same_file recovery recovery ≡ true
  pub apart : same_file target recovery ≡ false
  pub apart_back : same_file recovery target ≡ false
  pub fits_before : fits content_before ≡ true
  pub fits_after : leb (length content_after) max_config_bytes ≡ true
  pub distinct :
      (s : Bytes) → content_before ≡ some s → digest content_after ≡ digest s → content_after ≡ s

module _ {digest : Bytes → Bytes} where
  -- There is no snapshot, or it holds what was there before.
  abbrev pub SnapshotOk : Slot digest → D → Type 0
  SnapshotOk x d = (d.files x.recovery ≡ none) ⊎ (d.files x.recovery ≡ x.content_before)

  -- A snapshot that may be cut off, though not where `L` holds, and only if there was a file.
  abbrev pub MaybeCut : Type 0 → Slot digest → D → Type 0
  MaybeCut L x d = (L → SnapshotOk x d) × (x.content_before ≡ none → d.files x.recovery ≡ none)

  -- The file is as it was.
  abbrev pub AtBefore : Type 0 → Slot digest → D → Type 0
  AtBefore L x d = (d.files x.target ≡ x.content_before) × MaybeCut L x d

  abbrev pub AtAfter : Slot digest → D → Type 0
  AtAfter x d = (d.files x.target ≡ some x.content_after) × (d.files x.recovery ≡ x.content_before)

  -- The file can be rolled back.
  abbrev pub Pending : Type 0 → Slot digest → D → Type 0
  Pending L x d = AtBefore L x d ⊎ AtAfter x d

  abbrev pub StateIs : Type 0 → Slot digest → ArtifactState → D → Type 0
  StateIs L x at_before d = AtBefore L x d
  StateIs L x at_after d = AtAfter x d

  abbrev pub artifact : Slot digest → Artifact
  artifact x = record {
    target_path = x.target;
    before = snapshot_of digest x.recovery x.content_before;
    after_digest = digest x.content_after;
  }

  -- What the rollback of a file leaves alone.
  pub record Framed (x : Slot digest) (F : D → Type 0) : Type 0 where
    pub on_target : (c : Option Bytes) (d : D) → x.content_before ≡ c → F d → F (put x.target c d)

  pub certain : (x : Slot digest) (d : D) → SnapshotOk x d → MaybeCut Unit x d
  certain x d (inl n) = ((λ l. inl n), λ e. n)
  certain x d (inr k) = ((λ l. inr k), λ e. k ∙ e)

module _ (L : Type 0) (digest : Bytes → Bytes) (x : Slot digest) where
  pub StateIs-Pending : (st : ArtifactState) (d : D) → StateIs L x st d → Pending L x d
  StateIs-Pending at_before d h = inl h
  StateIs-Pending at_after d h = inr h

  unequal : (u v : Bytes) → bytes_eq u v ≡ false → u ≢ v
  unequal u v h e = cc (sym h ∙ ap (λ (w : Bytes). bytes_eq u w) (sym e) ∙ bytes_eq_refl u)

  present_before :
      (s : Bytes) (d : D) → AtBefore L x d → d.files x.target ≡ some s → x.content_before ≡ some s
  present_before s d (h, k) p = sym h ∙ p

  absent_before :
      (d : D) → Pending L x d → d.files x.target ≡ none → AtBefore L x d × (x.content_before ≡ none)
  absent_before d (inl (h, k)) p = ((h, k), sym h ∙ p)
  absent_before d (inr (h, k)) p = absurd (cc (sym h ∙ p))

  present_after :
      (s : Bytes) (d : D)
      → Pending L x d
      → d.files x.target ≡ some s
      → (x.content_before ≢ some s)
      → AtAfter x d × (s ≡ x.content_after)
  present_after s d (inl h) p other = absurd (other (present_before s d h p))
  present_after s d (inr (h, k)) p other =
      ((h, k), same_content (d.files x.target) x.content_after s h p)

  -- A content with the digest of the one before is the one before.
  same_digest :
      (b s : Bytes) (d : D)
      → x.content_before ≡ some b
      → Pending L x d
      → d.files x.target ≡ some s
      → digest s ≡ digest b
      → AtBefore L x d
  same_digest b s d e (inl h) p q = h
  same_digest b s d e (inr (h, k)) p q =
      let now : s ≡ x.content_after = same_content (d.files x.target) x.content_after s h p in
      let same : x.content_after ≡ b = x.distinct b e (ap digest (sym now) ∙ q) in
      (h ∙ ap some same ∙ sym e, ((λ l. inr k), λ n. k ∙ n))

  abbrev art_as : Option Bytes → Artifact
  art_as c = record {
    target_path = x.target;
    before = snapshot_of digest x.recovery c;
    after_digest = digest x.content_after;
  }

module _ (L : Type 0) (digest : Bytes → Bytes)
    (valid : (s : Bytes) → valid_sha256 (digest s) ≡ true) (x : Slot digest) (F : D → Type 0) where
  -- What recovery may meet, in front of a file of the transaction.
  abbrev Pend : D → Type 0
  Pend d = Pending L x d × F d

  abbrev Known : ArtifactState → D → Type 0
  Known st d = StateIs L x st d × F d

  Known-Pend : (st : ArtifactState) (d : D) → Known st d → Pend d
  Known-Pend st d (h, f) = (StateIs-Pending L digest x st d h, f)

  fits_target : (d : D) → Pend d → L → fits (d.files x.target) ≡ true
  fits_target d (inl (h, k), f) l = ap fits h ∙ x.fits_before
  fits_target d (inr (h, k), f) l = ap fits h ∙ unfold fits in x.fits_after

  other_digest :
      (b s : Bytes)
      → x.content_before ≡ some b
      → bytes_eq (digest s) (digest b) ≡ false
      → x.content_before ≢ some s
  other_digest b s e t p =
      unequal L digest x (digest s) (digest b) t (ap digest (same_content x.content_before b s e p))

  pub fits_before_some :
      (b : Bytes) → x.content_before ≡ some b → leb (length b) max_config_bytes ≡ true
  unfolding fits
  fits_before_some b e = ap fits (sym e) ∙ x.fits_before

  inspect_none :
      (c : Option Bytes) (e : x.content_before ≡ none)
      → Triple L
          (λ d. Pend d × (d.files x.target ≡ c))
          (inspect_content digest (art_as L digest x none) c)
          Known
          Pend
  unfolding inspect_content inspect_after snapshot_of
  inspect_none none e =
      Triple-pure at_before (λ d p. ((absent_before L digest x d (p.0.0) (p.1)).0, p.0.1))
  inspect_none (some s) e =
      Triple-if (bytes_eq (digest s) (digest x.content_after))
        (λ t.
          Triple-pure at_after
            (λ d p. ((present_after L digest x s d (p.0.0) (p.1) (λ q. cc (sym e ∙ q))).0, p.0.1)))
        (λ t. Triple-refuse (λ d p. (
          p.0,
          λ l.
              unequal L digest x (digest s) (digest x.content_after) t
                (ap digest ((present_after L digest x s d (p.0.0) (p.1) (λ q. cc (sym e ∙ q))).1)),
        )))

  inspect_some :
      (c : Option Bytes) (b : Bytes) (e : x.content_before ≡ some b)
      → Triple L
          (λ d. Pend d × (d.files x.target ≡ c))
          (inspect_content digest (art_as L digest x (some b)) c)
          Known
          Pend
  unfolding inspect_content inspect_after snapshot_of
  inspect_some none b e =
      Triple-refuse (λ d p. (p.0, λ l. cc (sym e ∙ (absent_before L digest x d (p.0.0) (p.1)).1)))
  inspect_some (some s) b e =
      Triple-if (bytes_eq (digest s) (digest b))
        (λ t. Triple-pure at_before (λ d p. (
          same_digest L digest x b s d e (p.0.0) (p.1) (bytes_eq→eq (digest s) (digest b) t),
          p.0.1,
        )))
        λ t.
          Triple-if (bytes_eq (digest s) (digest x.content_after))
            (λ t'.
              Triple-bind
                (Triple-weaken
                  (λ d p.
                    ((present_after L digest x s d (p.0.0) (p.1) (other_digest b s e t)).0, p.0.1))
                  (λ u d q. q.0) (λ d q. q)
                  (load_lem {P = Known at_after} {E = Pend} (Known-Pend at_after) x.recovery b
                    (λ d q. q.0.1 ∙ e) (fits_before_some b e) digest (valid b)))
                λ u. Triple-pure at_after (λ d q. q))
            (λ t'. Triple-refuse (λ d p. (
              p.0,
              λ l. unequal L digest x (digest s) (digest x.content_after) t' (
                  ap digest
                    ((present_after L digest x s d (p.0.0) (p.1) (other_digest b s e t)).1)),
            )))

  inspect_as :
      (c : Option Bytes)
      → x.content_before ≡ c
      → Triple L Pend (inspect digest (art_as L digest x c)) Known Pend
  unfolding inspect
  inspect_as none e = Triple-bind (read_lem (λ d p. p) x.target fits_target) λ c. inspect_none c e
  inspect_as (some b) e =
      Triple-bind (read_lem (λ d p. p) x.target fits_target) λ c. inspect_some c b e

  pub inspect_lem : Triple L Pend (inspect digest (artifact x)) Known Pend
  inspect_lem = inspect_as x.content_before refl

  module _ (framed : Framed x F) where
    abbrev Back : D → Type 0
    Back d = AtBefore L x d × F d

    Back-Pend : (d : D) → Back d → Pend d
    Back-Pend d (h, f) = (inl h, f)

    -- The file is overwritten with what was there before.
    restored :
        (b : Bytes) (d : D)
        → x.content_before ≡ some b
        → Known at_after d
        → Back (put x.target (some b) d)
    restored b d e ((h, k), f) = (
      (rw x.target_self (sym e), ((λ l. inr (rw x.apart k)), λ n. rw x.apart (k ∙ n))),
      framed.on_target (some b) d e f,
    )

    removed : (d : D) → x.content_before ≡ none → Known at_after d → Back (put x.target none d)
    removed d e ((h, k), f) = (
      (rw x.target_self (sym e), ((λ l. inr (rw x.apart k)), λ n. rw x.apart (k ∙ n))),
      framed.on_target none d e f,
    )

    restore_as :
        (b : Bytes)
        → x.content_before ≡ some b
        → Triple L (Known at_after) (restore digest (art_as L digest x (some b))) (λ u. Back) Pend
    unfolding restore atomic_write snapshot_of
    restore_as b e =
        Triple-bind
          (load_lem {P = Known at_after} {E = Pend} (Known-Pend at_after) x.recovery b
            (λ d q. q.0.1 ∙ e) (fits_before_some b e) digest (valid b))
          λ s.
            Triple-bind {R = λ u d. Back d}
              (Triple-effect (put x.target (some s)) (λ d p.
                let back = restored s d (e ∙ ap some (sym (p.1))) (p.0) in
                (back, Known-Pend at_after d (p.0), Back-Pend (put x.target (some s) d) back)))
              λ u.
                verify_lem {P = Back} {E = Pend} Back-Pend x.target b (λ d q. q.0.0 ∙ e)
                  (fits_before_some b e) digest (digest b) refl

    remove_as :
        (c : Option Bytes)
        → x.content_before ≡ none
        → Triple L
            (λ d. Known at_after d × (d.files x.target ≡ c))
            (remove_found x.target false c)
            (λ u. Back)
            Pend
    unfolding remove_found
    remove_as none e =
        Triple-bind {R = λ u d. ⊥}
          (Triple-effect (λ d. d) (λ d p. absurd (cc (sym (p.0.0.0) ∙ p.1))))
          λ u.
            Triple-weaken (λ d p. p) (λ u d p. absurd (p.0)) (λ d p. p)
              (Triple-check false (λ d p. absurd p))
    remove_as (some s) e = Triple-effect (put x.target none) (λ d p.
        let back = removed d e (p.0) in
        (back, Known-Pend at_after d (p.0), Back-Pend (put x.target none d) back))

    roll_back_as :
        (c : Option Bytes) (st : ArtifactState)
        → x.content_before ≡ c
        → Triple L (Known st) (roll_back digest (art_as L digest x c) st) (λ u. Back) Pend
    unfolding roll_back undo snapshot_of remove_file
    roll_back_as c at_before e = Triple-pure tt (λ d p. p)
    roll_back_as none at_after e =
        Triple-bind {R = λ c d. Known at_after d × (d.files x.target ≡ c)}
          (Triple-look (λ d. d.files x.target) (λ d p. (p, refl))) λ c. remove_as c e
    roll_back_as (some b) at_after e = restore_as b e

    pub roll_back_lem :
        (st : ArtifactState)
        → Triple L (Known st) (roll_back digest (artifact x) st) (λ u. Back) Pend
    roll_back_lem st = roll_back_as x.content_before st refl
