-- ===== src/Migration/Unknown.antt =====
-- Recovery changes nothing where a file is neither what it was before the transaction nor what the
-- transaction writes.
use ipgw_meta.Prelude.{
  ◌≡◌, ◌⊎◌, inl, inr, refl, sym, ap, ◌∙◌, Bool, false, ◌&&◌, Option, none, some, List,
}
use ipgw_meta.Text.{Bytes, bytes_eq}
use ipgw_meta.Migration.Disk.{File, State, Out, done, failed, stopped, Fate, check}
use ipgw_meta.Migration.Journal.{
  marker_verified, Snapshot, Artifact, Journal, same_phase, valid_sha256, validate_journal,
}
use ipgw_meta.Migration.Logic.{
  Ends, Triple, Triple-weaken, Triple-pure, Triple-refuse, Triple-look, Triple-bind, Triple-check,
  Triple-if, Triple-known,
}
use ipgw_meta.Migration.Snapshot.{
  read_file, read_private, the_content, load_bytes, load_snapshot, the_journal, load_journal,
}
use ipgw_meta.Migration.Recover.{
  at_before, at_after, inspect_after, inspect_content, inspect, roll_back_all, recover_loaded,
  recover_pending,
}
use ipgw_meta.Migration.Steps.{D, look_around, read_lem}

-- The file has a content whose digest is neither of the two that the journal knows.
pub record Unknown (digest : Bytes → Bytes) (a : Artifact) (d : D) : Type 0 where
  pub content : Bytes
  pub there : d.files a.target_path ≡ some content
  pub not_before : (a.before.existed && bytes_eq (digest content) a.before.digest) ≡ false
  pub not_after : bytes_eq (digest content) a.after_digest ≡ false

module _ (digest : Bytes → Bytes) (d0 : D) where
  abbrev Still : D → Type 0
  Still d = d ≡ d0

  still : (d : D) → Still d → Still d
  still d e = e

  tested : (b : Bool) → Triple {J = Journal} ⊥ Still (check b) (λ u. Still) Still
  tested b =
      Triple-weaken (λ d e. e) (λ u d e. e.0) (λ d e. e)
        (Triple-check b (λ d e. (e, λ l. absurd l)))

  read-Still : (f : File) → Triple ⊥ Still (read_file f) (λ c d. Still d × (c ≡ d0.files f)) Still
  read-Still f =
      Triple-weaken (λ d e. e) (λ c d e. (e.0, sym (e.1) ∙ ap (λ (b : D). b.files f) (e.0)))
        (λ d e. e) (read_lem {L = ⊥} {P = Still} {E = Still} still f (λ d e l. absurd l))

  content-Still : (c : Option Bytes) → Triple ⊥ Still (the_content c) (λ t. Still) Still
  unfolding the_content
  content-Still none = Triple-refuse (λ d e. (e, λ l. l))
  content-Still (some s) = Triple-pure s (λ d e. e)

  load-Still :
      (s : Snapshot) (f : Option File) → Triple ⊥ Still (load_bytes digest s f) (λ t. Still) Still
  unfolding load_bytes read_private
  load-Still s none = Triple-refuse (λ d e. (e, λ l. l))
  load-Still s (some f) = Triple-bind (tested (valid_sha256 s.digest)) λ u.
      Triple-bind
        (Triple-bind (Triple-weaken (λ d e. e) (λ c d e. e.0) (λ d e. e) (read-Still f))
          content-Still)
        λ t. Triple-bind (tested (bytes_eq (digest t) s.digest)) λ u. Triple-pure t (λ d e. e)

  after-Still : (a : Artifact) → Triple ⊥ Still (inspect_after digest a) (λ st. Still) Still
  unfolding inspect_after load_snapshot
  after-Still a =
      Triple-if a.before.existed
        (λ t. Triple-bind (load-Still a.before a.before.path) λ s. Triple-pure at_after (λ d e. e))
        (λ t. Triple-pure at_after (λ d e. e))

  inspect_content-Still :
      (a : Artifact) (c : Option Bytes)
      → Triple ⊥ Still (inspect_content digest a c) (λ st. Still) Still
  unfolding inspect_content
  inspect_content-Still a none =
      Triple-if a.before.existed (λ t. Triple-refuse (λ d e. (e, λ l. l)))
        (λ t. Triple-pure at_before (λ d e. e))
  inspect_content-Still a (some s) =
      Triple-if (a.before.existed && bytes_eq (digest s) a.before.digest)
        (λ t. Triple-pure at_before (λ d e. e))
        λ t.
          Triple-if (bytes_eq (digest s) a.after_digest) (λ t'. after-Still a)
            (λ t'. Triple-refuse (λ d e. (e, λ l. l)))

  inspect-Still : (a : Artifact) → Triple ⊥ Still (inspect digest a) (λ st. Still) Still
  unfolding inspect
  inspect-Still a =
      Triple-bind (Triple-weaken (λ d e. e) (λ c d e. e.0) (λ d e. e) (read-Still a.target_path))
        (inspect_content-Still a)

  unknown_content :
      (a : Artifact) (s : Bytes)
      → (a.before.existed && bytes_eq (digest s) a.before.digest) ≡ false
      → bytes_eq (digest s) a.after_digest ≡ false
      → Triple ⊥ Still (inspect_content digest a (some s)) (λ st d. ⊥) Still
  unfolding inspect_content
  unknown_content a s b c =
      Triple-if (a.before.existed && bytes_eq (digest s) a.before.digest)
        (λ t. absurd (cc (sym t ∙ b)))
        λ t.
          Triple-if (bytes_eq (digest s) a.after_digest) (λ t'. absurd (cc (sym t' ∙ c)))
            (λ t'. Triple-refuse (λ d e. (e, λ l. l)))

  inspect-Unknown :
      (a : Artifact) → Unknown digest a d0 → Triple ⊥ Still (inspect digest a) (λ st d. ⊥) Still
  unfolding inspect
  inspect-Unknown a u =
      Triple-bind
        (Triple-weaken (λ d e. e) (λ c d e. (e.0, e.1 ∙ u.there)) (λ d e. e)
          (read-Still a.target_path))
        λ c.
          Triple-known (some u.content) (inspect_content digest a) c
            (unknown_content a u.content u.not_before u.not_after)

  roll_back-Unknown :
      (j : Journal)
      → Unknown digest j.marker_artifact d0 ⊎ Unknown digest j.config_artifact d0
      → Triple ⊥ Still (roll_back_all digest j) (λ b d. ⊥) Still
  unfolding roll_back_all
  roll_back-Unknown j (inl u) =
      Triple-bind (inspect-Unknown j.marker_artifact u) λ st. record { at = λ s b. absurd b }
  roll_back-Unknown j (inr u) =
      Triple-bind (inspect-Still j.marker_artifact) λ st.
        Triple-bind (inspect-Unknown j.config_artifact u) λ st'. record { at = λ s b. absurd b }

  journal-Still :
      (j : Journal)
      → d0.journal ≡ some j
      → Triple ⊥ Still load_journal (λ k d. Still d × (k ≡ j)) Still
  unfolding load_journal
  journal-Still j e = Triple-bind (look_around still) λ u.
      Triple-bind {R = λ o d. Still d × (o ≡ some j)}
        (Triple-look (λ d. d.journal) (λ d b. (b, ap (λ (x : D). x.journal) b ∙ e)))
        λ o. Triple-known (some j) the_journal o (checked j)
    where
      checked :
          (k : Journal) → Triple ⊥ Still (the_journal (some k)) (λ l d. Still d × (l ≡ k)) Still
      checked k =
          unfold the_journal in
          Triple-bind (tested (validate_journal k)) λ u. Triple-pure k (λ d b. (b, refl))

  recover-Unknown :
      (j : Journal)
      → d0.journal ≡ some j
      → same_phase j.phase marker_verified ≡ false
      → Unknown digest j.marker_artifact d0 ⊎ Unknown digest j.config_artifact d0
      → Triple ⊥ Still (recover_pending digest) (λ b d. ⊥) Still
  unfolding recover_pending recover_loaded
  recover-Unknown j e o u = Triple-bind (journal-Still j e) λ k.
      Triple-known j (recover_loaded digest) k (
        Triple-if (same_phase j.phase marker_verified) (λ t. absurd (cc (sym t ∙ o)))
          (λ t. roll_back-Unknown j u))

-- An ending that is no result.
pub GivesUp : Out Bool → Type 0
GivesUp (done b) = ⊥
GivesUp failed = Unit
GivesUp stopped = Unit

gives_up :
    (d0 : D) (fates : List Fate) (o : Out Bool × State Journal)
    → Ends ⊥ (λ b d. ⊥) (Still (λ s. s) d0) fates o
    → (o.1.disk ≡ d0) × GivesUp (o.0)
unfolding GivesUp
gives_up d0 fates (done b, s) (q, k) = absurd q
gives_up d0 fates (failed, s) (e, k, n) = (e, tt)
gives_up d0 fates (stopped, s) (e, k, n) = (e, tt)

-- Recovery of a transaction that is not yet verified gives up and changes nothing, on the disk and
-- in the keyring, where the marker or the configuration has a content that is neither the one
-- before the transaction nor the one after it, by their digests.
pub recover_pending-Unknown :
    (digest : Bytes → Bytes) (s : State Journal) (j : Journal)
    → s.disk.journal ≡ some j
    → same_phase j.phase marker_verified ≡ false
    → Unknown digest j.marker_artifact s.disk ⊎ Unknown digest j.config_artifact s.disk
    → ((recover_pending digest s).1.disk ≡ s.disk) × GivesUp ((recover_pending digest s).0)
recover_pending-Unknown digest s j e o u =
    gives_up s.disk s.fates (recover_pending digest s)
      ((recover-Unknown digest s.disk j e o u).at s refl)
