-- ===== src/Migration/JournalSteps.antt =====
-- What the accesses to the journal, the keyring and the backups do that the invariant knows.
use ipgw_meta.Prelude.{ℕ, ◌≡◌, refl, sym, ap, ◌∙◌, true, Option, none, some, List, [], ◌∷◌, map}
use ipgw_meta.Text.{Bytes}
use ipgw_meta.Migration.Disk.{backup, put, put_secret}
use ipgw_meta.Migration.Journal.{Journal, validate_journal}
use ipgw_meta.Migration.Logic.{
  Triple, Triple-weaken, Triple-pure, Triple-refuse, Triple-look, Triple-bind, Triple-effect,
  Triple-check,
}
use ipgw_meta.Migration.Snapshot.{the_journal, load_journal, remove_found, remove_file}
use ipgw_meta.Migration.Recover.{delete_refs, remove_backups}
use ipgw_meta.Migration.Apply.{Source, backup_record}
use ipgw_meta.Migration.Steps.{D, look_around}

pub some_inj : (j k : Journal) → some j ≡ some k → j ≡ k
some_inj j k h = cc

module _ {L : Type 0} {P E : D → Type 0} (keep : (d : D) → P d → E d) where
  pub delete_refs_lem :
      (refs : List Bytes)
      → ((r : Bytes) (d : D) → P d → P (put_secret r none d))
      → Triple L P (delete_refs refs) (λ u. P) E
  unfolding delete_refs
  delete_refs_lem [] frame = Triple-pure tt (λ d p. p)
  delete_refs_lem (r ∷ refs) frame =
      Triple-bind {R = λ u. P}
        (Triple-effect (put_secret r none)
          (λ d p. (frame r d p, keep d p, keep (put_secret r none d) (frame r d p))))
        λ u. delete_refs_lem refs frame

  backup_found :
      (n : ℕ) (c : Option Bytes)
      → ((n : ℕ) (d : D) → P d → P (put (backup n) none d))
      → Triple L P (remove_found (backup n) true c) (λ u. P) E
  unfolding remove_found
  backup_found n none frame =
      Triple-bind {R = λ u. P} (Triple-effect (λ d. d) (λ d p. (p, keep d p, keep d p))) λ u.
        Triple-weaken (λ d p. p) (λ u d p. p.0) (λ d p. p)
          (Triple-check true (λ d p. (keep d p, λ l. refl)))
  backup_found n (some s) frame =
      Triple-effect (put (backup n) none)
        (λ d p. (frame n d p, keep d p, keep (put (backup n) none d) (frame n d p)))

  pub remove_backups_lem :
      (sources : List Source)
      → ((n : ℕ) (d : D) → P d → P (put (backup n) none d))
      → Triple L P (remove_backups (map backup_record sources)) (λ u. P) E
  unfolding remove_backups backup_record remove_file
  remove_backups_lem [] frame = Triple-pure tt (λ d p. p)
  remove_backups_lem (s ∷ sources) frame =
      Triple-bind {R = λ u. P}
        (Triple-bind {R = λ c. P} (Triple-look (λ d. d.files (backup s.number)) (λ d p. p))
          λ c. backup_found s.number c frame)
        λ u. remove_backups_lem sources frame

  module _ (j : Journal) (here : (d : D) → P d → d.journal ≡ some j)
      (valid : validate_journal j ≡ true) where
    journal_end :
        (o : Option Journal)
        → Triple L (λ d. P d × (d.journal ≡ o)) (the_journal o) (λ k d. P d × (k ≡ j)) E
    unfolding the_journal
    journal_end none = Triple-refuse (λ d p. absurd (cc (sym (here d (p.0)) ∙ p.1)))
    journal_end (some k) =
        Triple-bind
          (Triple-check (validate_journal k)
            (λ d p. (keep d (p.0), λ l. ap validate_journal (same_journal d k p) ∙ valid)))
          λ u. Triple-pure k (λ d p. (p.0.0, same_journal d k (p.0)))
      where
        same_journal : (d : D) (k : Journal) → P d × (d.journal ≡ some k) → k ≡ j
        same_journal d k p = some_inj k j (sym (p.1) ∙ here d (p.0))

    pub load_journal_lem : Triple L P load_journal (λ k d. P d × (k ≡ j)) E
    unfolding load_journal
    load_journal_lem = Triple-bind (look_around keep) λ u.
        Triple-bind {R = λ o d. P d × (d.journal ≡ o)}
          (Triple-look (λ d. d.journal) (λ d p. (p, refl))) journal_end
