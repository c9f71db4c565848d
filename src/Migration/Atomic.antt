-- ===== src/Migration/Atomic.antt =====
-- Recovery, from wherever a transaction was interrupted.
use mathlib.Core.Path.{subst}
use ipgw_meta.Prelude.{
  ◌≡◌, ◌⊎◌, inl, inr, refl, sym, ap, ◌∙◌, Bool, true, false, Option, none, some, arith,
}
use ipgw_meta.Text.{Bytes}
use ipgw_meta.Migration.Disk.{File, config_recovery, marker_recovery, check}
use ipgw_meta.Migration.Journal.{
  Phase, marker_verified, Journal, same_phase, valid_phase, validate_journal,
}
use ipgw_meta.Migration.Logic.{
  Triple, Triple-weaken, Triple-pure, Triple-refuse, Triple-look, Triple-bind, Triple-check,
  Triple-if, Triple-known, Triple-or,
}
use ipgw_meta.Migration.Snapshot.{at_phase, cut_off, the_journal, load_journal}
use ipgw_meta.Migration.Recover.{
  finish, recover_loaded, recover_pending, inspect_orphan, no_file, orphan_free, recover_if,
  recover_if_present, has_journal,
}
use ipgw_meta.Migration.Apply.{Plan, new_journal}
use ipgw_meta.Migration.Steps.{D, look_around}
use ipgw_meta.Migration.JournalSteps.{load_journal_lem, some_inj}
use ipgw_meta.Migration.RollBack.{roll_back_all_lem}
use ipgw_meta.Migration.Transaction.{
  Prepared, InPhase-JournalAt, Untouched, Applied, UncommittedAt, Uncommitted, Committed,
  Unreadable, Anywhere, untouched, unreadable, uncommitted, committed, applied,
}
use ipgw_meta.Migration.Complete.{validate_journal-at_phase, verified-valid, Done-Any, complete_lem}

module _ (L : Type 0) (digest : Bytes → Bytes) (p : Plan) (h : Prepared digest p) where
  abbrev Any : D → Type 0
  Any d = Anywhere L digest p h d

  abbrev Done : D → Type 0
  Done d = Committed digest p h d

  abbrev verified : Journal
  verified = at_phase marker_verified (new_journal digest p)

  -- Recovery's answer is where it leaves the files.
  abbrev pub Answer : Bool → D → Type 0
  Answer true d = Applied digest p d
  Answer false d = Untouched digest p d

  recover_committed : Triple L Done (recover_pending digest) Answer Any
  unfolding recover_pending recover_loaded finish same_phase
  recover_committed =
      Triple-bind
        (load_journal_lem (Done-Any L digest p h) verified (λ d b. b.4)
          (verified-valid L digest p h))
        λ j.
          Triple-known verified (recover_loaded digest) j
            (Triple-bind (complete_lem L digest p h) λ u. Triple-pure true (λ d a. a))

  recover_uncommitted :
      (q : Phase)
      → valid_phase q ≡ true
      → same_phase q marker_verified ≡ false
      → Triple L (UncommittedAt L digest p h q) (recover_pending digest) Answer Any
  unfolding recover_pending
  recover_uncommitted q v o =
      Triple-bind
        (load_journal_lem {P = UncommittedAt L digest p h q} {E = Any}
          (λ d u. uncommitted (q, v, o, u)) (at_phase q (new_journal digest p))
          (λ d u. InPhase-JournalAt digest p h q d (u.2))
          (validate_journal-at_phase q (new_journal digest p) v h.journal_valid))
        λ j. Triple-known (at_phase q (new_journal digest p)) (recover_loaded digest) j rolled_lem
    where
      rolled_lem :
          Triple L
            (UncommittedAt L digest p h q)
            (recover_loaded digest (at_phase q (new_journal digest p)))
            Answer
            Any
      rolled_lem =
          unfold recover_loaded in
          Triple-if (same_phase q marker_verified) (λ t. absurd (cc (sym t ∙ o)))
            (λ t.
              Triple-weaken (λ d u. u) (λ b d r. subst (λ b. Answer b d) (sym (r.0)) (r.1))
                (λ d e. e) (roll_back_all_lem L digest p h q v o))

  recover_open : Triple L (Uncommitted L digest p h) (recover_pending digest) Answer Any
  recover_open = record { at = λ s u. (recover_uncommitted (u.0) (u.1) (u.2)).at s (u.3) }

  unreadable-invalid : validate_journal (cut_off (new_journal digest p)) ≡ false
  unfolding validate_journal valid_phase
  unreadable-invalid = ground arith

  -- A journal that is cut off is refused, and nothing changes.
  abbrev Cut : D → Type 0
  Cut d = (L → ⊥) × Unreadable digest p d

  Cut-Any : (d : D) → Cut d → Any d
  Cut-Any d (n, u) = unreadable n u

  Cut-loaded :
      (o : Option Journal) → Triple L (λ d. Cut d × (d.journal ≡ o)) (the_journal o) (λ j d. ⊥) Any
  unfolding the_journal
  Cut-loaded none = Triple-refuse (λ d b. absurd (cc (sym (b.0.1.0) ∙ b.1)))
  Cut-loaded (some j) =
      Triple-bind
        (Triple-weaken (λ d b. b) (λ u d b. impossible d (b.0) (b.1)) (λ d e. e)
          (Triple-check (validate_journal j) (λ d b. (Cut-Any d (b.0), λ l. absurd (b.0.0 l)))))
        λ u. record { at = λ s b. absurd b }
    where
      impossible : (d : D) → Cut d × (d.journal ≡ some j) → validate_journal j ≡ true → ⊥
      impossible d ((n, u), e) v =
          let same : j ≡ cut_off (new_journal digest p) =
            some_inj j (cut_off (new_journal digest p)) (sym e ∙ u.0) in
          cc (sym v ∙ ap validate_journal same ∙ unreadable-invalid)

  recover_unreadable : Triple L Cut (recover_pending digest) Answer Any
  unfolding recover_pending load_journal
  recover_unreadable =
      Triple-bind {R = λ j d. ⊥}
        (Triple-bind (look_around Cut-Any) λ u.
          Triple-bind {R = λ o d. Cut d × (d.journal ≡ o)}
            (Triple-look (λ d. d.journal) (λ d b. (b, refl))) Cut-loaded)
        λ j. record { at = λ s b. absurd b }

  abbrev pub Interrupted : D → Type 0
  Interrupted d =
      Uncommitted L digest p h d ⊎ (Committed digest p h d ⊎ ((L → ⊥) × Unreadable digest p d))

  -- From any point of a transaction, recovery leads to both files as they were before or to both
  -- files as the transaction writes them, and says which.
  pub recover_pending_lem : Triple L Interrupted (recover_pending digest) Answer Any
  recover_pending_lem =
      Triple-or (λ d. Committed digest p h d ⊎ Cut d) recover_open
        (Triple-or Cut recover_committed recover_unreadable)

  abbrev pub Settles : D → Type 0
  Settles d = Untouched digest p d ⊎ Applied digest p d

  Settles-Any : (d : D) → Settles d → Any d
  Settles-Any d (inl u) = untouched u
  Settles-Any d (inr a) = applied a

  orphan_end :
      (f : File) (content : Option Bytes)
      → ((d : D) → Settles d → d.files f ≡ none)
      → Triple {J = Journal} L
          (λ d. Settles d × (d.files f ≡ content))
          (check (orphan_free content))
          (λ u. Settles)
          Any
  orphan_end f content gone =
      Triple-weaken (λ d b. b) (λ u d q. q.0.0) (λ d e. e)
        (Triple-check {P = λ d. Settles d × (d.files f ≡ content)} (orphan_free content) (λ d b.
          (Settles-Any d (b.0), λ l. unfold orphan_free in rw (sym (b.1) ∙ gone d (b.0)) refl)))

  orphan_look :
      (f : File)
      → ((d : D) → Settles d → d.files f ≡ none)
      → Triple {J = Journal} L Settles (no_file f) (λ u. Settles) Any
  unfolding no_file
  orphan_look f gone = Triple-bind (look_around Settles-Any) λ u.
      Triple-bind {R = λ o d. Settles d × (d.files f ≡ o)}
        (Triple-look (λ d. d.files f) (λ d b. (b, refl))) λ content. orphan_end f content gone

  Answer-Settles : (b : Bool) (d : D) → Answer b d → Settles d
  Answer-Settles true d a = inr a
  Answer-Settles false d u = inl u

  no_journal-Settles : (d : D) → Any d → d.journal ≡ none → Settles d
  no_journal-Settles d (untouched u) e = inl u
  no_journal-Settles d (unreadable n u) e = absurd (cc (sym (u.0) ∙ e))
  no_journal-Settles d (uncommitted (q, v, o, (pm, pc, j))) e =
      absurd (cc (sym (InPhase-JournalAt digest p h q d j) ∙ e))
  no_journal-Settles d (committed (mf, cf, sm, sc, j)) e = absurd (cc (sym j ∙ e))
  no_journal-Settles d (applied a) e = inr a

  journal-Interrupted : (j : Journal) (d : D) → Any d → d.journal ≡ some j → Interrupted d
  journal-Interrupted j d (untouched ((n, c0, m0), cf, mf)) e = absurd (cc (sym n ∙ e))
  journal-Interrupted j d (unreadable n u) e = inr (inr (n, u))
  journal-Interrupted j d (uncommitted u) e = inl u
  journal-Interrupted j d (committed b) e = inr (inl b)
  journal-Interrupted j d (applied ((n, c0, m0), cf, mf)) e = absurd (cc (sym n ∙ e))

  config_clean : (d : D) → Settles d → d.files config_recovery ≡ none
  config_clean d (inl ((n, c0, m0), cf, mf)) = c0
  config_clean d (inr ((n, c0, m0), cf, mf)) = c0

  marker_clean : (d : D) → Settles d → d.files marker_recovery ≡ none
  marker_clean d (inl ((n, c0, m0), cf, mf)) = m0
  marker_clean d (inr ((n, c0, m0), cf, mf)) = m0

  inspect_orphan_lem : Triple L Settles inspect_orphan (λ u. Settles) Any
  unfolding inspect_orphan
  inspect_orphan_lem =
      Triple-bind (orphan_look config_recovery config_clean)
        λ u. orphan_look marker_recovery marker_clean

  recover_found :
      (o : Option Journal)
      → Triple L
          (λ d. Any d × (d.journal ≡ o))
          (recover_if digest (has_journal o))
          (λ u. Settles)
          Any
  unfolding recover_if has_journal
  recover_found none =
      Triple-weaken (λ d b. no_journal-Settles d (b.0) (b.1)) (λ u d q. q) (λ d e. e)
        inspect_orphan_lem
  recover_found (some j) =
      Triple-bind
        (Triple-weaken (λ d b. journal-Interrupted j d (b.0) (b.1)) (λ b d q. q) (λ d e. e)
          recover_pending_lem)
        λ b. Triple-pure tt (λ d a. Answer-Settles b d a)

  pub recover_if_present_lem : Triple L Any (recover_if_present digest) (λ u. Settles) Any
  unfolding recover_if_present
  recover_if_present_lem = Triple-bind (look_around (λ d a. a)) λ u.
      Triple-bind {R = λ o d. Any d × (d.journal ≡ o)}
        (Triple-look (λ d. d.journal) (λ d a. (a, refl))) recover_found
