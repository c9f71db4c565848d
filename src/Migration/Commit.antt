-- ===== src/Migration/Commit.antt =====
-- A whole transaction: what its steps leave behind, and that it is applied or leaves no trace.
use ipgw_meta.Prelude.{
  ◌≡◌, ◌⊎◌, inl, inr, refl, ◌∙◌, Bool, true, false, ◌&&◌, Option, none, some, List, [], ◌∷◌, map,
}
use ipgw_meta.Text.{Bytes, bytes_eq}
use ipgw_meta.Migration.Disk.{
  config_file, marker_file, config_recovery, marker_recovery, backup, same_file, ◌>>=◌, effect,
  look, check, put_journal, put_secret, refuse,
}
use ipgw_meta.Migration.Journal.{
  Phase, marker_verified, Journal, same_phase, valid_phase, valid_transaction_id, next,
}
use ipgw_meta.Migration.Logic.{
  Triple, Triple-weaken, Triple-pure, Triple-refuse, Triple-look, Triple-bind, Triple-effect,
  Triple-check, Triple-known,
}
use ipgw_meta.Migration.Snapshot.{
  write_exclusive, advance_loaded, advance, follows, at_phase, load_journal,
}
use ipgw_meta.Migration.Apply.{
  write_backups, backup_file, write_secrets, stored_secret, Plan, Source, new_journal,
}
use ipgw_meta.Migration.Steps.{D, look_around}
use ipgw_meta.Migration.Writes.{exclusive_lem}
use ipgw_meta.Migration.JournalSteps.{load_journal_lem}
use ipgw_meta.Migration.Complete.{validate_journal-at_phase}
use ipgw_meta.Migration.Artifact.{Pending}
use ipgw_meta.Migration.Transaction.{
  Prepared, config_slot, marker_slot, JournalAt, InPhase, Anywhere, uncommitted,
}

-- What the four files hold, and the phase of the journal.
module _ (digest : Bytes → Bytes) (p : Plan) (h : Prepared digest p) where
  abbrev Any : D → Type 0
  Any d = Anywhere ⊥ digest p h d

  abbrev pub Stage : Option Bytes → Option Bytes → Option Bytes → Option Bytes → Phase → D → Type 0
  Stage cf cr mf mr q d =
      (d.files config_file ≡ cf)
      × (d.files config_recovery ≡ cr)
      × (d.files marker_file ≡ mf)
      × (d.files marker_recovery ≡ mr)
      × JournalAt digest p q d

  -- The contents of a file and of its snapshot from which the file can be rolled back.
  abbrev pub Safe : Option Bytes → Bytes → Option Bytes → Option Bytes → Type 0
  Safe before after f r =
      ((f ≡ before) × (before ≡ none → r ≡ none)) ⊎ ((f ≡ some after) × (r ≡ before))

  Safe-config :
      (cf cr : Option Bytes) (d : D)
      → Safe p.config_before p.candidate cf cr
      → d.files config_file ≡ cf
      → d.files config_recovery ≡ cr
      → Pending ⊥ (config_slot h) d
  unfolding same_file
  Safe-config cf cr d (inl (e, n)) f g = inl (f ∙ e, ((λ l. absurd l), λ a. g ∙ n a))
  Safe-config cf cr d (inr (e, r)) f g = inr (f ∙ e, g ∙ r)

  Safe-marker :
      (mf mr : Option Bytes) (d : D)
      → Safe p.marker_before p.marker mf mr
      → d.files marker_file ≡ mf
      → d.files marker_recovery ≡ mr
      → Pending ⊥ (marker_slot h) d
  unfolding same_file
  Safe-marker mf mr d (inl (e, n)) f g = inl (f ∙ e, ((λ l. absurd l), λ a. g ∙ n a))
  Safe-marker mf mr d (inr (e, r)) f g = inr (f ∙ e, g ∙ r)

  -- A stage from which the transaction can be rolled back.
  pub record Open (cf cr mf mr : Option Bytes) (q : Phase) : Type 0 where
    pub config_safe : Safe p.config_before p.candidate cf cr
    pub marker_safe : Safe p.marker_before p.marker mf mr
    pub valid : valid_phase q ≡ true
    pub open_phase : same_phase q marker_verified ≡ false
    pub calm :
        (((mr ≡ none) ⊎ (mr ≡ p.marker_before)) × ((cr ≡ none) ⊎ (cr ≡ p.config_before)))
        ⊎ ((cf ≡ p.config_before) × (mf ≡ p.marker_before))

  here_or : {u v w : Option Bytes} → u ≡ v → (v ≡ none) ⊎ (v ≡ w) → (u ≡ none) ⊎ (u ≡ w)
  here_or e (inl n) = inl (e ∙ n)
  here_or e (inr k) = inr (e ∙ k)

  Stage-InPhase :
      (cf cr mf mr : Option Bytes) (q : Phase)
      → Open cf cr mf mr q
      → (d : D) → Stage cf cr mf mr q d
      → InPhase digest p h q d
  unfolding same_file
  Stage-InPhase cf cr mf mr q o d (a, b, c, e, j) = which (o.calm)
    where
      which :
          (((mr ≡ none) ⊎ (mr ≡ p.marker_before)) × ((cr ≡ none) ⊎ (cr ≡ p.config_before)))
            ⊎ ((cf ≡ p.config_before) × (mf ≡ p.marker_before))
          → InPhase digest p h q d
      which (inl (sm, sc)) = inl (j, here_or e sm, here_or b sc)
      which (inr (x, y)) = inr (j, a ∙ x, c ∙ y)

  pub Stage-Any :
      (cf cr mf mr : Option Bytes) (q : Phase)
      → Open cf cr mf mr q
      → (d : D) → Stage cf cr mf mr q d
      → Any d
  Stage-Any cf cr mf mr q o d s = uncommitted (
    q,
    o.valid,
    o.open_phase,
    (
      Safe-marker mf mr d o.marker_safe (s.2) (s.3),
      Safe-config cf cr d o.config_safe (s.0) (s.1),
      Stage-InPhase cf cr mf mr q o d s,
    ),
  )

  -- The steps in one stage.
  module _ (cf cr mf mr : Option Bytes) (q : Phase) (o : Open cf cr mf mr q) where
    abbrev Here : D → Type 0
    Here d = Stage cf cr mf mr q d

    pub Here-Any : (d : D) → Here d → Any d
    Here-Any d s = Stage-Any cf cr mf mr q o d s

    -- Any test; a failure leaves the stage.
    pub tested : (b : Bool) → Triple {J = Journal} ⊥ Here (check b) (λ u. Here) Any
    tested b =
        Triple-weaken (λ d s. s) (λ u d s. s.0) (λ d e. e)
          (Triple-check b (λ d s. (Here-Any d s, λ l. absurd l)))

    pub around : Triple {J = Journal} ⊥ Here (effect (λ d. d)) (λ u. Here) Any
    around = look_around Here-Any

    pub refused :
        {A : Type 0} (Q : A → D → Type 0) → Triple {J = Journal} ⊥ Here (refuse {A = A}) Q Any
    refused Q = Triple-refuse (λ d s. (Here-Any d s, λ l. l))

    -- An access that leads from this stage to another.
    pub moved :
        (f : D → D) (Q : D → Type 0)
        → ((d : D) → Here d → Q (f d) × Any (f d))
        → Triple ⊥ Here (effect f) (λ u. Q) Any
    moved f Q step = Triple-effect f (λ d s. let t = step d s in (t.0, Here-Any d s, t.1))

    pub looked : {A : Type 0} (f : D → A) → Triple ⊥ Here (look f) (λ a. Here) Any
    looked f = Triple-look f (λ d s. s)

    loaded_journal :
        Triple ⊥ Here load_journal (λ j d. Here d × (j ≡ at_phase q (new_journal digest p))) Any
    loaded_journal =
        load_journal_lem Here-Any (at_phase q (new_journal digest p)) (λ d s. s.4)
          (validate_journal-at_phase q (new_journal digest p) o.valid h.journal_valid)

    module _ (q' : Phase) (v' : valid_phase q' ≡ true)
        (next_any : (d : D) → Stage cf cr mf mr q' d → Any d) where
      abbrev Next : D → Type 0
      Next d = Stage cf cr mf mr q' d

      stored_lem :
          Triple ⊥ Next
            (load_journal >>= λ stored.
              check (bytes_eq stored.transaction_id p.transaction_id && same_phase stored.phase q'))
            (λ u. Next)
            Any
      stored_lem =
          Triple-bind
            (load_journal_lem next_any (at_phase q' (new_journal digest p)) (λ d s. s.4)
              (validate_journal-at_phase q' (new_journal digest p) v' h.journal_valid))
            λ stored.
              Triple-weaken (λ d s. s) (λ u d s. s.0.0) (λ d e. e)
                (Triple-check
                  (bytes_eq stored.transaction_id p.transaction_id && same_phase stored.phase q')
                  (λ d s. (next_any d (s.0), λ l. absurd l)))

      -- The journal gets to the next phase.
      pub advance_lem : Triple ⊥ Here (advance p.transaction_id q') (λ u. Next) Any
      unfolding advance
      advance_lem = Triple-bind (tested (valid_transaction_id p.transaction_id)) λ u.
          Triple-bind loaded_journal λ j.
            Triple-known (at_phase q (new_journal digest p)) (advance_loaded p.transaction_id q') j
              (unfold advance_loaded in
                Triple-bind (tested (bytes_eq p.transaction_id p.transaction_id)) λ u.
                  Triple-bind (tested (follows q' (next q))) λ u.
                    Triple-bind
                      (moved (put_journal (some (at_phase q' (new_journal digest p)))) Next (λ d s.
                        let n : Next (put_journal (some (at_phase q' (new_journal digest p))) d) =
                          (s.0, s.1, s.2, s.3, refl) in
                        (
                          n,
                          next_any (put_journal (some (at_phase q' (new_journal digest p))) d) n,
                        )))
                      λ u. stored_lem)

    pub backups_lem :
        (sources : List Source)
        → Triple ⊥ Here (write_backups (map backup_file sources)) (λ u. Here) Any
    unfolding write_backups backup_file write_exclusive same_file
    backups_lem [] = Triple-pure tt (λ d s. s)
    backups_lem (source ∷ sources) =
        Triple-bind
          (exclusive_lem (backup source.number) (λ c. Here) (λ c c' d s. s) Any
            (λ c d s. Here-Any d s) source.content)
          λ u. backups_lem sources

    secret_end :
        (password : Bytes) (o : Option Bytes)
        → Triple ⊥ Here (stored_secret password o) (λ u. Here) Any
    unfolding stored_secret
    secret_end password none = refused (λ u. Here)
    secret_end password (some s) = tested (bytes_eq s password)

    pub secrets_lem :
        (secrets : List (Bytes × Bytes)) → Triple ⊥ Here (write_secrets secrets) (λ u. Here) Any
    unfolding write_secrets
    secrets_lem [] = Triple-pure tt (λ d s. s)
    secrets_lem ((ref, password) ∷ secrets) =
        Triple-bind
          (moved (put_secret ref (some password)) Here
            (λ d s. (s, Here-Any (put_secret ref (some password) d) s)))
          λ u. Triple-bind around λ u.
            Triple-bind (looked (λ d. d.keyring ref))
              λ stored. Triple-bind (secret_end password stored) λ u. secrets_lem secrets
