-- ===== src/Migration/Steps.antt =====
-- What each access to a file does that the invariant knows.
use ipgw_meta.Prelude.{◌≡◌, refl, sym, ap, ◌∙◌, true, Option, none, some, leb, length}
use ipgw_meta.Text.{Bytes, bytes_eq}
use ipgw_meta.Text.Laws.{bytes_eq_refl}
use ipgw_meta.Migration.Disk.{File, Disk, pure, ◌>>=◌, effect, check, max_config_bytes}
use ipgw_meta.Migration.Journal.{Journal, valid_sha256}
use ipgw_meta.Migration.Logic.{
  Triple, Triple-weaken, Triple-pure, Triple-refuse, Triple-look, Triple-bind, Triple-effect,
  Triple-check,
}
use ipgw_meta.Migration.Snapshot.{
  fits, read_file, the_content, read_private, has_digest, verify_artifact, snapshot_of, load_bytes,
  load_snapshot,
}

abbrev pub D : Type 0
D = Disk Journal

pub same_content : (x : Option Bytes) (s t : Bytes) → x ≡ some s → x ≡ some t → t ≡ s
same_content x s t p q = let both : some t ≡ some s = sym q ∙ p in cc

module _ {L : Type 0} {P E : D → Type 0} (keep : (d : D) → P d → E d) where
  -- An access that changes nothing.
  pub look_around : Triple {J = Journal} L P (effect (λ d. d)) (λ u. P) E
  look_around = Triple-effect (λ d. d) (λ d p. (p, keep d p, keep d p))

  pub read_lem :
      (f : File)
      → ((d : D) → P d → L → fits (d.files f) ≡ true)
      → Triple L P (read_file f) (λ c d. P d × (d.files f ≡ c)) E
  unfolding read_file
  read_lem f fit = Triple-bind look_around λ u.
      Triple-bind {R = λ c d. P d × (d.files f ≡ c)}
        (Triple-look (λ d. d.files f) (λ d p. (p, refl)))
        λ c.
          Triple-bind
            (Triple-check (fits c)
              (λ d p. (keep d (p.0), λ l. ap fits (sym (p.1)) ∙ fit d (p.0) l)))
            λ u. Triple-pure c (λ d p. p.0)

  -- The file holds this text.
  module _ (f : File) (s : Bytes) (here : (d : D) → P d → d.files f ≡ some s)
      (fit : leb (length s) max_config_bytes ≡ true) where
    private_end :
        (c : Option Bytes)
        → Triple L (λ d. P d × (d.files f ≡ c)) (the_content c) (λ t d. P d × (t ≡ s)) E
    unfolding the_content
    private_end none = Triple-refuse (λ d p. absurd (cc (here d (p.0))))
    private_end (some t) =
        Triple-pure t (λ d p. (p.0, same_content (d.files f) s t (here d (p.0)) (p.1)))

    pub private_lem : Triple L P (read_private f) (λ t d. P d × (t ≡ s)) E
    unfolding read_private
    private_lem =
        Triple-bind (read_lem f (λ d p l. ap fits (here d p) ∙ unfold fits in fit)) private_end

    module _ (digest : Bytes → Bytes) (expected : Bytes) (same : digest s ≡ expected) where
      verify_end :
          (c : Option Bytes)
          → Triple L (λ d. P d × (d.files f ≡ c)) (has_digest digest expected c) (λ u. P) E
      unfolding has_digest
      verify_end none = Triple-refuse (λ d p. absurd (cc (here d (p.0))))
      verify_end (some t) =
          Triple-weaken (λ d p. p) (λ u d p. p.0.0) (λ d e. e)
            (Triple-check (bytes_eq (digest t) expected) (λ d p. (
              keep d (p.0),
              λ l.
                  ap (λ (w : Bytes). bytes_eq (digest w) expected)
                    (same_content (d.files f) s t (here d (p.0)) (p.1))
                  ∙ ap (λ (w : Bytes). bytes_eq w expected) same
                  ∙ bytes_eq_refl expected,
            )))

      pub verify_lem : Triple L P (verify_artifact digest f expected) (λ u. P) E
      unfolding verify_artifact
      verify_lem =
          Triple-bind (read_lem f (λ d p l. ap fits (here d p) ∙ unfold fits in fit)) verify_end

    module _ (digest : Bytes → Bytes) (valid : valid_sha256 (digest s) ≡ true) where
      load_end :
          (t : Bytes)
          → Triple L
              (λ d. P d × (t ≡ s))
              (check (bytes_eq (digest t) (digest s)) >>= λ u. pure t)
              (λ t d. P d × (t ≡ s))
              E
      load_end t =
          Triple-bind
            (Triple-check (bytes_eq (digest t) (digest s)) (λ d p. (
              keep d (p.0),
              λ l.
                  ap (λ (w : Bytes). bytes_eq (digest w) (digest s)) (p.1)
                  ∙ bytes_eq_refl (digest s),
            )))
            λ u. Triple-pure t (λ d p. p.0)

      -- The snapshot of a file with this text is loaded as the text.
      pub load_lem :
          Triple L P (load_snapshot digest (snapshot_of digest f (some s))) (λ t d. P d × (t ≡ s)) E
      unfolding load_snapshot load_bytes snapshot_of
      load_lem =
          Triple-bind
            (Triple-weaken (λ d p. p) (λ u d p. p.0) (λ d e. e)
              (Triple-check (valid_sha256 (digest s)) (λ d p. (keep d p, λ l. valid))))
            λ u. Triple-bind private_lem load_end

  -- The load of a snapshot that may be cut off, but not where `L` holds.
  module _ (f : File) (s : Bytes) (here : (d : D) → P d → L → d.files f ≡ some s)
      (fit : leb (length s) max_config_bytes ≡ true) (digest : Bytes → Bytes)
      (valid : valid_sha256 (digest s) ≡ true) where
    any_content :
        (c : Option Bytes)
        → Triple L
            (λ d. P d × (d.files f ≡ c))
            (the_content c)
            (λ t d. P d × (d.files f ≡ some t))
            E
    unfolding the_content
    any_content none = Triple-refuse (λ d p. (keep d (p.0), λ l. cc (sym (here d (p.0) l) ∙ p.1)))
    any_content (some t) = Triple-pure t (λ d p. p)

    pub load_any_lem : Triple L P (load_snapshot digest (snapshot_of digest f (some s))) (λ t. P) E
    unfolding load_snapshot load_bytes snapshot_of read_private
    load_any_lem =
        Triple-bind
          (Triple-weaken (λ d p. p) (λ u d p. p.0) (λ d e. e)
            (Triple-check (valid_sha256 (digest s)) (λ d p. (keep d p, λ l. valid))))
          λ u.
            Triple-bind
              (Triple-bind (read_lem f (λ d p l. ap fits (here d p l) ∙ unfold fits in fit))
                any_content)
              λ t.
                Triple-bind
                  (Triple-check (bytes_eq (digest t) (digest s)) (λ d p. (
                    keep d (p.0),
                    λ l.
                        ap (λ (w : Bytes). bytes_eq (digest w) (digest s))
                          (same_content (d.files f) s t (here d (p.0) l) (p.1))
                        ∙ bytes_eq_refl (digest s),
                  )))
                  λ u. Triple-pure t (λ d p. p.0.0)
