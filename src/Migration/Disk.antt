-- ===== src/Migration/Disk.antt =====
-- The files and the keyring that a migration works on, and what may go wrong with each access: it
-- works, it fails with or without its effect, or the process stops before it.
use ipgw_meta.Prelude.{ℕ, Bool, true, false, Option, List, [], ◌∷◌, ◌==◌, if◌then◌else◌}
use ipgw_meta.Text.{Bytes, bytes_eq}

-- The paths of a transaction, which `validateMigrationJournal` wants to be different from each
-- other and from the path of the journal.
pub data File : Type 0 where
  config_file marker_file config_recovery marker_recovery : File
  backup : ℕ → File

unfoldable pub same_file : File → File → Bool
same_file config_file config_file = true
same_file config_file marker_file = false
same_file config_file config_recovery = false
same_file config_file marker_recovery = false
same_file config_file (backup n) = false
same_file marker_file config_file = false
same_file marker_file marker_file = true
same_file marker_file config_recovery = false
same_file marker_file marker_recovery = false
same_file marker_file (backup n) = false
same_file config_recovery config_file = false
same_file config_recovery marker_file = false
same_file config_recovery config_recovery = true
same_file config_recovery marker_recovery = false
same_file config_recovery (backup n) = false
same_file marker_recovery config_file = false
same_file marker_recovery marker_file = false
same_file marker_recovery config_recovery = false
same_file marker_recovery marker_recovery = true
same_file marker_recovery (backup n) = false
same_file (backup m) config_file = false
same_file (backup m) marker_file = false
same_file (backup m) config_recovery = false
same_file (backup m) marker_recovery = false
same_file (backup m) (backup n) = m == n

-- The journal is kept as the value that its file encodes; the keyring by references.
pub record Disk (J : Type 0) : Type 0 where
  pub files : File → Option Bytes
  pub journal : Option J
  pub keyring : Bytes → Option Bytes

pub data Fate : Type 0 where
  works fails fails_late stops : Fate

-- What the accesses to come meet; behind the end of the list they all work.
pub record State (J : Type 0) : Type 0 where
  pub fates : List Fate
  pub disk : Disk J

pub data Out (A : Type 0) : Type 0 where
  done : A → Out A
  failed stopped : Out A

abbrev pub M : Type 0 → Type 0 → Type 0
M J A = State J → Out A × State J

module _ {J A : Type 0} where
  unfoldable pub pure : A → M J A
  pure a s = (done a, s)

  unfoldable pub refuse : M J A
  refuse s = (failed, s)

module _ {J A B : Type 0} where
  abbrev pub continue : Out A → (A → M J B) → M J B
  continue (done a) f s = f a s
  continue failed f s = (failed, s)
  continue stopped f s = (stopped, s)

  infixl 5 ◌>>=◌ ◌>>◌
  unfoldable pub ◌>>=◌ : M J A → (A → M J B) → M J B
  ◌>>=◌ m f s = let (r, s') = m s in continue r f s'

  abbrev pub ◌>>◌ : M J A → M J B → M J B
  m >> n = m >>= λ _. n

module _ {J A : Type 0} where
  abbrev pub rescue : Out A → M J A → M J A
  rescue (done a) h s = (done a, s)
  rescue failed h s = h s
  rescue stopped h s = (stopped, s)

  -- `if err != nil { return fail(…) }`
  unfoldable pub on_failure : M J A → M J A → M J A
  on_failure m h s = let (r, s') = m s in rescue r h s'

module _ {J : Type 0} where
  abbrev pub meet : Fate → (Disk J → Disk J) → List Fate → Disk J → Out (Unit {0}) × State J
  meet works f rest d = (done tt, record { fates = rest; disk = f d })
  meet fails f rest d = (failed, record { fates = rest; disk = d })
  meet fails_late f rest d = (failed, record { fates = rest; disk = f d })
  meet stops f rest d = (stopped, record { fates = rest; disk = d })

  abbrev pub meet_next : List Fate → (Disk J → Disk J) → Disk J → Out (Unit {0}) × State J
  meet_next [] f d = (done tt, record { fates = []; disk = f d })
  meet_next (fate ∷ rest) f d = meet fate f rest d

  -- One access.
  unfoldable pub effect : (Disk J → Disk J) → M J (Unit {0})
  effect f s = meet_next s.fates f s.disk

  unfoldable pub look : {A : Type 0} → (Disk J → A) → M J A
  look f s = (done (f s.disk), s)

  abbrev pub put : File → Option Bytes → Disk J → Disk J
  put file content d = record d { files = λ g. if same_file file g then content else d.files g }

  abbrev pub put_journal : Option J → Disk J → Disk J
  put_journal j d = record d { journal = j }

  abbrev pub put_secret : Bytes → Option Bytes → Disk J → Disk J
  put_secret ref secret d = record d {
    keyring = λ r. if bytes_eq ref r then secret else d.keyring r;
  }

  unfoldable pub check : Bool → M J (Unit {0})
  unfolding pure refuse
  check true = pure tt
  check false = refuse

abbrev pub max_config_bytes : ℕ
max_config_bytes = 1048576
