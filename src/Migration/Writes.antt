-- ===== src/Migration/Writes.antt =====
-- A file that is created and written in place: at any point it may be there with any content, and
-- what an interruption leaves is known all the same.
use mathlib.Core.List.{append-nil, append_assoc}
use mathlib.Core.Path.{subst}
use ipgw_meta.Prelude.{◌≡◌, refl, sym, ◌∙◌, Bool, Option, none, some, [], ◌∷◌, ◌++◌, leb, length}
use ipgw_meta.Text.{Bytes}
use ipgw_meta.Migration.Disk.{File, effect, check, put, max_config_bytes}
use ipgw_meta.Migration.Journal.{Journal}
use ipgw_meta.Migration.Logic.{
  Triple, Triple-weaken, Triple-pure, Triple-refuse, Triple-look, Triple-bind, Triple-effect,
  Triple-check, Triple-on_failure,
}
use ipgw_meta.Migration.Snapshot.{append_bytes, clean_up, write_exclusive, is_absent}
use ipgw_meta.Migration.Steps.{D, look_around}

-- A removal after a failure fails in any case.
pub clean_up_lem :
    {Q : Unit {0} → D → Type 0} (E : D → Type 0) (remove : D → D)
    → ((d : D) → E d → E (remove d))
    → Triple ⊥ E (clean_up remove) Q E
unfolding clean_up
clean_up_lem E remove gone =
    Triple-bind {R = λ u. E}
      (Triple-on_failure (Triple-effect remove (λ d e. (gone d e, e, gone d e)))
        (Triple-pure tt (λ d e. e)))
      λ u. Triple-refuse (λ d e. (e, λ l. l))

-- `S c` holds while the file has the content `c`.
module _ (f : File) (S : Option Bytes → D → Type 0)
    (step : (c c' : Option Bytes) (d : D) → S c d → S c' (put f c' d)) where
  abbrev AtAny : D → Type 0
  AtAny d = (c : Option Bytes) × S c d

  put_lem : (c c' : Option Bytes) → Triple ⊥ (S c) (effect (put f c')) (λ u. S c') AtAny
  put_lem c c' = Triple-effect (put f c') (λ d s. (step c c' d s, (c, s), (c', step c c' d s)))

  append_lem :
      (written s whole : Bytes)
      → written ++ s ≡ whole
      → Triple ⊥ (S (some written)) (append_bytes f written s) (λ u. S (some whole)) AtAny
  unfolding append_bytes
  append_lem written [] whole e =
      Triple-pure tt (λ d s. subst (λ (w : Bytes). S (some w) d) (sym (append-nil written) ∙ e) s)
  append_lem written (b ∷ s) whole e =
      Triple-bind (put_lem (some written) (some (written ++ b ∷ [])))
        λ u. append_lem (written ++ b ∷ []) s whole (append_assoc written (b ∷ []) s ∙ e)

  tested_at :
      (c : Option Bytes) (b : Bool) → Triple {J = Journal} ⊥ (S c) (check b) (λ u. S c) AtAny
  tested_at c b =
      Triple-weaken (λ d s. s) (λ u d s. s.0) (λ d e. e)
        (Triple-check b (λ d s. ((c, s), λ l. absurd l)))

  around_at : (c : Option Bytes) → Triple {J = Journal} ⊥ (S c) (effect (λ d. d)) (λ u. S c) AtAny
  around_at c = look_around (λ d s. (c, s))

  exclusive_steps : (s : Bytes) → Triple ⊥ (S none) (write_exclusive f s) (λ u. S (some s)) AtAny
  unfolding write_exclusive
  exclusive_steps s = Triple-bind (tested_at none (leb (length s) max_config_bytes)) λ u.
      Triple-bind {R = λ old. S none} (Triple-look (λ d. d.files f) (λ d s. s)) λ old.
        Triple-bind (tested_at none (is_absent old)) λ u. Triple-bind (put_lem none (some [])) λ u.
          Triple-bind
            (Triple-on_failure (Triple-bind (append_lem [] s s refl) λ u. around_at (some s))
              (clean_up_lem AtAny (put f none) (λ d a. (none, step (a.0) none d (a.1)))))
            λ u. around_at (some s)

  pub exclusive_lem :
      (E : D → Type 0) (keep : (c : Option Bytes) (d : D) → S c d → E d) (s : Bytes)
      → Triple ⊥ (S none) (write_exclusive f s) (λ u. S (some s)) E
  exclusive_lem E keep s =
      Triple-weaken (λ d a. a) (λ u d a. a) (λ d a. keep (a.0) d (a.1)) (exclusive_steps s)
