-- ===== src/Launcher/Mode/Laws.antt =====
-- What `extractMode` accepts, refuses and forwards.
use mathlib.Core.List.{append-nil, append_assoc}
use ipgw_meta.Prelude.{
  ◌≡◌, refl, ◌∙◌, false, Option, none, some, List, [], ◌∷◌, ◌++◌, All, Bool-cases, ◌⊎◌, inl, inr,
}
use ipgw_meta.Prelude.Results.{ok, err}
use ipgw_meta.Text.{Bytes, bytes_eq, has_prefix, strip_prefix}
use ipgw_meta.Launcher.Mode.{
  Mode, invalid_arguments, terminator, mode_flag, mode_assign, parse_mode, select, extract_from,
  extract_mode,
}

-- An argument that neither ends the flags nor selects a mode.
pub record IsPlain (a : Bytes) : Type 0 where
  pub not_terminator : bytes_eq a terminator ≡ false
  pub not_flag : bytes_eq a mode_flag ≡ false
  pub not_assign : strip_prefix a mode_assign ≡ none

pub extract_from-plain_one :
    (a : Bytes) (rest remaining : List Bytes) (sel : Option Mode)
    → IsPlain a
    → extract_from (a ∷ rest) remaining sel ≡ extract_from rest (remaining ++ (a ∷ [])) sel
unfolding extract_from
extract_from-plain_one a [] remaining sel h = rw (h.not_terminator, h.not_flag, h.not_assign)
extract_from-plain_one a (b ∷ rest) remaining sel h =
    rw (h.not_terminator, h.not_flag, h.not_assign)

-- Plain arguments are passed on in their order.
pub extract_from-plain :
    (pre rest remaining : List Bytes) (sel : Option Mode)
    → All IsPlain pre
    → extract_from (pre ++ rest) remaining sel ≡ extract_from rest (remaining ++ pre) sel
extract_from-plain [] rest remaining sel h = rw append-nil
extract_from-plain (a ∷ pre) rest remaining sel (h, hs) =
    extract_from-plain_one a (pre ++ rest) remaining sel h
    ∙ extract_from-plain pre rest (remaining ++ (a ∷ [])) sel hs
    ∙ rw append_assoc

pub extract_from-terminator :
    (tail remaining : List Bytes) (sel : Option Mode)
    → extract_from (terminator ∷ tail) remaining sel ≡ ok (sel, remaining ++ (terminator ∷ tail))
unfolding extract_from bytes_eq
extract_from-terminator [] remaining sel = refl
extract_from-terminator (a ∷ tail) remaining sel = refl

pub extract_from-flag :
    (v : Bytes) (rest remaining : List Bytes) (m : Mode)
    → has_prefix v terminator ≡ false
    → parse_mode v ≡ some m
    → extract_from (mode_flag ∷ v ∷ rest) remaining none ≡ extract_from rest remaining (some m)
unfolding extract_from bytes_eq select
extract_from-flag v rest remaining m p q = rw (p, q)

pub extract_from-assign :
    (v : Bytes) (rest remaining : List Bytes) (m : Mode)
    → parse_mode v ≡ some m
    → extract_from ((mode_assign ++ v) ∷ rest) remaining none ≡ extract_from rest remaining (some m)
unfolding extract_from bytes_eq select strip_prefix
extract_from-assign v [] remaining m q = rw q
extract_from-assign v (a ∷ rest) remaining m q = rw q

-- No more flags: nothing follows, or `--` and whatever stands behind it.
abbrev pub NoFlags : List Bytes → Type 0
NoFlags behind = (behind ≡ []) ⊎ ((tail : List Bytes) × (behind ≡ terminator ∷ tail))

extract_from-NoFlags :
    (behind remaining : List Bytes) (sel : Option Mode)
    → NoFlags behind
    → extract_from behind remaining sel ≡ ok (sel, remaining ++ behind)
extract_from-NoFlags behind remaining sel (inl e) = rw (e, append-nil) (unfold extract_from in refl)
extract_from-NoFlags behind remaining sel (inr (tail, e)) =
    rw e (extract_from-terminator tail remaining sel)

-- One `--mode VALUE` or `--mode=VALUE` among plain arguments selects its mode and is taken out; the
-- other arguments, and a `--` with whatever stands behind it, if there is one, are forwarded as they
-- are.
pub extract_mode-flag :
    (pre post behind : List Bytes) (v : Bytes) (m : Mode)
    → All IsPlain pre
    → All IsPlain post
    → NoFlags behind
    → has_prefix v terminator ≡ false
    → parse_mode v ≡ some m
    → (extract_mode (pre ++ (mode_flag ∷ v ∷ (post ++ behind)))
        ≡ ok (some m, (pre ++ post) ++ behind))
      × (extract_mode (pre ++ ((mode_assign ++ v) ∷ (post ++ behind)))
          ≡ ok (some m, (pre ++ post) ++ behind))
unfolding extract_mode
extract_mode-flag pre post behind v m hpre hpost none_left hv hm = (
  extract_from-plain pre _ [] none hpre ∙ extract_from-flag v _ pre m hv hm ∙ finish,
  extract_from-plain pre _ [] none hpre ∙ extract_from-assign v _ pre m hm ∙ finish,
)
  where
    finish : extract_from (post ++ behind) pre (some m) ≡ ok (some m, (pre ++ post) ++ behind)
    finish =
        extract_from-plain post _ pre (some m) hpost
        ∙ extract_from-NoFlags behind _ (some m) none_left

extract_from_again :
    (rest remaining : List Bytes) (m : Mode) (v : Bytes)
    → extract_from (mode_flag ∷ v ∷ rest) remaining (some m) ≡ err invalid_arguments
unfolding extract_from bytes_eq select
extract_from_again rest remaining m v = elim (Bool-cases (has_prefix v terminator)) [
  | inl e ↦ rw e
  | inr e ↦ rw e
]

-- After a valid `--mode=VALUE` among plain arguments, a `--mode` that follows behind plain arguments and
-- has a value is an error, whatever that value is and whatever follows.
pub extract_mode_twice :
    (pre mid rest : List Bytes) (v w : Bytes) (m : Mode)
    → All IsPlain pre
    → All IsPlain mid
    → parse_mode v ≡ some m
    → extract_mode (pre ++ ((mode_assign ++ v) ∷ (mid ++ (mode_flag ∷ w ∷ rest))))
      ≡ err invalid_arguments
unfolding extract_mode
extract_mode_twice pre mid rest v w m hpre hmid hm =
    extract_from-plain pre _ [] none hpre
    ∙ extract_from-assign v _ pre m hm
    ∙ extract_from-plain mid _ pre (some m) hmid
    ∙ extract_from_again rest _ m w
