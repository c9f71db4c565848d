-- ===== src/Text/Trim.antt =====
-- White space: what `trim_space` leaves alone.
use ipgw_meta.Prelude.{
  arith, ℕ, ◌≡◌, refl, sym, ap, ◌∙◌, Bool, true, ◌&&◌, [], ◌∷◌, ◌++◌, reverse, all, leb, all-append,
}
use mathlib.Core.List.{reverse-append, reverse-reverse, reverse-cons}
use ipgw_meta.Text.{
  Bytes, space_size, space_size_back, trim_from, trim_left, trim_right, trim_space,
}

-- A byte of printed ASCII, the blank left aside.
abbrev pub is_plain : ℕ → Bool
is_plain c = leb 33 c && leb c 126

space_size-plain : (c : ℕ) (s : Bytes) → is_plain c ≡ true → space_size (c ∷ s) ≡ 0
unfolding space_size
space_size-plain c [] h = ground arith
space_size-plain c (b ∷ []) h = ground arith
space_size-plain c (b ∷ d ∷ s) h = ground arith

space_size_back-plain : (c : ℕ) (s : Bytes) → is_plain c ≡ true → space_size_back (c ∷ s) ≡ 0
unfolding space_size_back
space_size_back-plain c [] h = ground arith
space_size_back-plain c (b ∷ []) h = ground arith
space_size_back-plain c (b ∷ d ∷ s) h = ground arith

trim_from-plain :
    (size : Bytes → ℕ) (c : ℕ) (s : Bytes) → size (c ∷ s) ≡ 0 → trim_from size 0 (c ∷ s) ≡ c ∷ s
unfolding trim_from
trim_from-plain size c s h = rw h refl

pub trim_left-plain : (c : ℕ) (s : Bytes) → is_plain c ≡ true → trim_left (c ∷ s) ≡ c ∷ s
unfolding trim_left
trim_left-plain c s h = trim_from-plain space_size c s (space_size-plain c s h)

pub trim_right-plain :
    (s : Bytes) (c : ℕ) → is_plain c ≡ true → trim_right (s ++ c ∷ []) ≡ s ++ c ∷ []
unfolding trim_right
trim_right-plain s c h =
    ap (λ (t : Bytes). reverse (trim_from space_size_back 0 t)) (reverse-append s (c ∷ []))
    ∙ ap reverse
        (trim_from-plain space_size_back c (reverse s) (space_size_back-plain c (reverse s) h))
    ∙ ap reverse (sym (reverse-append s (c ∷ [])))
    ∙ reverse-reverse (s ++ c ∷ [])

-- A text whose first and last byte are plain is left as it is.
pub trim_space-plain :
    (c : ℕ) (s : Bytes) (d : ℕ)
    → is_plain c ≡ true
    → is_plain d ≡ true
    → trim_space (c ∷ s ++ d ∷ []) ≡ c ∷ s ++ d ∷ []
unfolding trim_space
trim_space-plain c s d h k =
    ap trim_right (trim_left-plain c (s ++ d ∷ []) h) ∙ trim_right-plain (c ∷ s) d k

trim_back-plain : (s : Bytes) → all is_plain s ≡ true → trim_from space_size_back 0 s ≡ s
unfolding trim_from
trim_back-plain [] h = refl
trim_back-plain (c ∷ s) h =
    trim_from-plain space_size_back c s (space_size_back-plain c s (ground arith))

all-reverse : (s : Bytes) → all is_plain s ≡ true → all is_plain (reverse s) ≡ true
all-reverse [] h = refl
all-reverse (c ∷ s) h =
    rw (reverse-cons c s) (ground (arith, all-append is_plain (reverse s) (c ∷ []), all-reverse s))

pub trim_space-all : (s : Bytes) → all is_plain s ≡ true → trim_space s ≡ s
unfolding trim_space trim_left trim_right trim_from
trim_space-all [] h = refl
trim_space-all (c ∷ s) h =
    ap trim_right (trim_left-plain c s (ground arith))
    ∙ ap reverse (trim_back-plain (reverse (c ∷ s)) (all-reverse (c ∷ s) h))
    ∙ reverse-reverse (c ∷ s)
