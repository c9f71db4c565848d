-- ===== src/Text/Laws.antt =====
-- Laws of the byte-level operations.
use Prim.Native.Nat.{ℕ}
use ipgw_meta.Prelude.{
  none, Bool-cases, Option-cases, inl, inr, false, ◌==◌, ◌≡◌, refl, ◌↔◌, true, some, [], ◌∷◌, ◌++◌,
  arith, ==_iff,
}
use ipgw_meta.Text.{cut, contains_byte, Bytes, bytes_eq, has_prefix, strip_prefix, lower, to_lower}

pub bytes_eq→eq : (s t : Bytes) → bytes_eq s t ≡ true → s ≡ t
unfolding bytes_eq
bytes_eq→eq [] [] h = refl
bytes_eq→eq [] (y ∷ t) h = ground arith
bytes_eq→eq (x ∷ s) [] h = ground arith
bytes_eq→eq (x ∷ s) (y ∷ t) h = ground (arith, ==_iff x y, bytes_eq→eq s t)

pub bytes_eq_refl : (s : Bytes) → bytes_eq s s ≡ true
unfolding bytes_eq
bytes_eq_refl [] = refl
bytes_eq_refl (x ∷ s) = ground (arith, ==_iff x x, bytes_eq_refl s)

pub bytes_eq_iff : (s t : Bytes) → (bytes_eq s t ≡ true) ↔ (s ≡ t)
bytes_eq_iff s t = (bytes_eq→eq s t, ground (arith, bytes_eq_refl s))

pub has_prefix-append : (p s : Bytes) → has_prefix (p ++ s) p ≡ true
unfolding has_prefix
has_prefix-append [] s = refl
has_prefix-append (c ∷ p) s = ground (arith, ==_iff c c, has_prefix-append p s)

pub strip_prefix-append : (p s : Bytes) → strip_prefix (p ++ s) p ≡ some s
unfolding strip_prefix
strip_prefix-append [] s = refl
strip_prefix-append (c ∷ p) s = ground (arith, ==_iff c c, strip_prefix-append p s)

pub lower-lower : (c : ℕ) → lower (lower c) ≡ lower c
unfolding lower
lower-lower c = ground arith

pub to_lower-to_lower : (s : Bytes) → to_lower (to_lower s) ≡ to_lower s
unfolding to_lower
to_lower-to_lower [] = refl
to_lower-to_lower (c ∷ s) = ground (arith, lower-lower c, to_lower-to_lower s)

-- `cut` is the text before the first `c` and the text behind it.
pub append-cut : (c : ℕ) (s a b : Bytes) → cut c s ≡ some (a, b) → s ≡ a ++ c ∷ b
unfolding cut
append-cut c [] a b h = cc
append-cut c (x ∷ s) a b h = elim (Bool-cases (x == c)) [
  | inl e ↦ ground (arith, ==_iff x c)
  | inr e ↦ elim (Option-cases (cut c s)) [
    | inl p ↦ absurd (ground arith)
    | inr ((u, v), p) ↦ ground (arith, append-cut c s u v p)
  ]
]

pub cut-append :
    (c : ℕ) (a b : Bytes) → contains_byte c a ≡ false → cut c (a ++ c ∷ b) ≡ some (a, b)
unfolding cut contains_byte
cut-append c [] b h = ground (arith, ==_iff c c)
cut-append c (x ∷ a) b h = ground (arith, cut-append c a b)

pub cut-eq-none : (c : ℕ) (s : Bytes) → contains_byte c s ≡ false → cut c s ≡ none
unfolding cut contains_byte
cut-eq-none c [] h = refl
cut-eq-none c (x ∷ s) h = ground (arith, cut-eq-none c s)
