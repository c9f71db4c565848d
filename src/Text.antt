-- ===== src/Text.antt =====
-- Go strings and byte slices as lists of bytes, with what the program uses of the packages
-- strings and bytes.
pub mod Laws
pub mod Decimal
pub mod Trim
use Prim.Native.Char.{code}
use ipgw_meta.Prelude.{
  ℕ, zero, suc, ◌+◌, ◌-◌, String, Bool, true, false, ◌&&◌, ◌||◌, Option, none, some, List, [], ◌∷◌,
  reverse, leb, ◌==◌, if◌then◌else◌,
}

abbrev pub Bytes : Type 0
Bytes = List ℕ

-- The bytes of an ASCII literal.
abbrev pub codes : String → Bytes
codes String.[] = []
codes (String.◌∷◌ c s) = code c ∷ codes s

unfoldable pub bytes_eq : Bytes → Bytes → Bool
bytes_eq [] [] = true
bytes_eq [] (y ∷ ys) = false
bytes_eq (x ∷ xs) [] = false
bytes_eq (x ∷ xs) (y ∷ ys) = (x == y) && bytes_eq xs ys

-- strings.HasPrefix
unfoldable pub has_prefix : Bytes → Bytes → Bool
has_prefix s [] = true
has_prefix [] (p ∷ ps) = false
has_prefix (c ∷ s) (p ∷ ps) = (c == p) && has_prefix s ps

-- strings.TrimPrefix, for a prefix that is known to be there or not.
unfoldable pub strip_prefix : Bytes → Bytes → Option Bytes
strip_prefix s [] = some s
strip_prefix [] (p ∷ ps) = none
strip_prefix (c ∷ s) (p ∷ ps) = if c == p then strip_prefix s ps else none

-- strings.IndexByte, as the text before the first `c` and the text behind it.
unfoldable pub cut : ℕ → Bytes → Option (Bytes × Bytes)
cut c [] = none
cut c (x ∷ s) =
    let rest : Option (Bytes × Bytes) = elim (cut c s) [
      | none ↦ none
      | some (a, b) ↦ some (x ∷ a, b)
    ] in
    if x == c then some ([], s) else rest

unfoldable pub contains_byte : ℕ → Bytes → Bool
contains_byte c [] = false
contains_byte c (x ∷ s) = (x == c) || contains_byte c s

-- strings.ContainsAny, for a set of ASCII bytes.
unfoldable pub contains_any : Bytes → Bytes → Bool
unfolding contains_byte
contains_any [] set = false
contains_any (x ∷ s) set = contains_byte x set || contains_any s set

-- The number of bytes of the white space (unicode.IsSpace, in UTF-8) at the front of a text.
wide_space : ℕ → ℕ → ℕ → Bool
wide_space a b c =
    ((a == 0xe1) && (b == 0x9a) && (c == 0x80))
    || ((a == 0xe2)
        && (b == 0x80)
        && ((leb 0x80 c && leb c 0x8a) || (c == 0xa8) || (c == 0xa9) || (c == 0xaf)))
    || ((a == 0xe2) && (b == 0x81) && (c == 0x9f))
    || ((a == 0xe3) && (b == 0x80) && (c == 0x80))

ascii_space : ℕ → Bool
ascii_space c = (c == 32) || (leb 9 c && leb c 13)

latin_space : ℕ → ℕ → Bool
latin_space a b = (a == 0xc2) && ((b == 0x85) || (b == 0xa0))

pub space_size : Bytes → ℕ
unfolding ascii_space latin_space wide_space
space_size [] = 0
space_size (a ∷ []) = if ascii_space a then 1 else 0
space_size (a ∷ b ∷ []) = if ascii_space a then 1 else if latin_space a b then 2 else 0
space_size (a ∷ b ∷ c ∷ s) =
    if ascii_space a then 1 else if latin_space a b then 2 else if wide_space a b c then 3 else 0

-- The same, for a text that is written back to front.
pub space_size_back : Bytes → ℕ
unfolding ascii_space latin_space wide_space
space_size_back [] = 0
space_size_back (a ∷ []) = if ascii_space a then 1 else 0
space_size_back (a ∷ b ∷ []) = if ascii_space a then 1 else if latin_space b a then 2 else 0
space_size_back (a ∷ b ∷ c ∷ s) =
    if ascii_space a then 1 else if latin_space b a then 2 else if wide_space c b a then 3 else 0

-- Drops white space from the front; the first argument counts the bytes of a space that are
-- still to be dropped.
pub trim_from : (Bytes → ℕ) → ℕ → Bytes → Bytes
trim_from size k [] = []
trim_from size (suc k) (c ∷ s) = trim_from size k s
trim_from size zero (c ∷ s) =
    let n = size (c ∷ s) in let rest = trim_from size (n - 1) s in if n == 0 then c ∷ s else rest

unfoldable pub trim_left : Bytes → Bytes
unfolding trim_from space_size
trim_left s = trim_from space_size 0 s

unfoldable pub trim_right : Bytes → Bytes
unfolding trim_from space_size_back
trim_right s = reverse (trim_from space_size_back 0 (reverse s))

-- strings.TrimSpace and bytes.TrimSpace
unfoldable pub trim_space : Bytes → Bytes
unfolding trim_left trim_right
trim_space s = trim_right (trim_left s)

-- strings.ToLower on ASCII letters.
unfoldable pub lower : ℕ → ℕ
lower c = if leb b'A' c && leb c b'Z' then c + 32 else c

unfoldable pub to_lower : Bytes → Bytes
unfolding lower
to_lower [] = []
to_lower (c ∷ s) = lower c ∷ to_lower s
