-- ===== src/Text/Decimal.antt =====
-- What the program uses of package strconv: decimal numbers and the 64-bit bounds.
pub mod Laws
use ipgw_meta.Prelude.{
  ℕ, zero, suc, ◌+◌, ◌-◌, ◌*◌, ◌/◌, ◌%◌, ◌^◌, Bool, true, false, not, ◌&&◌, Option, none, some,
  List, [], ◌∷◌, ltb, leb, ◌==◌, all, if◌then◌else◌,
}
use ipgw_meta.Prelude.Int.{ℤ, pos, negsuc, signed}
use ipgw_meta.Text.{Bytes, bytes_eq}

abbrev pub is_digit : ℕ → Bool
is_digit c = leb b'0' c && leb c b'9'

-- The regular expression `^[0-9]+$`.
unfoldable pub is_unsigned : Bytes → Bool
is_unsigned s = not (bytes_eq s []) && all is_digit s

-- The number that digits spell behind `n`.
abbrev pub value : ℕ → Bytes → ℕ
value n [] = n
value n (c ∷ s) = value (n * 10 + (c - b'0')) s

unfoldable pub digits_from : ℕ → ℕ → Bytes → Bytes
digits_from zero n acc = acc
digits_from (suc f) n acc =
    let here = (b'0' + n % 10) ∷ acc in
    let rest = digits_from f (n / 10) here in if ltb n 10 then here else rest

-- `strconv.Itoa` and `strconv.FormatUint`; a number has no more digits than its value plus one.
unfoldable pub itoa : ℕ → Bytes
unfolding digits_from
itoa n = digits_from (suc n) n []

abbrev pub max_int64 : ℕ
max_int64 = 2 ^ 63 - 1

abbrev pub max_uint64 : ℕ
max_uint64 = 2 ^ 64 - 1

-- Whether an int64 can have this sign and this size.
unfoldable pub fits_int64 : Bool → ℕ → Bool
fits_int64 negative n = leb n (if negative then 2 ^ 63 else max_int64)

unfoldable pub bounded : Bool → ℕ → Option ℤ
unfolding fits_int64
bounded negative n = if fits_int64 negative n then some (signed negative n) else none

-- `strconv.ParseInt(s, 10, 64)` of a text with digits behind an optional minus.
unfoldable pub parse_int64 : Bytes → Option ℤ
unfolding bounded is_unsigned
parse_int64 [] = none
parse_int64 (c ∷ s) =
    if c == b'-'
    then (if is_unsigned s then bounded true (value 0 s) else none)
    else if is_unsigned (c ∷ s)
    then bounded false (value 0 (c ∷ s))
    else none

-- `strconv.ParseUint(s, 10, 64)`
unfoldable pub parse_uint64 : Bytes → Option ℕ
unfolding is_unsigned
parse_uint64 s = if is_unsigned s && leb (value 0 s) max_uint64 then some (value 0 s) else none
