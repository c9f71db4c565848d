-- ===== src/Srun/Balance.antt =====
-- internal/srun/status.go: `parseBalanceText`, the decimal balance in the smallest unit of money.
pub mod Laws
pub mod Exact
pub mod RoundTrip
use ipgw_meta.Prelude.{
  ℕ, zero, suc, Bool, true, false, not, ◌&&◌, ◌||◌, Option, none, some, List, [], ◌∷◌, ◌++◌, all,
  ◌==◌, if◌then◌else◌,
}
use ipgw_meta.Prelude.Int.{ℤ}
use ipgw_meta.Text.{Bytes, codes, bytes_eq, cut}
use ipgw_meta.Text.Decimal.{is_unsigned, parse_int64}

-- A text without its minus.
unfoldable pub without_minus : Bytes → Bytes
without_minus [] = []
without_minus (c ∷ s) = if c == b'-' then s else c ∷ s

unfoldable pub has_minus : Bytes → Bool
has_minus [] = false
has_minus (c ∷ s) = c == b'-'

-- `^[0-9]+(?:\.[0-9]+)?$`, of what stands before and behind the first point.
unfoldable pub is_decimal : Option (Bytes × Bytes) → Bytes → Bool
unfolding is_unsigned
is_decimal none s = is_unsigned s
is_decimal (some (whole, fraction)) s = is_unsigned whole && is_unsigned fraction

-- The loops on the fraction: two digits, if the digits behind them are zeros.
unfoldable pub two_digits : Bytes → Option Bytes
two_digits [] = some (b'0' ∷ b'0' ∷ [])
two_digits (a ∷ []) = some (a ∷ b'0' ∷ [])
two_digits (a ∷ b ∷ rest) = if all (λ d. d == b'0') rest then some (a ∷ b ∷ []) else none

-- `strings.TrimLeft(s, "0")`
unfoldable pub trim_zeros : Bytes → Bytes
trim_zeros [] = []
trim_zeros (c ∷ s) = let rest = trim_zeros s in if c == b'0' then rest else c ∷ s

-- The digits that `parseBalanceText` hands to `strconv.ParseInt`.
unfoldable pub minor_digits : Bool → Bytes → Bytes
unfolding trim_zeros
minor_digits negative s =
    let trimmed = trim_zeros s in
    let digits = if bytes_eq trimmed [] then codes "0" else trimmed in
    if negative && not (bytes_eq digits (codes "0")) then b'-' ∷ digits else digits

unfoldable pub minor_of : Bool → Bytes → Option Bytes → Option ℤ
unfolding minor_digits
minor_of negative whole none = none
minor_of negative whole (some fraction) = parse_int64 (minor_digits negative (whole ++ fraction))

unfoldable pub parse_parts : Bool → Bytes → Option (Bytes × Bytes) → Option ℤ
unfolding minor_of two_digits
parse_parts negative unsigned none = minor_of negative unsigned (two_digits [])
parse_parts negative unsigned (some (whole, fraction)) =
    minor_of negative whole (two_digits fraction)

-- `parseBalanceText`
unfoldable pub parse_balance : Bytes → Option ℤ
unfolding is_decimal without_minus has_minus parse_parts
parse_balance s =
    let unsigned = without_minus s in
    let parts = cut b'.' unsigned in
    if is_decimal parts unsigned then parse_parts (has_minus s) unsigned parts else none
