-- ===== src/Srun/Balance/RoundTrip.antt =====
-- Every balance that is written as a decimal number is read back.
use ipgw_meta.Prelude.{
  arith, ℕ, ◌+◌, ◌/◌, ◌%◌, ◌≡◌, refl, ◌∙◌, ap, Bool, true, false, Option, none, some, [], ◌∷◌, ◌++◌,
  all, if◌then◌else◌,
}
use ipgw_meta.Prelude.Int.{ℤ}
use ipgw_meta.Text.{Bytes, bytes_eq, cut, contains_byte}
use ipgw_meta.Text.Laws.{cut-append, cut-eq-none}
use ipgw_meta.Text.Decimal.{is_digit, value, is_unsigned, bounded, itoa}
use ipgw_meta.Text.Decimal.Laws.{digits_without, value-append, value-itoa, is_unsigned-itoa}
use ipgw_meta.Srun.Balance.Exact.{unsigned_text, written, two_digits-digits, minor_of_lem}
use ipgw_meta.Srun.Balance.{
  without_minus, has_minus, is_decimal, two_digits, minor_of, parse_parts, parse_balance,
}

-- A text with a digit at its front has no minus.
no_minus :
    (c : ℕ) (s : Bytes)
    → is_digit c ≡ true
    → (without_minus (c ∷ s) ≡ c ∷ s) × (has_minus (c ∷ s) ≡ false)
unfolding without_minus has_minus
no_minus c s h = ground arith

abbrev decimal : Bool → Bytes → Option ℤ
decimal negative u = if is_decimal (cut b'.' u) u then parse_parts negative u (cut b'.' u) else none

module _ (negative : Bool) (whole : Bytes) (w : is_unsigned whole ≡ true) where
  no_point : contains_byte b'.' whole ≡ false
  no_point = digits_without b'.' whole refl (unfold is_unsigned in ground arith)

  decimal-parts :
      (fraction : Bytes)
      → all is_digit fraction ≡ true
      → decimal negative (unsigned_text whole fraction)
        ≡ minor_of negative whole (two_digits fraction)
  unfolding is_decimal parse_parts
  decimal-parts [] d = rw (cut-eq-none b'.' whole no_point, w) refl
  decimal-parts (x ∷ fraction) d =
      let f : is_unsigned (x ∷ fraction) ≡ true = unfold is_unsigned bytes_eq in d in
      rw (cut-append b'.' whole (x ∷ fraction) no_point, w, f) refl

positive_lem :
    (c : ℕ) (s : Bytes) → is_digit c ≡ true → parse_balance (c ∷ s) ≡ decimal false (c ∷ s)
unfolding parse_balance
positive_lem c s h = let e = no_minus c s h in rw (e.0, e.1) refl

parse_balance-decimal :
    (negative : Bool) (whole fraction : Bytes)
    → is_unsigned whole ≡ true
    → parse_balance (written negative whole fraction)
      ≡ decimal negative (unsigned_text whole fraction)
parse_balance-decimal true whole fraction w = unfold parse_balance without_minus has_minus in refl
parse_balance-decimal false [] fraction w = absurd (unfold is_unsigned bytes_eq in cc)
parse_balance-decimal false (c ∷ whole) [] w =
    positive_lem c whole (unfold is_unsigned in ground arith)
parse_balance-decimal false (c ∷ whole) (d ∷ fraction) w =
    positive_lem c (whole ++ b'.' ∷ d ∷ fraction) (unfold is_unsigned in ground arith)

-- A decimal number with at most two digits behind the point, zeros behind these left aside, is
-- read as a hundred times its value, or refused if that leaves the 64 bits.
pub parse_balance-written :
    (negative : Bool) (whole fraction minor : Bytes)
    → is_unsigned whole ≡ true
    → all is_digit fraction ≡ true
    → two_digits fraction ≡ some minor
    → parse_balance (written negative whole fraction) ≡ bounded negative (value 0 (whole ++ minor))
parse_balance-written negative whole fraction minor w d h =
    parse_balance-decimal negative whole fraction w
    ∙ decimal-parts negative whole w fraction d
    ∙ rw h (minor_of_lem negative whole minor w (two_digits-digits fraction minor d h))

-- The text of an amount, with two digits behind the point.
abbrev pub cents : ℕ → Bytes
cents n = (b'0' + n % 100 / 10) ∷ (b'0' + n % 10) ∷ []

abbrev pub show_balance : (negative : Bool) → ℕ → Bytes
show_balance negative n = written negative (itoa (n / 100)) (cents n)

-- An amount that is printed with two digits behind the point is read back as itself, and refused
-- exactly if it does not fit into 64 bits.
pub parse_balance-show_balance :
    (negative : Bool) (n : ℕ) → parse_balance (show_balance negative n) ≡ bounded negative n
parse_balance-show_balance negative n =
    parse_balance-written negative (itoa (n / 100)) (cents n) (cents n) (is_unsigned-itoa (n / 100))
      (ground arith) (unfold two_digits in refl)
    ∙ ap (bounded negative)
        (rw (value-append (itoa (n / 100)) (cents n) 0, value-itoa (n / 100)) (omega arith))
