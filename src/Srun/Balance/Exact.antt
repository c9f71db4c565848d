-- ===== src/Srun/Balance/Exact.antt =====
-- What a balance text says and what `parse_balance` makes of it, in both directions.
use ipgw_meta.Prelude.{
  arith, ℕ, ◌*◌, ◌^◌, ◌≡◌, refl, sym, ◌∙◌, Bool, true, false, Option-cases, Option, none, some, [],
  ◌∷◌, ◌++◌, length, all, Bool-cases, inl, inr, ◌==◌, if◌then◌else◌, all-append,
}
use ipgw_meta.Prelude.Int.{ℤ, signed}
use ipgw_meta.Text.{Bytes, codes, bytes_eq, cut}
use ipgw_meta.Text.Laws.{append-cut}
use ipgw_meta.Text.Decimal.{is_digit, value, is_unsigned, bounded, fits_int64}
use ipgw_meta.Text.Decimal.Laws.{value-append}
use ipgw_meta.Srun.Balance.Laws.{parse_int64-minor_digits, two_digits-exact}
use ipgw_meta.Srun.Balance.{
  without_minus, has_minus, is_decimal, two_digits, minor_of, parse_parts, parse_balance,
}

-- A number as it is written: digits, and a point with the fraction if there is one.
abbrev pub unsigned_text : Bytes → Bytes → Bytes
unsigned_text whole [] = whole
unsigned_text whole (d ∷ fraction) = whole ++ b'.' ∷ d ∷ fraction

abbrev pub written : (negative : Bool) → Bytes → Bytes → Bytes
written false whole fraction = unsigned_text whole fraction
written true whole fraction = b'-' ∷ unsigned_text whole fraction

-- The text is a decimal number, and the integer is a hundred times that number, in 64 bits.
pub record Reads (text : Bytes) (minor : ℤ) : Type 0 where
  pub negative : Bool
  pub whole : Bytes
  pub fraction : Bytes
  pub size : ℕ
  pub shown : text ≡ written negative whole fraction
  pub has_digit : is_unsigned whole ≡ true
  pub digits : all is_digit fraction ≡ true
  pub exact : 100 * value 0 (whole ++ fraction) ≡ size * 10 ^ length fraction
  pub result : minor ≡ signed negative size
  pub fits : fits_int64 negative size ≡ true

pub two_digits-digits :
    (fraction minor : Bytes)
    → all is_digit fraction ≡ true
    → two_digits fraction ≡ some minor
    → all is_digit minor ≡ true
unfolding two_digits
two_digits-digits [] minor d h = let e : minor ≡ codes "00" = ground arith in rw e refl
two_digits-digits (a ∷ []) minor d h =
    let e : minor ≡ a ∷ b'0' ∷ [] = ground arith in rw e (ground arith)
two_digits-digits (a ∷ b ∷ rest) minor d h =
    let e : minor ≡ a ∷ b ∷ [] = ground arith in rw e (ground arith)

bounded-some :
    (negative : Bool) (n : ℕ) (z : ℤ)
    → bounded negative n ≡ some z
    → (z ≡ signed negative n) × (fits_int64 negative n ≡ true)
unfolding bounded
bounded-some negative n z h = ground arith

-- The digits are read as the number that they spell.
pub minor_of_lem :
    (negative : Bool) (whole minor : Bytes)
    → is_unsigned whole ≡ true
    → all is_digit minor ≡ true
    → minor_of negative whole (some minor) ≡ bounded negative (value 0 (whole ++ minor))
unfolding minor_of is_unsigned
minor_of_lem negative whole minor w m =
    parse_int64-minor_digits negative (whole ++ minor)
      (ground (arith, all-append is_digit whole minor))

module _ (negative : Bool) (whole fraction minor : Bytes) (w : is_unsigned whole ≡ true)
    (d : all is_digit fraction ≡ true) (h : two_digits fraction ≡ some minor) where
  read_parts :
      minor_of negative whole (two_digits fraction) ≡ bounded negative (value 0 (whole ++ minor))
  read_parts = rw h (minor_of_lem negative whole minor w (two_digits-digits fraction minor d h))

  scaled : 100 * value 0 (whole ++ fraction) ≡ value 0 (whole ++ minor) * 10 ^ length fraction
  scaled =
      rw (value-append whole fraction 0, value-append whole minor 0)
        (two_digits-exact (value 0 whole) fraction minor h)

record Parts (negative : Bool) (u : Bytes) (z : ℤ) : Type 0 where
  whole : Bytes
  fraction : Bytes
  shown : u ≡ unsigned_text whole fraction
  has_digit : is_unsigned whole ≡ true
  digits : all is_digit fraction ≡ true
  read : minor_of negative whole (two_digits fraction) ≡ some z

Parts-read :
    (negative : Bool) (u : Bytes) (z : ℤ) (parts : Option (Bytes × Bytes))
    → cut b'.' u ≡ parts
    → is_decimal parts u ≡ true
    → parse_parts negative u parts ≡ some z
    → Parts negative u z
unfolding is_decimal parse_parts
Parts-read negative u z none c d h = record {
  whole = u;
  fraction = [];
  shown = refl;
  has_digit = d;
  digits = refl;
  read = h;
}
Parts-read negative u z (some (whole, [])) c d h =
    absurd (unfold is_unsigned bytes_eq in ground arith)
Parts-read negative u z (some (whole, x ∷ fraction)) c d h = record {
  whole = whole;
  fraction = x ∷ fraction;
  shown = append-cut b'.' u whole (x ∷ fraction) c;
  has_digit = ground arith;
  digits = unfold is_unsigned in ground arith;
  read = h;
}

Parts-Reads :
    (negative : Bool) (s u : Bytes) (z : ℤ)
    → ((w f : Bytes) → u ≡ unsigned_text w f → s ≡ written negative w f)
    → Parts negative u z
    → Reads s z
Parts-Reads negative s u z shape p = elim (Option-cases (two_digits p.fraction)) [
  | inl e ↦ absurd (unfold minor_of in (let q = rw e at (p.read) in cc))
  | inr (minor, e) ↦
      let b =
        bounded-some negative (value 0 (p.whole ++ minor)) z
          (sym (read_parts negative p.whole p.fraction minor p.has_digit p.digits e) ∙ p.read) in
      record {
        negative = negative;
        whole = p.whole;
        fraction = p.fraction;
        size = value 0 (p.whole ++ minor);
        shown = shape p.whole p.fraction p.shown;
        has_digit = p.has_digit;
        digits = p.digits;
        exact = scaled negative p.whole p.fraction minor p.has_digit p.digits e;
        result = b.0;
        fits = b.1;
      }
]

decimal_Parts :
    (negative : Bool) (u : Bytes) (z : ℤ)
    → (if is_decimal (cut b'.' u) u then parse_parts negative u (cut b'.' u) else none) ≡ some z
    → Parts negative u z
decimal_Parts negative u z h = elim (Bool-cases (is_decimal (cut b'.' u) u)) [
  | inl e ↦ Parts-read negative u z (cut b'.' u) refl e (rw e at h)
  | inr e ↦ absurd (ground arith)
]

-- A balance that is read is the text's number, exactly: the text is an optional minus, digits and
-- an optional point with digits behind it, the result is a hundred times that number, and it fits
-- into 64 bits.
pub parse_balance_exact : (s : Bytes) (z : ℤ) → parse_balance s ≡ some z → Reads s z
unfolding parse_balance without_minus has_minus
parse_balance_exact [] z h = Parts-Reads false [] [] z (λ w f e. e) (decimal_Parts false [] z h)
parse_balance_exact (c ∷ s) z h = elim (Bool-cases (c == b'-')) [
  | inl e ↦
      Parts-Reads true (c ∷ s) s z (λ w f shown. ground (arith, shown))
        (decimal_Parts true s z (rw e at h))
  | inr e ↦
      Parts-Reads false (c ∷ s) (c ∷ s) z (λ w f shown. shown)
        (decimal_Parts false (c ∷ s) z (rw e at h))
]
