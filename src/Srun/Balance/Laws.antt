-- ===== src/Srun/Balance/Laws.antt =====
-- The balance is read exactly, and without overflow.
use ipgw_meta.Prelude.{
  arith, ℕ, suc, ◌+◌, ◌*◌, ◌^◌, ◌≡◌, refl, ◌∙◌, ap, Bool, true, false, not, ◌&&◌, some, [], ◌∷◌,
  length, all, Bool-cases, inl, inr, ◌==◌, if◌then◌else◌,
}
use native.Mathlib.Nat.{pow-suc}
use ipgw_meta.Text.{Bytes, codes, bytes_eq}
use ipgw_meta.Text.Decimal.{is_digit, value, is_unsigned, bounded, parse_int64}
use ipgw_meta.Srun.Balance.{two_digits, trim_zeros, minor_digits}

value-trim_zeros : (s : Bytes) → value 0 (trim_zeros s) ≡ value 0 s
unfolding trim_zeros
value-trim_zeros [] = refl
value-trim_zeros (c ∷ s) = elim (Bool-cases (c == b'0')) [
  | inl e ↦ rw e (value-trim_zeros s ∙ ap (λ (k : ℕ). value k s) (ground arith))
  | inr e ↦ rw e refl
]

all-trim_zeros : (s : Bytes) → all is_digit s ≡ true → all is_digit (trim_zeros s) ≡ true
unfolding trim_zeros
all-trim_zeros [] h = refl
all-trim_zeros (c ∷ s) h = ground (arith, all-trim_zeros s)

-- A text of digits whose first one is not zero.
abbrev LeadsWell : Bytes → Type 0
LeadsWell [] = Unit
LeadsWell (c ∷ s) = (c == b'0') ≡ false

trim_zeros-LeadsWell : (s : Bytes) → LeadsWell (trim_zeros s)
unfolding trim_zeros
trim_zeros-LeadsWell [] = tt
trim_zeros-LeadsWell (c ∷ s) = elim (Bool-cases (c == b'0')) [
  | inl e ↦ rw e (trim_zeros-LeadsWell s)
  | inr e ↦ rw e e
]

-- `strconv.ParseInt` of digits, and of a minus before them.
pub parse_int64-digits :
    (s : Bytes) → is_unsigned s ≡ true → parse_int64 s ≡ bounded false (value 0 s)
unfolding parse_int64 is_unsigned bytes_eq
parse_int64-digits [] h = absurd (cc)
parse_int64-digits (c ∷ s) h = ground arith

parse_int64-minus :
    (s : Bytes) → is_unsigned s ≡ true → parse_int64 (b'-' ∷ s) ≡ bounded true (value 0 s)
unfolding parse_int64
parse_int64-minus s h = rw h refl

signed_digits : Bool → Bytes → Bytes
signed_digits negative trimmed =
    let digits = if bytes_eq trimmed [] then codes "0" else trimmed in
    if negative && not (bytes_eq digits (codes "0")) then b'-' ∷ digits else digits

parse_int64-signed_digits :
    (negative : Bool) (s : Bytes)
    → LeadsWell s
    → all is_digit s ≡ true
    → parse_int64 (signed_digits negative s) ≡ bounded negative (value 0 s)
unfolding signed_digits bytes_eq
parse_int64-signed_digits true [] l h = unfold parse_int64 in refl
parse_int64-signed_digits false [] l h = unfold parse_int64 in refl
parse_int64-signed_digits true (c ∷ s) l h =
    rw l (parse_int64-minus (c ∷ s) (unfold is_unsigned in h))
parse_int64-signed_digits false (c ∷ s) l h = parse_int64-digits (c ∷ s) (unfold is_unsigned in h)

-- `strconv.ParseInt` of the trimmed digits is the bounded value of the digits.
pub parse_int64-minor_digits :
    (negative : Bool) (s : Bytes)
    → all is_digit s ≡ true
    → parse_int64 (minor_digits negative s) ≡ bounded negative (value 0 s)
unfolding minor_digits signed_digits
parse_int64-minor_digits negative s h =
    parse_int64-signed_digits negative (trim_zeros s) (trim_zeros-LeadsWell s) (all-trim_zeros s h)
    ∙ ap (bounded negative) (value-trim_zeros s)

ten_times : (n p : ℕ) → (n * 10 + 0) * p ≡ n * (p * 10)
ten_times n p = grind arith

hundred_times : (n p : ℕ) → 100 * (n * p) ≡ n * (p * 10 * 10)
hundred_times n p = grind arith

-- Zeros behind a number multiply it.
value-zeros : (n : ℕ) (s : Bytes) → all (λ d. d == b'0') s ≡ true → value n s ≡ n * 10 ^ length s
value-zeros n [] h = omega arith
value-zeros n (c ∷ s) h =
    let zero_first : c ≡ b'0' = ground arith in
    let rest : all (λ d. d == b'0') s ≡ true = ground arith in
    rw zero_first
      (value-zeros (n * 10 + 0) s rest ∙ rw (pow-suc 10 (length s)) (ten_times n (10 ^ length s)))

-- Two digits stand for the whole fraction.
pub two_digits-exact :
    (v : ℕ) (fraction minor : Bytes)
    → two_digits fraction ≡ some minor
    → 100 * value v fraction ≡ value v minor * 10 ^ length fraction
unfolding two_digits
two_digits-exact v [] minor h = let e : minor ≡ codes "00" = ground arith in rw e (omega arith)
two_digits-exact v (a ∷ []) minor h =
    let e : minor ≡ a ∷ b'0' ∷ [] = ground arith in rw e (omega arith)
two_digits-exact v (a ∷ b ∷ rest) minor h =
    let zeros : all (λ d. d == b'0') rest ≡ true = ground arith in
    let e : minor ≡ a ∷ b ∷ [] = ground arith in
    rw e (
      rw
        (
          value-zeros (value v (a ∷ b ∷ [])) rest zeros,
          pow-suc 10 (suc (length rest)),
          pow-suc 10 (length rest),
        )
        (hundred_times (value v (a ∷ b ∷ [])) (10 ^ length rest)))
