-- ===== src/Text/Decimal/Laws.antt =====
-- Decimal numbers: what printing and reading give, and what leading zeros do.
use ipgw_meta.Prelude.{
  arith, ℕ, zero, suc, ◌+◌, ◌-◌, ◌*◌, ◌/◌, ◌%◌, ◌<◌, ◌≡◌, refl, ◌∙◌, ap, true, false, [], ◌∷◌, ◌++◌,
  all, Bool-cases, inl, inr, ltb,
}
use ipgw_meta.Text.{Bytes, bytes_eq, contains_byte}
use ipgw_meta.Text.Decimal.{is_digit, value, digits_from, itoa, is_unsigned}

pub value-append : (s t : Bytes) (n : ℕ) → value n (s ++ t) ≡ value (value n s) t
value-append [] t n = refl
value-append (c ∷ s) t n = value-append s t (n * 10 + (c - b'0'))

-- Printing a number and reading its digits gives the number.
value-digits_from : (f n : ℕ) (acc : Bytes) → n < f → value 0 (digits_from f n acc) ≡ value n acc
unfolding digits_from
value-digits_from zero n acc h = absurd (omega arith)
value-digits_from (suc f) n acc h = elim (Bool-cases (ltb n 10)) [
  | inl e ↦ rw e (ap (λ (k : ℕ). value k acc) (ground arith))
  | inr e ↦ rw e (
      value-digits_from f (n / 10) ((b'0' + n % 10) ∷ acc) (ground arith)
      ∙ ap (λ (k : ℕ). value k acc) (omega arith))
]

digits_from-all :
    (f n : ℕ) (acc : Bytes) → all is_digit acc ≡ true → all is_digit (digits_from f n acc) ≡ true
unfolding digits_from
digits_from-all zero n acc h = h
digits_from-all (suc f) n acc h =
    let here : all is_digit ((b'0' + n % 10) ∷ acc) ≡ true = ground arith in
    elim (Bool-cases (ltb n 10)) [
      | inl e ↦ rw e here
      | inr e ↦ rw e (digits_from-all f (n / 10) ((b'0' + n % 10) ∷ acc) here)
    ]

digits_from-eq_nil :
    (f n : ℕ) (acc : Bytes) → bytes_eq acc [] ≡ false → bytes_eq (digits_from f n acc) [] ≡ false
unfolding digits_from bytes_eq
digits_from-eq_nil zero n acc h = h
digits_from-eq_nil (suc f) n acc h = elim (Bool-cases (ltb n 10)) [
  | inl e ↦ rw e refl
  | inr e ↦ rw e (digits_from-eq_nil f (n / 10) ((b'0' + n % 10) ∷ acc) refl)
]

pub value-itoa : (n : ℕ) → value 0 (itoa n) ≡ n
unfolding itoa
value-itoa n = value-digits_from (suc n) n [] (omega arith)

pub is_unsigned-itoa : (n : ℕ) → is_unsigned (itoa n) ≡ true
unfolding itoa is_unsigned digits_from bytes_eq
is_unsigned-itoa n = elim (Bool-cases (ltb n 10)) [
  | inl e ↦ rw e (ground arith)
  | inr e ↦
      rw
        (
          e,
          digits_from-all n (n / 10) ((b'0' + n % 10) ∷ []) (ground arith),
          digits_from-eq_nil n (n / 10) ((b'0' + n % 10) ∷ []) refl,
        )
        refl
]

-- Digits hold no byte that is not a digit.
pub digits_without :
    (c : ℕ) (s : Bytes) → is_digit c ≡ false → all is_digit s ≡ true → contains_byte c s ≡ false
unfolding contains_byte
digits_without c [] n h = refl
digits_without c (x ∷ s) n h = ground (arith, digits_without c s n)
