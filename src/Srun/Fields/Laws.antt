-- ===== src/Srun/Fields/Laws.antt =====
-- Fields under several names: what they agree on; and the ranges of the numbers.
use ipgw_meta.Prelude.{
  arith, ℕ, zero, suc, ◌≤◌, ◌≡◌, ◌⊎◌, ◌≢◌, refl, sym, ap, ◌∙◌, Bool, true, false, Option, none,
  some, List, [], ◌∷◌, inl, inr, Option-cases, All,
}
use ipgw_meta.Prelude.Int.{ℤ, pos, negsuc, signed}
use ipgw_meta.Text.{Bytes}
use ipgw_meta.Text.Decimal.{max_int64, fits_int64, parse_int64, bounded, is_unsigned}
use ipgw_meta.WireJson.{Json, Object, raw}
use ipgw_meta.Srun.Balance.{parse_balance}
use ipgw_meta.Srun.Balance.Laws.{parse_int64-digits}
use ipgw_meta.Srun.Balance.Exact.{parse_balance_exact}
use ipgw_meta.Srun.Fields.{
  aliased, aliased_from, alias_step, agreeing, size_of, parse_non_negative, decimal_scalar,
  non_negative_field, balance_field,
}

module _ {T : Type 0} (parse : Json → Option T) (obj : Object) where
  -- A name that is absent, or whose value is read as `v`.
  abbrev pub Says : T → Bytes → Type 0
  Says v name = (raw name obj ≡ none) ⊎ ((j : Json) × (raw name obj ≡ some j) × (parse j ≡ some v))

  abbrev pub Present : List Bytes → Type 0
  Present [] = ⊥
  Present (name ∷ names) = ((j : Json) × (raw name obj ≡ some j)) ⊎ Present names

  abbrev pub Absent : List Bytes → Type 0
  Absent [] = Unit
  Absent (name ∷ names) = (raw name obj ≡ none) × Absent names

-- What the names before said: nothing, or this value.
abbrev Said : {T : Type 0} → Option T → T → Type 0
Said none v = Unit
Said (some r) v = r ≡ v

module _ {T : Type 0} (same : T → T → Bool) (sound : (a b : T) → same a b ≡ true → a ≡ b)
    (parse : Json → Option T) (obj : Object) where
  agreeing-eq :
      (v : T) (result : Option T) (w : T)
      → agreeing same v result ≡ some w
      → (w ≡ v) × Said result v
  unfolding agreeing
  agreeing-eq v none w h = (ground arith, tt)
  agreeing-eq v (some r) w h = ground (arith, sound r v)

  alias_step-eq :
      (name : Bytes) (o : Option Json) (result r : Option T) (v : T)
      → raw name obj ≡ o
      → alias_step same parse obj result o ≡ some r
      → Said r v
      → Says parse obj v name × Said result v
  unfolding alias_step
  alias_step-eq name none result r v e h s = (inl e, (let q : result ≡ r = cc in rw q s))
  alias_step-eq name (some j) result r v e h s = elim (Option-cases (parse j)) [
    | inl p ↦ absurd (ground (arith, p))
    | inr (w, p) ↦ elim (Option-cases (agreeing same w result)) [
      | inl a ↦ absurd (ground (arith, p, a))
      | inr (u, a) ↦
          let agreed = agreeing-eq w result u a in
          let q : r ≡ some u = ground (arith, p, a) in
          let seen : Said (some u) v = rw q at s in
          let same_value : w ≡ v = sym (agreed.0) ∙ seen in
          (inr (j, e, p ∙ ap some same_value), rw same_value at (agreed.1))
    ]
  ]

  pub aliased_from-eq :
      (names : List Bytes) (result : Option T) (v : T)
      → aliased_from same parse obj result names ≡ some (some v)
      → All (Says parse obj v) names × Said result v
  unfolding aliased_from
  aliased_from-eq [] none v h = absurd (cc)
  aliased_from-eq [] (some r) v h = (tt, ground arith)
  aliased_from-eq (name ∷ names) result v h =
      elim (Option-cases (alias_step same parse obj result (raw name obj))) [
        | inl a ↦ absurd (ground (arith, a))
        | inr (r, a) ↦
            let rest = aliased_from-eq names r v (ground (arith, a)) in
            let here = alias_step-eq name (raw name obj) result r v refl a (rest.1) in
            ((here.0, rest.0), here.1)
      ]

  -- Where a field with several names has a value, each of the names is absent or has this value.
  pub aliased-eq :
      (names : List Bytes) (v : T)
      → aliased same parse obj names ≡ some (some v)
      → All (Says parse obj v) names
  unfolding aliased
  aliased-eq names v h = (aliased_from-eq names none v h).0

  aliased_from-Present :
      (names : List Bytes) (v : T)
      → aliased_from same parse obj none names ≡ some (some v)
      → Present parse obj names
  unfolding aliased_from alias_step
  aliased_from-Present [] v h = absurd (cc)
  aliased_from-Present (name ∷ names) v h = elim (Option-cases (raw name obj)) [
    | inl e ↦ inr (aliased_from-Present names v (ground (arith, e)))
    | inr (j, e) ↦ inl (j, e)
  ]

  pub aliased-Present :
      (names : List Bytes) (v : T)
      → aliased same parse obj names ≡ some (some v)
      → Present parse obj names
  unfolding aliased
  aliased-Present names v h = aliased_from-Present names v h

  alias_step-ne-none :
      (result : Option T) (j : Json) → alias_step same parse obj result (some j) ≢ some none
  unfolding alias_step
  alias_step-ne-none result j h = ground arith

  aliased_from-Absent :
      (names : List Bytes) (result : Option T)
      → aliased_from same parse obj result names ≡ some none
      → (result ≡ none) × Absent parse obj names
  unfolding aliased_from
  aliased_from-Absent [] result h = (ground arith, tt)
  aliased_from-Absent (name ∷ names) result h = elim (Option-cases (raw name obj)) [
    | inl e ↦
        let rest = aliased_from-Absent names result (ground (arith, e)) in (rest.0, (e, rest.1))
    | inr (j, e) ↦ elim (Option-cases (alias_step same parse obj result (some j))) [
      | inl a ↦ absurd (ground (arith, e, a))
      | inr (r, a) ↦
          let rest = aliased_from-Absent names r (ground (arith, e, a)) in
          absurd (alias_step-ne-none result j (a ∙ ap some (rest.0)))
    ]
  ]

  -- A field is absent where each of its names is.
  pub aliased-Absent :
      (names : List Bytes) → aliased same parse obj names ≡ some none → Absent parse obj names
  unfolding aliased
  aliased-Absent names h = (aliased_from-Absent names none h).1

-- The ranges of the numbers.
parse_int64-le :
    (s : Bytes) (n : ℕ) → is_unsigned s ≡ true → parse_int64 s ≡ some (pos n) → n ≤ max_int64
parse_int64-le s n u h = unfold bounded fits_int64 in ground (arith, parse_int64-digits s u, h)

pub parse_non_negative-le : (s : Bytes) (n : ℕ) → parse_non_negative s ≡ some n → n ≤ max_int64
unfolding parse_non_negative size_of
parse_non_negative-le s n h = grind (arith, parse_int64-le)

pub non_negative_field-le : (j : Json) (n : ℕ) → non_negative_field j ≡ some n → n ≤ max_int64
unfolding non_negative_field
non_negative_field-le j n h = grind (arith, parse_non_negative-le)

pub Present-value :
    {T : Type 0} (parse : Json → Option T) (obj : Object) (names : List Bytes) (v : T)
    → Present parse obj names
    → All (Says parse obj v) names
    → (j : Json) × (parse j ≡ some v)
Present-value parse obj [] v p says = absurd p
Present-value parse obj (name ∷ names) v (inl (j, here)) (inl absent, rest) = absurd (cc)
Present-value parse obj (name ∷ names) v (inl (j, here)) (inr (j', there, e), rest) = (j', e)
Present-value parse obj (name ∷ names) v (inr p) (said, rest) =
    Present-value parse obj names v p rest

abbrev pub InInt64 : ℤ → Type 0
InInt64 (pos n) = n ≤ max_int64
InInt64 (negsuc n) = n ≤ max_int64

signed-InInt64 :
    (negative : Bool) (n : ℕ) → fits_int64 negative n ≡ true → InInt64 (signed negative n)
unfolding fits_int64
signed-InInt64 false n h = ground arith
signed-InInt64 true zero h = omega arith
signed-InInt64 true (suc n) h = ground arith

pub parse_balance-InInt64 : (s : Bytes) (z : ℤ) → parse_balance s ≡ some z → InInt64 z
parse_balance-InInt64 s z h =
    let r = parse_balance_exact s z h in rw (r.result) (signed-InInt64 r.negative r.size r.fits)

pub balance_field-InInt64 : (j : Json) (z : ℤ) → balance_field j ≡ some z → InInt64 z
unfolding balance_field
balance_field-InInt64 j z h = elim (Option-cases (decimal_scalar j)) [
  | inl e ↦ absurd (ground arith)
  | inr (s, e) ↦ parse_balance-InInt64 s z (ground arith)
]
