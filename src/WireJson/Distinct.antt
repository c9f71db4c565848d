-- ===== src/WireJson/Distinct.antt =====
-- The check of `validateValue` against its meaning: no object, at any depth, has a name twice.
use ipgw_meta.Prelude.{arith, ◌≡◌, ◌≢◌, ◌↔◌, refl, true, false, List, [], ◌∷◌}
use ipgw_meta.Text.{Bytes}
use ipgw_meta.Text.Laws.{bytes_eq_iff}
use ipgw_meta.WireJson.{
  Json, null, boolean, number, text, array, object, Elems, no_elems, elem, Fields, no_fields, field,
  seen_before, validate_value, validate_elems, validate_fields,
}

-- A name that no field has.
abbrev pub NotNamed : Bytes → Fields → Type 0
NotNamed name no_fields = Unit
NotNamed name (field key j fs) = (name ≢ key) × NotNamed name fs

-- Every two fields of an object have different names, and so in the values.
unfoldable mutual
  pub Distinct : Json → Type 0
  Distinct null = Unit
  Distinct (boolean b) = Unit
  Distinct (number n) = Unit
  Distinct (text s) = Unit
  Distinct (array es) = AllDistinct es
  Distinct (object fs) = DistinctFields fs

  pub AllDistinct : Elems → Type 0
  AllDistinct no_elems = Unit
  AllDistinct (elem j es) = Distinct j × AllDistinct es

  pub DistinctFields : Fields → Type 0
  DistinctFields no_fields = Unit
  DistinctFields (field key j fs) = NotNamed key fs × Distinct j × DistinctFields fs

-- No field has one of the names.
abbrev NoneNamed : List Bytes → Fields → Type 0
NoneNamed [] fs = Unit
NoneNamed (s ∷ seen) fs = NotNamed s fs × NoneNamed seen fs

NoneNamed-no_fields : (seen : List Bytes) → NoneNamed seen no_fields
NoneNamed-no_fields [] = tt
NoneNamed-no_fields (s ∷ seen) = (tt, NoneNamed-no_fields seen)

NoneNamed-seen :
    (key : Bytes) (seen : List Bytes) (j : Json) (fs : Fields)
    → NoneNamed seen (field key j fs)
    → (seen_before key seen ≡ false) × NoneNamed seen fs
NoneNamed-seen key [] j fs h = (refl, tt)
NoneNamed-seen key (s ∷ seen) j fs ((ne, here), rest) =
    let ih = NoneNamed-seen key seen j fs rest in
    (ground (arith, bytes_eq_iff key s, ih.0), (here, ih.1))

NoneNamed-field :
    (key : Bytes) (seen : List Bytes) (j : Json) (fs : Fields)
    → seen_before key seen ≡ false
    → NoneNamed seen fs
    → NoneNamed seen (field key j fs)
NoneNamed-field key [] j fs h n = tt
NoneNamed-field key (s ∷ seen) j fs h (here, rest) = (
  ((λ e. ground (arith, bytes_eq_iff key s, e)), here),
  NoneNamed-field key seen j fs (ground arith) rest,
)

mutual
  unfolding validate_value Distinct

  value→Distinct : (j : Json) → validate_value j ≡ true → Distinct j
  value→Distinct null h = tt
  value→Distinct (boolean b) h = tt
  value→Distinct (number n) h = tt
  value→Distinct (text s) h = tt
  value→Distinct (array es) h = elems→Distinct es h
  value→Distinct (object fs) h = (fields→Distinct [] fs h).0

  elems→Distinct : (es : Elems) → validate_elems es ≡ true → AllDistinct es
  elems→Distinct no_elems h = tt
  elems→Distinct (elem j es) h = (value→Distinct j (ground arith), elems→Distinct es (ground arith))

  fields→Distinct :
      (seen : List Bytes) (fs : Fields)
      → validate_fields seen fs ≡ true
      → DistinctFields fs × NoneNamed seen fs
  fields→Distinct seen no_fields h = (tt, NoneNamed-no_fields seen)
  fields→Distinct seen (field key j fs) h =
      let ih = fields→Distinct (key ∷ seen) fs (ground arith) in
      let new : seen_before key seen ≡ false = ground arith in
      ((ih.1.0, value→Distinct j (ground arith), ih.0), NoneNamed-field key seen j fs new (ih.1.1))

mutual
  unfolding validate_value Distinct

  Distinct→value : (j : Json) → Distinct j → validate_value j ≡ true
  Distinct→value null h = refl
  Distinct→value (boolean b) h = refl
  Distinct→value (number n) h = refl
  Distinct→value (text s) h = refl
  Distinct→value (array es) h = Distinct→elems es h
  Distinct→value (object fs) h = Distinct→fields [] fs h tt

  Distinct→elems : (es : Elems) → AllDistinct es → validate_elems es ≡ true
  Distinct→elems no_elems h = refl
  Distinct→elems (elem j es) (h, t) = rw (Distinct→value j h) (Distinct→elems es t)

  Distinct→fields :
      (seen : List Bytes) (fs : Fields)
      → DistinctFields fs
      → NoneNamed seen fs
      → validate_fields seen fs ≡ true
  Distinct→fields seen no_fields h n = refl
  Distinct→fields seen (field key j fs) (ne, d, ds) n =
      let new = NoneNamed-seen key seen j fs n in
      rw (new.0, Distinct→value j d) (Distinct→fields (key ∷ seen) fs ds (ne, new.1))

-- A JSON value passes the check for duplicate names, which walks the value with the names seen so
-- far, exactly if no object in it, at any depth, has two fields with one name.
pub validate_value_iff : (j : Json) → (validate_value j ≡ true) ↔ Distinct j
validate_value_iff j = (value→Distinct j, Distinct→value j)
