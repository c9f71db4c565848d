-- ===== src/Launcher/Version/Laws.antt =====
-- Laws of the version request.
use ipgw_meta.Prelude.{◌≡◌, inl, inr, List, [], ◌∷◌, arith, Bool-cases}
use ipgw_meta.Prelude.Results.{Result, ok, err}
use ipgw_meta.Text.{Bytes, bytes_eq, has_prefix}
use ipgw_meta.Launcher.Mode.{FailureKind, invalid_arguments, terminator}
use ipgw_meta.Launcher.Version.{
  Flag, Seen, split_long_flag, takes_value, with_value, without_value, version_from,
}

with_value-err :
    (name value : Bytes) (seen : Seen) (e : FailureKind)
    → with_value name value seen ≡ err e
    → e ≡ invalid_arguments
unfolding with_value
with_value-err name value seen e h = ground arith

without_value-err :
    (flag : Flag) (seen : Seen) (e : FailureKind)
    → without_value flag seen ≡ err e
    → e ≡ invalid_arguments
unfolding without_value
without_value-err flag seen e h = ground arith

then_err :
    (r : Result FailureKind Seen) (k : Seen → Result FailureKind Seen) (e : FailureKind)
    → ((e : FailureKind) → r ≡ err e → e ≡ invalid_arguments)
    → ((seen : Seen) → k seen ≡ err e → e ≡ invalid_arguments)
    → ◌≡◌ {A = Result FailureKind Seen} (elim r [ err e ↦ err e | ok seen ↦ k seen ]) (err e)
    → e ≡ invalid_arguments
then_err (err e') k e h next x = h e x
then_err (ok seen) k e h next x = next seen x

-- A version request fails only as an invalid command line.
pub version_from-err :
    (args : List Bytes) (seen : Seen) (e : FailureKind)
    → version_from args seen ≡ err e
    → e ≡ invalid_arguments
unfolding version_from
version_from-err [] seen e h = absurd (cc)
version_from-err (a ∷ []) seen e h = ground (
  arith,
  with_value-err (split_long_flag a).name (split_long_flag a).value seen e,
  without_value-err (split_long_flag a) seen e,
)
version_from-err (a ∷ b ∷ rest) seen e h = elim (Bool-cases (bytes_eq a terminator)) [
  | inl t ↦ let h' = rw t at h in cc h'
  | inr t ↦ elim (Bool-cases (takes_value flag.name)) [
    | inl v ↦ elim (Bool-cases flag.inline) [
      | inl i ↦
          then_err (with_value flag.name flag.value seen) (version_from (b ∷ rest)) e
            (with_value-err flag.name flag.value seen) (λ s. version_from-err (b ∷ rest) s e)
            (rw (t, v, i) at h)
      | inr i ↦ elim (Bool-cases (has_prefix b terminator)) [
        | inl p ↦ let h' = rw (t, v, i, p) at h in cc h'
        | inr p ↦
            then_err (with_value flag.name b seen) (version_from rest) e
              (with_value-err flag.name b seen) (λ s. version_from-err rest s e)
              (rw (t, v, i, p) at h)
      ]
    ]
    | inr v ↦
        then_err (without_value flag seen) (version_from (b ∷ rest)) e (without_value-err flag seen)
          (λ s. version_from-err (b ∷ rest) s e) (rw (t, v) at h)
  ]
]
  where
    flag : Flag
    flag = split_long_flag a
