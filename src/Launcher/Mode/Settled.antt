-- ===== src/Launcher/Mode/Settled.antt =====
-- After `extractMode` the arguments hold no mode flag that a second run would see.
use mathlib.Core.List.{append_assoc, append-nil}
use ipgw_meta.Prelude.{
  ◌≡◌, ◌∙◌, Option, none, List, [], ◌∷◌, ◌++◌, Option-cases, Bool-cases, inl, inr, arith,
}
use ipgw_meta.Prelude.Results.{Result, ok, err}
use ipgw_meta.Text.{Bytes, bytes_eq, has_prefix, strip_prefix}
use ipgw_meta.Launcher.Mode.{
  Mode, FailureKind, terminator, mode_flag, mode_assign, select, extract_from, extract_mode,
}
use ipgw_meta.Launcher.Mode.Laws.{IsPlain, extract_from-plain_one}

-- What a run forwards: more arguments behind those it had, in which a further run finds no mode.
pub record Forwarded (remaining out : List Bytes) : Type 0 where
  pub tail : List Bytes
  pub appended : out ≡ remaining ++ tail
  pub settled : (r : List Bytes) → extract_from tail r none ≡ ok (none, r ++ tail)

push_plain :
    (a : Bytes) (remaining out : List Bytes)
    → IsPlain a
    → Forwarded (remaining ++ (a ∷ [])) out
    → Forwarded remaining out
push_plain a remaining out h f = record {
  tail = a ∷ f.tail;
  appended = f.appended ∙ rw append_assoc;
  settled =
      λ r. extract_from-plain_one a f.tail r none h ∙ f.settled (r ++ (a ∷ [])) ∙ rw append_assoc;
}

-- A run that stops here forwards all that is left.
stop_eq :
    (tail remaining out : List Bytes) (sel sel' : Option Mode)
    → ((r : List Bytes) → extract_from tail r none ≡ ok (none, r ++ tail))
    → ◌≡◌ {A = Result FailureKind (Option Mode × List Bytes)}
        (ok (sel, remaining ++ tail))
        (ok (sel', out))
    → Forwarded remaining out
stop_eq tail remaining out sel sel' h e = record {
  tail = tail;
  appended = ground arith;
  settled = h;
}

-- A value that selects a mode leaves nothing behind.
after_select :
    (args : List Bytes) (r : Result FailureKind (Option Mode)) (remaining out : List Bytes)
    (sel' : Option Mode)
    → ((sel : Option Mode)
        → extract_from args remaining sel ≡ ok (sel', out)
        → Forwarded remaining out)
    → ◌≡◌ {A = Result FailureKind (Option Mode × List Bytes)}
        (elim r [ err e ↦ err e | ok chosen ↦ extract_from args remaining chosen ])
        (ok (sel', out))
    → Forwarded remaining out
after_select args (err e) remaining out sel' k h = absurd (cc)
after_select args (ok chosen) remaining out sel' k h = k chosen h

extract_from-Forwarded_nil :
    (remaining out : List Bytes) (sel sel' : Option Mode)
    → extract_from [] remaining sel ≡ ok (sel', out)
    → Forwarded remaining out
unfolding extract_from
extract_from-Forwarded_nil remaining out sel sel' h =
    stop_eq [] remaining out sel sel' (λ r. rw append-nil) (rw append-nil h)

pub extract_from-Forwarded :
    (args remaining out : List Bytes) (sel sel' : Option Mode)
    → extract_from args remaining sel ≡ ok (sel', out)
    → Forwarded remaining out
unfolding extract_from
extract_from-Forwarded [] remaining out sel sel' h =
    extract_from-Forwarded_nil remaining out sel sel' h
extract_from-Forwarded (a ∷ []) remaining out sel sel' h =
    elim (Bool-cases (bytes_eq a terminator)) [
      | inl t ↦ stop_eq (a ∷ []) remaining out sel sel' (λ r. rw t) (rw t at h)
      | inr t ↦ elim (Bool-cases (bytes_eq a mode_flag)) [
        | inl f ↦ absurd (let h' = rw (t, f) at h in cc h')
        | inr f ↦ elim (Option-cases (strip_prefix a mode_assign)) [
          | inl n ↦ stop_eq (a ∷ []) remaining out sel sel' (λ r. rw (t, f, n)) (rw (t, f, n) at h)
          | inr (raw, e) ↦
              after_select [] (select sel raw) remaining out sel'
                (λ c k. extract_from-Forwarded_nil remaining out c sel' k) (rw (t, f, e) at h)
        ]
      ]
    ]
extract_from-Forwarded (a ∷ b ∷ rest) remaining out sel sel' h =
    elim (Bool-cases (bytes_eq a terminator)) [
      | inl t ↦ stop_eq (a ∷ b ∷ rest) remaining out sel sel' (λ r. rw t) (rw t at h)
      | inr t ↦ elim (Bool-cases (bytes_eq a mode_flag)) [
        | inl f ↦ elim (Bool-cases (has_prefix b terminator)) [
          | inl p ↦ absurd (let h' = rw (t, f, p) at h in cc h')
          | inr p ↦
              after_select rest (select sel b) remaining out sel'
                (λ c k. extract_from-Forwarded rest remaining out c sel' k) (rw (t, f, p) at h)
        ]
        | inr f ↦ elim (Option-cases (strip_prefix a mode_assign)) [
          | inl n ↦
              push_plain a remaining out
                (record { not_terminator = t; not_flag = f; not_assign = n })
                (extract_from-Forwarded (b ∷ rest) (remaining ++ (a ∷ [])) out sel sel'
                  (rw (t, f, n) at h))
          | inr (raw, e) ↦
              after_select (b ∷ rest) (select sel raw) remaining out sel'
                (λ c k. extract_from-Forwarded (b ∷ rest) remaining out c sel' k)
                (rw (t, f, e) at h)
        ]
      ]
    ]

-- The arguments that `extractMode` hands on hold no mode flag any more: a second run returns them
-- as they are, and finds no mode.
pub extract_mode-extract_mode :
    (args remaining : List Bytes) (mode : Option Mode)
    → extract_mode args ≡ ok (mode, remaining)
    → extract_mode remaining ≡ ok (none, remaining)
unfolding extract_mode
extract_mode-extract_mode args remaining mode h =
    let f = extract_from-Forwarded args [] remaining none mode h in rw f.appended (f.settled [])
