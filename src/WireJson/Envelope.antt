-- ===== src/WireJson/Envelope.antt =====
-- The JSONP envelope: what is decoded from a call is what is decoded from its argument.
use ipgw_meta.Prelude.{
  arith, ℕ, ◌≡◌, refl, sym, ap, ◌∙◌, true, false, ◌&&◌, ◌||◌, Option, none, some, [], ◌∷◌, ◌++◌,
  all, leb, ◌==◌, if◌then◌else◌, ◌⊎◌, inl, inr,
}
use mathlib.Core.List.{append_assoc}
use ipgw_meta.Text.{Bytes, codes, contains_byte, trim_space}
use ipgw_meta.Text.Laws.{cut-append}
use ipgw_meta.Text.Trim.{is_plain, trim_space-plain, trim_space-all}
use ipgw_meta.WireJson.{
  valid_callback, callback_initial, cut_last, without_semicolon, bare_object, jsonp_payload,
  payload_of, object_payload,
}

cut_last-append : (s : Bytes) (c : ℕ) → cut_last (s ++ c ∷ []) ≡ some (s, c)
unfolding cut_last
cut_last-append [] c = refl
cut_last-append (x ∷ s) c = rw (cut_last-append s c) refl

callback_tail-plain :
    (s : Bytes)
    → all (λ d. callback_initial d || (leb b'0' d && leb d b'9')) s ≡ true
    → (all is_plain s ≡ true) × (contains_byte b'(' s ≡ false)
unfolding callback_initial contains_byte
callback_tail-plain [] h = (refl, refl)
callback_tail-plain (c ∷ s) h = ground (arith, callback_tail-plain s)

callback-plain :
    (s : Bytes) → valid_callback s ≡ true → (all is_plain s ≡ true) × (contains_byte b'(' s ≡ false)
unfolding valid_callback contains_byte
callback-plain [] h = (refl, refl)
callback-plain (c ∷ s) h = ground (arith, callback_tail-plain s)

-- A call as it is written, and what stands behind it.
abbrev pub call_text : Bytes → Bytes → Bytes → Bytes
call_text callback payload behind = callback ++ (b'(' ∷ (payload ++ (b')' ∷ behind)))

-- `object_payload` gives such a text back as it is.
abbrev pub IsBare : Bytes → Type 0
IsBare payload = (trim_space payload ≡ payload) × (bare_object payload ≡ some payload)

bare_payload : (payload : Bytes) → IsBare payload → object_payload payload ≡ some payload
unfolding object_payload bare_object
bare_payload [] h = absurd (cc)
bare_payload (c ∷ s) (t, b) = rw t (ground arith)

call_of : Option Bytes → Option Bytes
call_of none = none
call_of (some call) = jsonp_payload call

without_semicolon-other :
    (x : Bytes) (d : ℕ) → (d == b';') ≡ false → without_semicolon (x ++ d ∷ []) ≡ some (x ++ d ∷ [])
unfolding without_semicolon
without_semicolon-other x d h = rw (cut_last-append x d, h) refl

without_semicolon-one :
    (x y : Bytes) (e : ℕ)
    → x ≡ y ++ e ∷ []
    → trim_space x ≡ x
    → without_semicolon (x ++ b';' ∷ []) ≡ (if e == b';' then none else some x)
unfolding without_semicolon
without_semicolon-one x y e shape t =
    let last : cut_last x ≡ some (y, e) = rw shape (cut_last-append y e) in
    rw (cut_last-append x b';', t, last) (ap (λ (u : Bytes). if e == b';' then none else some u) t)

trim_call :
    (callback y : Bytes) (d : ℕ)
    → valid_callback callback ≡ true
    → is_plain d ≡ true
    → trim_space ((callback ++ y) ++ d ∷ []) ≡ (callback ++ y) ++ d ∷ []
trim_call [] y d v h = absurd (unfold valid_callback in cc)
trim_call (c ∷ callback) y d v h =
    trim_space-plain c (callback ++ y) d (unfold valid_callback in ground arith) h

payload_of_call :
    (callback y : Bytes)
    → valid_callback callback ≡ true
    → payload_of (callback ++ y) ≡ call_of (without_semicolon (callback ++ y))
unfolding payload_of call_of
payload_of_call [] y v = absurd (unfold valid_callback in cc)
payload_of_call (c ∷ callback) y v =
    let other : (c == b'{') ≡ false = unfold valid_callback in ground arith in rw other refl

jsonp_call :
    (callback payload : Bytes)
    → valid_callback callback ≡ true
    → IsBare payload
    → jsonp_payload (call_text callback payload []) ≡ some payload
unfolding jsonp_payload
jsonp_call [] payload v bare = absurd (unfold valid_callback in cc)
jsonp_call (c ∷ callback) payload v (trimmed, open_brace) =
    let plain = callback-plain (c ∷ callback) v in
    rw
      (
        cut-append b'(' (c ∷ callback) (payload ++ b')' ∷ []) (plain.1),
        trim_space-all (c ∷ callback) (plain.0),
        v,
        cut_last-append payload b')',
        trimmed,
      )
      open_brace

object_payload-of :
    (callback y : Bytes)
    → valid_callback callback ≡ true
    → trim_space (callback ++ y) ≡ callback ++ y
    → object_payload (callback ++ y) ≡ call_of (without_semicolon (callback ++ y))
unfolding object_payload
object_payload-of callback y v trimmed = rw trimmed (payload_of_call callback y v)

module _ (callback payload : Bytes) (v : valid_callback callback ≡ true) where
  abbrev call : Bytes → Bytes
  call behind = call_text callback payload behind

  call-snoc : (x : Bytes) (d : ℕ) → call (x ++ d ∷ []) ≡ call x ++ d ∷ []
  call-snoc x d = sym (
      append_assoc callback (b'(' ∷ (payload ++ (b')' ∷ x))) (d ∷ [])
      ∙ ap (λ (r : Bytes). callback ++ (b'(' ∷ r)) (append_assoc payload (b')' ∷ x) (d ∷ [])))

  call-last : call [] ≡ (callback ++ (b'(' ∷ payload)) ++ b')' ∷ []
  call-last = sym (append_assoc callback (b'(' ∷ payload) (b')' ∷ []))

  trim-call : trim_space (call []) ≡ call []
  trim-call =
      ap trim_space call-last ∙ trim_call callback (b'(' ∷ payload) b')' v refl ∙ sym call-last

  trim-call-snoc : (x : Bytes) → trim_space (call (x ++ b';' ∷ [])) ≡ call (x ++ b';' ∷ [])
  trim-call-snoc x =
      ap trim_space (call-snoc x b';')
      ∙ trim_call callback (b'(' ∷ (payload ++ (b')' ∷ x))) b';' v refl
      ∙ sym (call-snoc x b';')

  semicolon-none : without_semicolon (call []) ≡ some (call [])
  semicolon-none = rw call-last (without_semicolon-other (callback ++ (b'(' ∷ payload)) b')' refl)

  semicolon-one : without_semicolon (call (codes ";")) ≡ some (call [])
  semicolon-one =
      ap without_semicolon (call-snoc [] b';')
      ∙ without_semicolon-one (call []) (callback ++ (b'(' ∷ payload)) b')' call-last trim-call

  object_payload-call :
      (behind : Bytes)
      → trim_space (call behind) ≡ call behind
      → object_payload (call behind) ≡ call_of (without_semicolon (call behind))
  object_payload-call behind t =
      object_payload-of callback (b'(' ∷ (payload ++ (b')' ∷ behind))) v t

-- A JSONP call with an identifier in front of its parentheses, a bare object between them and at
-- most one semicolon behind them has the payload that the object alone has.
pub object_payload-call_text :
    (callback payload behind : Bytes)
    → valid_callback callback ≡ true
    → IsBare payload
    → (behind ≡ []) ⊎ (behind ≡ codes ";")
    → object_payload (call_text callback payload behind) ≡ object_payload payload
unfolding call_of
object_payload-call_text callback payload behind v bare (inl e) = rw e (
    object_payload-call callback payload v [] (trim-call callback payload v)
    ∙ rw (semicolon-none callback payload v)
        (jsonp_call callback payload v bare ∙ sym (bare_payload payload bare)))
object_payload-call_text callback payload behind v bare (inr e) = rw e (
    object_payload-call callback payload v (codes ";") (trim-call-snoc callback payload v [])
    ∙ rw (semicolon-one callback payload v)
        (jsonp_call callback payload v bare ∙ sym (bare_payload payload bare)))

not_bare : (s : Bytes) → bare_object s ≡ none → payload_of s ≡ call_of (without_semicolon s)
unfolding payload_of call_of bare_object without_semicolon cut_last
not_bare [] h = refl
not_bare (c ∷ s) h = let other : (c == b'{') ≡ false = ground arith in rw other refl

-- A text that is no bare object is refused if, white space aside, it ends with a semicolon, and, this
-- and white space aside, with another one; no matter what stands before them.
pub object_payload-two_semicolons :
    (s front rest : Bytes)
    → bare_object (trim_space s) ≡ none
    → trim_space s ≡ front ++ codes ";"
    → trim_space front ≡ rest ++ codes ";"
    → object_payload s ≡ none
unfolding object_payload without_semicolon call_of
object_payload-two_semicolons s front rest bare shape again =
    not_bare (trim_space s) bare
    ∙ rw (shape, cut_last-append front b';', again, cut_last-append rest b';') refl
