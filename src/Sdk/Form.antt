-- ===== src/Sdk/Form.antt =====
-- auth.go: the values of the CAS form, the scripts that may hold its key, and the addresses that
-- are derived from the login page's.
use ipgw_meta.Prelude.{
  ℕ, ◌+◌, Bool, true, false, ◌&&◌, ◌||◌, Option, none, some, List, [], ◌∷◌, ◌++◌, ltb, leb,
  if◌then◌else◌,
}
use ipgw_meta.Text.{Bytes, codes, bytes_eq, has_prefix, contains_byte, to_lower}
use ipgw_meta.Sdk.Url.{Url, query_values, same_https_origin}
use ipgw_meta.Sdk.Http.{Client}
use ipgw_meta.Sdk.Discovery.{path_unescape}

-- `singleFormValue`
unfoldable pub single_form_value : Bytes → List (Bytes × Bytes) → Option Bytes
single_form_value key values = elim (query_values key values) [
  | [] ↦ none
  | v ∷ more ↦ elim more [ [] ↦ if bytes_eq v [] then none else some v | _ ∷ _ ↦ none ]
]

abbrev pub max_script_candidates : ℕ
max_script_candidates = 8

contains_text : Bytes → Bytes → Bool
contains_text [] part = has_prefix [] part
contains_text (c ∷ s) part = has_prefix (c ∷ s) part || contains_text s part

-- `URL.Path`, of an escaped path; one that was parsed can be decoded.
decoded : Bytes → Bytes
decoded path = elim (path_unescape path) [ none ↦ path | some plain ↦ plain ]

unfoldable pub is_script : Client → Url → Bool
unfolding contains_text decoded
is_script c u =
    same_https_origin u c.cas_login
    && (contains_text (to_lower (decoded u.path)) (codes "login")
        || contains_text (to_lower (decoded u.path)) (codes "rsa"))

-- The scripts that may hold the public key.
unfoldable pub script_candidates : Client → List Url → List Url
script_candidates c [] = []
script_candidates c (u ∷ us) =
    let rest = script_candidates c us in if is_script c u then u ∷ rest else rest

-- UTF-16 code units of a text in UTF-8: one for each character, two for those of four bytes.
unfoldable pub utf16_length : Bytes → ℕ
utf16_length [] = 0
utf16_length (c ∷ s) =
    (if leb 0x80 c && ltb c 0xc0 then 0 else if leb 0xf0 c then 2 else 1) + utf16_length s

-- The text up to its last slash, which is kept.
unfoldable pub directory : Bytes → Bytes
unfolding contains_byte
directory [] = []
directory (c ∷ s) = let rest = directory s in if contains_byte b'/' (c ∷ s) then c ∷ rest else []

-- `casLogin.ResolveReference(&url.URL{Path: name})`
unfoldable pub sibling_url : Bytes → Url → Url
unfolding directory
sibling_url name base = record base {
  path = directory base.path ++ name;
  query = [];
  query_ok = true;
  raw_query = false;
  fragment = [];
}
