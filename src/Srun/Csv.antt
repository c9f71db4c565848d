-- ===== src/Srun/Csv.antt =====
-- internal/srun/status.go: the one record that package encoding/csv reads from a single line.
use ipgw_meta.Prelude.{ℕ, Option, none, some, List, [], ◌∷◌, ◌++◌, ◌==◌, if◌then◌else◌}
use ipgw_meta.Text.{Bytes}

-- Where the reader is: at the front of a field, in a plain field, in a quoted field, or behind a
-- quote of a quoted field.
pub data Place : Type 0 where
  front plain quoted behind : Place

-- What one byte does: it ends the field, or leads to a place with the bytes of the field so far.
pub data Move : Type 0 where
  ends refuses : Move
  stays : Place → Bytes → Move

unfoldable pub csv_move : Place → Bytes → ℕ → Move
csv_move front sofar c =
    if c == b'"' then stays quoted [] else if c == b',' then ends else stays plain (c ∷ [])
csv_move plain sofar c =
    if c == b'"' then refuses else if c == b',' then ends else stays plain (sofar ++ c ∷ [])
csv_move quoted sofar c = if c == b'"' then stays behind sofar else stays quoted (sofar ++ c ∷ [])
csv_move behind sofar c =
    if c == b'"' then stays quoted (sofar ++ c ∷ []) else if c == b',' then ends else refuses

csv_end : Place → Bytes → Option (List Bytes)
csv_end front sofar = some ([] ∷ [])
csv_end plain sofar = some (sofar ∷ [])
csv_end quoted sofar = none
csv_end behind sofar = some (sofar ∷ [])

before : Bytes → Option (List Bytes) → Option (List Bytes)
before field none = none
before field (some row) = some (field ∷ row)

unfoldable pub csv_from : Place → Bytes → Bytes → Option (List Bytes)
unfolding csv_move csv_end before
csv_from place sofar [] = csv_end place sofar
csv_from place sofar (c ∷ s) = elim (csv_move place sofar c) [
  | ends ↦ before sofar (csv_from front [] s)
  | refuses ↦ none
  | stays place' sofar' ↦ csv_from place' sofar' s
]

-- `reader.ReadAll`, of a line that is not empty.
unfoldable pub csv_record : Bytes → Option (List Bytes)
unfolding csv_from
csv_record s = csv_from front [] s
