-- ===== src/Srun/Address.antt =====
-- internal/srun/status.go: `parseOnlineIPv4Text`, with what it uses of package net/netip written
-- out for addresses of four bytes: any other address is refused.
pub mod Laws
use ipgw_meta.Prelude.{
  ℕ, ◌+◌, Bool, true, false, not, ◌&&◌, ◌||◌, Option, none, some, List, [], ◌∷◌, ◌++◌, leb, ltb,
  ◌==◌, length, if◌then◌else◌,
}
use ipgw_meta.Text.{Bytes, bytes_eq, cut, codes}
use ipgw_meta.Text.Decimal.{is_unsigned, value, itoa}

pub record Addr : Type 0 where
  pub a : ℕ
  pub b : ℕ
  pub c : ℕ
  pub d : ℕ

-- A byte in decimal digits, without a zero in front.
unfoldable pub octet : Bytes → Option ℕ
octet [] = none
octet (x ∷ s) =
    if is_unsigned (x ∷ s) && not ((x == b'0') && not (bytes_eq s [])) && leb (value 0 (x ∷ s)) 255
    then some (value 0 (x ∷ s))
    else none

-- The text before the first point as a byte, and the text behind it.
octet_before : Option (Bytes × Bytes) → Option (ℕ × Bytes)
octet_before none = none
octet_before (some (front, rest)) = elim (octet front) [ none ↦ none | some n ↦ some (n, rest) ]

unfoldable pub next_octet : Bytes → Option (ℕ × Bytes)
unfolding octet_before
next_octet s = octet_before (cut b'.' s)

-- `netip.ParseAddr` of a dotted address.
unfoldable pub parse_ipv4 : Bytes → Option Addr
parse_ipv4 s = elim (next_octet s) [
  | none ↦ none
  | some (p, rest) ↦ elim (next_octet rest) [
    | none ↦ none
    | some (q, rest') ↦ elim (next_octet rest') [
      | none ↦ none
      | some (r, last) ↦ elim (octet last) [
        | none ↦ none
        | some t ↦ some record { a = p; b = q; c = r; d = t }
      ]
    ]
  ]
]

-- Neither 0.0.0.0 nor the broadcast address, nor loopback, link-local or multicast.
unfoldable pub usable : Addr → Bool
usable x =
    not ((x.a == 0) && (x.b == 0) && (x.c == 0) && (x.d == 0))
    && not ((x.a == 255) && (x.b == 255) && (x.c == 255) && (x.d == 255))
    && not (x.a == 127)
    && not ((x.a == 169) && (x.b == 254))
    && not (leb 224 x.a && leb x.a 239)

-- `parseOnlineIPv4Text`
unfoldable pub parse_online_ipv4 : Bytes → Option Addr
parse_online_ipv4 s = elim (parse_ipv4 s) [
  | none ↦ none
  | some x ↦ if usable x then some x else none
]

-- `netip.Addr.String`
unfoldable pub show_addr : Addr → Bytes
show_addr x = itoa x.a ++ (b'.' ∷ (itoa x.b ++ (b'.' ∷ (itoa x.c ++ (b'.' ∷ itoa x.d)))))
