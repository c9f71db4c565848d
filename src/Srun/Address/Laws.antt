-- ===== src/Srun/Address/Laws.antt =====
-- What an address that is read is made of.
use ipgw_meta.Prelude.{arith, ℕ, ◌≤◌, ◌≡◌, Option, none, some, [], ◌∷◌}
use ipgw_meta.Text.{Bytes, cut}
use ipgw_meta.Srun.Address.{Addr, octet, octet_before, next_octet, parse_ipv4}

abbrev pub IsAddr : Addr → Type 0
IsAddr x = (x.a ≤ 255) × (x.b ≤ 255) × (x.c ≤ 255) × (x.d ≤ 255)

octet-le : (s : Bytes) (n : ℕ) → octet s ≡ some n → n ≤ 255
unfolding octet
octet-le [] n h = absurd (cc)
octet-le (x ∷ s) n h = ground arith

octet_before-le :
    (o : Option (Bytes × Bytes)) (n : ℕ) (rest : Bytes) → octet_before o ≡ some (n, rest) → n ≤ 255
unfolding octet_before
octet_before-le none n rest h = absurd (cc)
octet_before-le (some (front, behind)) n rest h = grind (arith, octet-le)

next_octet-le : (s : Bytes) (p : ℕ × Bytes) → next_octet s ≡ some p → p.0 ≤ 255
unfolding next_octet
next_octet-le s p h = octet_before-le (cut b'.' s) (p.0) (p.1) h

-- What is read as an address has four bytes.
pub parse_ipv4-IsAddr : (s : Bytes) (x : Addr) → parse_ipv4 s ≡ some x → IsAddr x
unfolding parse_ipv4
parse_ipv4-IsAddr s x h = grind (arith, next_octet-le, octet-le)
