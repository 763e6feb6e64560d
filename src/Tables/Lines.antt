-- ===== src/Tables/Lines.antt =====
-- src/route.cc, `load`: a row of the table as the kernel prints it.
use ndppd.Base.{
  append_assoc, drop_front, length-append, ℕ, ◌+◌, ◌*◌, ◌≤◌, ◌<◌, ◌≡◌, refl, ◌∙◌, ap, sym, Bool,
  true, not, ◌&&◌, List, [], ◌∷◌, ◌++◌, none, some, ◌==◌, length, drop, arith, Bytes,
}
use ndppd.Base.Int.{pos}
use ndppd.Address.{reset, set_prefix}
use ndppd.Address.Subnet.{AllBytes}
use ndppd.World.{Route}
use ndppd.Tables.{hexdec, token, route_of_line}
use ndppd.Tables.Digits.{print_hex, hexdec-print_hex, IsWord, all_spaces, token-padded}

-- A row of the kernel's table. `middle` is what stands between the prefix length and the name.
pub record Row : Type 0 where
  pub bytes : List ℕ
  pub pfx : ℕ
  pub middle : Bytes
  pub padding : ℕ
  pub ifname : Bytes

-- No newline in it.
abbrev pub one_line : Bytes → Bool
one_line [] = true
one_line (c ∷ s) = not (c == 10) && one_line s

pub record IsRow (r : Row) : Type 0 where
  pub sixteen : length r.bytes ≡ 16
  pub all_bytes : AllBytes r.bytes
  pub pfx_byte : r.pfx < 256
  pub columns : length r.middle ≡ 106
  pub middle_line : one_line r.middle ≡ true
  pub word : IsWord r.ifname
  pub width : 8 ≤ r.padding + length r.ifname
  -- The row fits into the buffer.
  pub fits : r.padding + length r.ifname < 883

-- The part of the row in front of the name.
abbrev pub front : Row → Bytes
front r = print_hex r.bytes ++ (32 ∷ (print_hex (r.pfx ∷ []) ++ r.middle))

abbrev pub print_row : Row → Bytes
print_row r = front r ++ (all_spaces r.padding ++ r.ifname)

abbrev pub print_rows : List Row → Bytes
print_rows [] = []
print_rows (r ∷ rs) = print_row r ++ (10 ∷ print_rows rs)

abbrev pub row_route : Row → Route
row_route r = record {
  addr = set_prefix (pos r.pfx) (record reset { addr = r.bytes });
  ifname = r.ifname;
  ifa = none;
}

length-print_hex : (bs : List ℕ) → length (print_hex bs) ≡ 2 * length bs
length-print_hex [] = omega arith
length-print_hex (b ∷ bs) = omega (arith, length-print_hex bs)

pub length-front : (r : Row) → IsRow r → length (front r) ≡ 141
length-front r v = omega (
  arith,
  length-append (print_hex r.bytes) (32 ∷ (print_hex (r.pfx ∷ []) ++ r.middle)),
  length-print_hex r.bytes,
  v.sixteen,
  v.columns,
)

module _ (r : Row) (v : IsRow r) where
  abbrev behind : Bytes
  behind = all_spaces r.padding ++ r.ifname

  row_address : hexdec (print_row r) 16 ≡ r.bytes
  row_address =
      ap (hexdec (print_row r)) (sym v.sixteen)
      ∙ (ap (λ s. hexdec s (length r.bytes))
            (append_assoc (print_hex r.bytes) (32 ∷ (print_hex (r.pfx ∷ []) ++ r.middle)) behind)
          ∙ hexdec-print_hex r.bytes (32 ∷ ((print_hex (r.pfx ∷ []) ++ r.middle) ++ behind))
              v.all_bytes)

  row_prefix : hexdec (drop 33 (print_row r)) 1 ≡ r.pfx ∷ []
  row_prefix =
      ap (λ s. hexdec s 1)
        (ap (drop 33) apart ∙ drop_front 33 (print_hex r.bytes ++ 32 ∷ []) _ columns)
      ∙ hexdec-print_hex (r.pfx ∷ []) (r.middle ++ behind) (v.pfx_byte, tt)
    where
      columns : length (print_hex r.bytes ++ 32 ∷ []) ≡ 33
      columns =
          omega (
            arith,
            length-append (print_hex r.bytes) (32 ∷ []),
            length-print_hex r.bytes,
            v.sixteen,
          )

      apart :
          print_row r
          ≡ (print_hex r.bytes ++ 32 ∷ []) ++ (print_hex (r.pfx ∷ []) ++ (r.middle ++ behind))
      apart =
          append_assoc (print_hex r.bytes) (32 ∷ (print_hex (r.pfx ∷ []) ++ r.middle)) behind
          ∙ sym (
              append_assoc (print_hex r.bytes) (32 ∷ [])
                (print_hex (r.pfx ∷ []) ++ (r.middle ++ behind)))

  row_name : token (drop 141 (print_row r)) ≡ r.ifname
  row_name =
      ap token (drop_front 141 (front r) behind (length-front r v))
      ∙ token-padded r.padding r.ifname v.word

  -- One row.
  pub route_of_line-print_row : route_of_line (print_row r) ≡ some (row_route r)
  unfolding route_of_line
  route_of_line-print_row = rw (row_address, v.sixteen, row_prefix, row_name, row_address) refl
