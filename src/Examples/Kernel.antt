-- ===== src/Examples/Kernel.antt =====
-- src/route.cc at a concrete table.
use ndppd.Base.{◌≡◌, refl, [], ◌∷◌, ◌++◌, map, some, replicate, arith, codes}
use ndppd.Tables.{hexdec, load_routes, is_space, is_between}
use ndppd.Tables.Digits.{print_hex, hexdec-print_hex}
use ndppd.Tables.Lines.{Row, IsRow, print_rows, row_route}
use ndppd.Tables.Files.{load_routes-print_rows}

hexdec-print_hex_example :
    hexdec (print_hex (32 ∷ 1 ∷ 255 ∷ []) ++ codes " 40") 3 ≡ 32 ∷ 1 ∷ 255 ∷ []
hexdec-print_hex_example =
    hexdec-print_hex (32 ∷ 1 ∷ 255 ∷ []) (codes " 40")
      (omega arith, (omega arith, (omega arith, tt)))

-- 2001:db8::/64 dev eth0
abbrev row : Row
row = record {
  bytes = 32 ∷ 1 ∷ 13 ∷ 184 ∷ replicate 12 0;
  pfx = 64;
  middle = replicate 106 48;
  padding = 4;
  ifname = codes "eth0";
}

row-IsRow : IsRow row
unfolding is_space is_between
row-IsRow = record {
  sixteen = refl;
  all_bytes = ground arith;
  pfx_byte = omega arith;
  columns = refl;
  middle_line = refl;
  word = ground arith;
  width = omega arith;
  fits = omega arith;
}

load_routes-print_rows_example :
    load_routes (some (print_rows (row ∷ row ∷ []))) ≡ map row_route (row ∷ row ∷ [])
load_routes-print_rows_example =
    load_routes-print_rows (row ∷ row ∷ []) (row-IsRow, (row-IsRow, tt))
