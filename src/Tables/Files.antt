-- ===== src/Tables/Files.antt =====
-- src/route.cc, `load`: the whole file.
use ndppd.Base.{
  length-append, ℕ, zero, suc, ◌≤◌, ◌≡◌, refl, true, false, ◌&&◌, List, [], ◌∷◌, ◌++◌, map, some,
  ◌==◌, ltb, length, arith, Bytes,
}
use ndppd.Tables.{
  is_space, is_between, with_byte, get_lines, route_of_line, load_lines, load_table, load_routes,
}
use ndppd.Tables.Digits.{print_hex, IsWord, all_spaces}
use ndppd.Tables.Lines.{
  Row, IsRow, one_line, print_row, print_rows, row_route, front, length-front,
  route_of_line-print_row,
}

get_lines-line :
    (s rest : Bytes)
    → one_line s ≡ true
    → get_lines (s ++ (10 ∷ rest)) ≡ (s, suc (length s)) ∷ get_lines rest
unfolding get_lines with_byte
get_lines-line [] rest h = refl
get_lines-line (c ∷ s) rest h =
    let other : (c == 10) ≡ false = ground arith in
    rw (other, get_lines-line s rest (ground arith)) refl

one_line-append : (xs ys : Bytes) → one_line (xs ++ ys) ≡ (one_line xs && one_line ys)
one_line-append [] ys = refl
one_line-append (x ∷ xs) ys = ground (arith, one_line-append xs ys)

one_line-print_hex : (bs : List ℕ) → one_line (print_hex bs) ≡ true
one_line-print_hex [] = refl
one_line-print_hex (b ∷ bs) = ground (arith, one_line-print_hex bs)

one_line-all_spaces : (n : ℕ) → one_line (all_spaces n) ≡ true
one_line-all_spaces zero = refl
one_line-all_spaces (suc n) = one_line-all_spaces n

one_line-IsWord : (w : Bytes) → IsWord w → one_line w ≡ true
unfolding is_space is_between
one_line-IsWord [] h = refl
one_line-IsWord (c ∷ w) h = ground (arith, one_line-IsWord w h.2)

one_line-print_row : (r : Row) → IsRow r → one_line (print_row r) ≡ true
one_line-print_row r v = ground (
  arith,
  one_line-append (front r) (all_spaces r.padding ++ r.ifname),
  one_line-append (all_spaces r.padding) r.ifname,
  one_line-all_spaces r.padding,
  one_line-IsWord r.ifname v.word,
  one_line-append (print_hex r.bytes) (32 ∷ (print_hex (r.pfx ∷ []) ++ r.middle)),
  one_line-append (print_hex (r.pfx ∷ [])) r.middle,
  one_line-print_hex (r.pfx ∷ []),
  one_line-print_hex r.bytes,
  v.middle_line,
)

length-all_spaces : (n : ℕ) → length (all_spaces n) ≡ n
length-all_spaces zero = omega arith
length-all_spaces (suc n) = omega (arith, length-all_spaces n)

-- Long enough for the loop, with its newline.
length-print_row : (r : Row) → IsRow r → 149 ≤ length (print_row r)
length-print_row r v = omega (
  arith,
  length-append (front r) (all_spaces r.padding ++ r.ifname),
  length-front r v,
  length-append (all_spaces r.padding) r.ifname,
  length-all_spaces r.padding,
  v.width,
)

abbrev pub AreRows : List Row → Type 0
AreRows [] = Unit {0}
AreRows (r ∷ rs) = IsRow r × AreRows rs

load-print_rows :
    (rs : List Row)
    → AreRows rs
    → load_lines route_of_line 149 (get_lines (print_rows rs)) ≡ map row_route rs
unfolding load_lines get_lines
load-print_rows [] h = refl
load-print_rows (r ∷ rs) h =
    let long : ltb (suc (length (print_row r))) 149 ≡ false =
      ground (arith, length-print_row r h.0) in
    rw
      (
        get_lines-line (print_row r) (print_rows rs) (one_line-print_row r h.0),
        load_lines,
        long,
        route_of_line-print_row r h.0,
        load-print_rows rs h.1,
      )
      refl

-- Whatever rows the kernel lists, each in its columns and shorter than the buffer, `route::load`
-- reads exactly their routes, in their order.
pub load_routes-print_rows :
    (rs : List Row) → AreRows rs → load_routes (some (print_rows rs)) ≡ map row_route rs
unfolding load_routes load_table
load_routes-print_rows rs h = load-print_rows rs h
