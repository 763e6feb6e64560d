-- ===== src/Conf.antt =====
-- src/conf.cc: the configuration parser. A text is the bytes in front of the NUL that ends it, so the
-- byte read at the end of a text is NUL. `parse` and `parse_block` take fuel, a bound on the number of
-- calls and rounds.
pub mod Shorter
pub mod Skip
pub mod Ends
pub mod Rounds
pub mod Total
pub mod Stuck
pub mod Quotes
pub mod Order
pub mod Load
use ndppd.Base.{
  ℕ, zero, suc, Bool, true, false, not, ◌&&◌, ◌||◌, List, [], ◌∷◌, ◌++◌, Option, none, some, ◌==◌,
  leb, ltb, if◌then◌else◌, length, drop, Bytes, equal_text,
}
use ndppd.Tables.{is_space, is_between}

-- `class conf`: a value and, if it is a block, the multimap of its entries, in the order of the map.
mutual
  pub data Conf : Type 0 where
    conf : Bytes → Bool → Entries → Conf

  pub data Entries : Type 0 where
    end : Entries
    entry : Bytes → Conf → Entries → Entries

-- The spaces that the first inner loop of `skip` passes over.
unfoldable pub is_blank : Bool → ℕ → Bool
is_blank newlines c = is_space c && (not (c == 10) || newlines)

unfoldable pub skip_blanks : Bool → Bytes → Bytes
skip_blanks newlines [] = []
skip_blanks newlines (c ∷ str) =
    let rest = skip_blanks newlines str in if is_blank newlines c then rest else c ∷ str

-- To the end of the line.
unfoldable pub skip_line : Bytes → Bytes
skip_line [] = []
skip_line (c ∷ str) = let rest = skip_line str in if c == 10 then c ∷ str else rest

-- Past the end of the comment.
unfoldable pub skip_comment : Bytes → Bytes
skip_comment [] = []
skip_comment (a ∷ []) = []
skip_comment (a ∷ b ∷ str) =
    let rest = skip_comment (b ∷ str) in if (a == 42) && (b == 47) then str else rest

-- Whether a comment starts here: to the end of the line, or up to its own end.
pub data Comment : Type 0 where
  no_comment to_line_end to_comment_end : Comment

unfoldable pub comment_at : Bytes → Comment
comment_at [] = no_comment
comment_at (a ∷ []) = if a == 35 then to_line_end else no_comment
comment_at (a ∷ b ∷ str) =
    if (a == 35) || ((a == 47) && (b == 47))
    then to_line_end
    else if (a == 47) && (b == 42)
    then to_comment_end
    else no_comment

-- The outer loop of `skip`, for a number of rounds: `none` where they run out.
unfoldable pub skip_on : ℕ → Bool → Bytes → Option Bytes
skip_on zero newlines str = none
skip_on (suc rounds) newlines str =
    let s = skip_blanks newlines str in
    elim (comment_at s) [
      | no_comment ↦ some s
      | to_line_end ↦ skip_on rounds newlines (skip_line s)
      | to_comment_end ↦ skip_on rounds newlines (skip_comment s)
    ]

-- `conf::skip(str, newlines)`: every round but the last passes over a comment, so that there are no
-- more rounds than bytes but one.
unfoldable pub skip : Bool → Bytes → Bytes
skip newlines str = elim (skip_on (suc (length str)) newlines str) [ none ↦ [] | some rest ↦ rest ]

unfoldable pub is_alnum : ℕ → Bool
is_alnum c = is_between 48 57 c || is_between 65 90 c || is_between 97 122 c

unfoldable pub is_name : ℕ → Bool
is_name c = is_alnum c || (c == 95) || (c == 45)

-- `isgraph`, and neither brace.
unfoldable pub is_plain : ℕ → Bool
is_plain c = is_between 33 126 c && not (c == 123) && not (c == 125)

-- The bytes in front of the first that fails the test, and the rest.
unfoldable pub take_while : (ℕ → Bool) → Bytes → Bytes × Bytes
take_while test [] = ([], [])
take_while test (c ∷ str) =
    let (taken, rest) = take_while test str in if test c then (c ∷ taken, rest) else ([], c ∷ str)

unfoldable pub is_quoted : ℕ → ℕ → Bool
is_quoted quote c = not (c == quote) && not (c == 10)

-- The value of an entry, and the rest. The quote that ends a value is left where it is.
unfoldable pub read_value : Bytes → Bytes × Bytes
read_value [] = ([], [])
read_value (c ∷ str) =
    if (c == 39) || (c == 34)
    then (let (value, rest) = take_while (is_quoted c) str in (value, skip false rest))
    else take_while is_plain (c ∷ str)

-- The text behind this byte, where it comes next.
unfoldable pub after : ℕ → Bytes → Option Bytes
after b [] = none
after b (c ∷ str) = if c == b then some str else none

unfoldable pub skip_equals : Bytes → Bytes
skip_equals p = elim (after 61 p) [ none ↦ p | some p' ↦ skip false p' ]

-- `operator<` of two strings.
unfoldable pub before : Bytes → Bytes → Bool
before a [] = false
before [] (y ∷ b) = true
before (x ∷ a) (y ∷ b) = ltb x y || ((x == y) && before a b)

-- `_map.insert(...)`: behind every entry whose key is not greater.
unfoldable pub insert : Bytes → Conf → Entries → Entries
insert key cf end = entry key cf end
insert key cf (entry k c es) =
    if before key k then entry key cf (entry k c es) else entry k c (insert key cf es)

pub data Outcome (A : Type 0) : Type 0 where
  parsed : A → Bytes → Outcome A
  refused : Outcome A
  out_of_fuel : Outcome A

abbrev pub and_then : {A B : Type 0} → Outcome A → (A → Bytes → Outcome B) → Outcome B
and_then (parsed a rest) f = f a rest
and_then refused f = refused
and_then out_of_fuel f = out_of_fuel

-- `(*p == '}') || !*p`
unfoldable pub at_end : Bytes → Bool
at_end [] = true
at_end (c ∷ str) = c == 125

-- The end of `parse`, behind a block.
unfoldable pub close : Bytes → Entries → Bytes → Outcome Conf
close value es rest = elim (after 125 rest) [
  | none ↦ refused
  | some rest' ↦ parsed (conf value true es) rest'
]

unfoldable mutual
  -- `conf::parse_block(str)`, into the entries that are there.
  pub parse_block : ℕ → Entries → Bytes → Outcome Entries
  parse_block zero es str = out_of_fuel
  parse_block (suc fuel) es [] = parsed es []
  parse_block (suc fuel) es (c ∷ str) =
      let p = skip true (c ∷ str) in
      elim (at_end p) [
        | true ↦ parsed es p
        | false ↦
            (let (name, p') = take_while is_name p in
              and_then (parse fuel (skip_equals (skip false p')))
                (λ cf rest. parse_block fuel (insert name cf es) rest))
      ]

  -- `conf::parse(str)`
  pub parse : ℕ → Bytes → Outcome Conf
  parse zero str = out_of_fuel
  parse (suc fuel) str =
      let (value, p) = read_value (skip false str) in
      let p' = skip false p in
      elim (after 123 p') [
        | none ↦ parsed (conf value false end) p'
        | some inside ↦ and_then (parse_block fuel end inside) (close value)
      ]

-- `conf::load(path)` on the text of the file.
unfoldable pub load : ℕ → Bytes → Outcome Conf
load fuel text = and_then (parse_block fuel end text) (λ es rest. parsed (conf [] true es) rest)

-- `find_all(name)`
unfoldable pub find_all : Bytes → Entries → List Conf
find_all name end = []
find_all name (entry k c es) =
    let rest = find_all name es in if equal_text k name then c ∷ rest else rest

-- `find(name, 0)`, which is `find(name)`.
unfoldable pub find : Bytes → Entries → Option Conf
find name end = none
find name (entry k c es) = let rest = find name es in if equal_text k name then some c else rest
