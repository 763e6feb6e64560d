-- ===== src/Address/Parse/RoundTrip.antt =====
-- src/address.cc: `parse_string` of what `to_string` gives.
use ndppd.Base.{
  append_nil, ℕ, suc, ◌+◌, ◌-◌, ◌≤◌, ◌<◌, ◌≡◌, refl, ap, ◌∙◌, sym, Bool, true, false, not, ◌&&◌,
  ◌||◌, List, [], ◌∷◌, ◌++◌, some, ◌==◌, ltb, leb, length, length-append, arith, Bytes, Bool-cases,
  inl, inr,
}
use ndppd.Base.Int.{pos}
use ndppd.Address.{Address, of_in6, prefix, prefix_mask, set_prefix}
use ndppd.Tables.{is_between, is_xdigit, is_space, skip_space}
use ndppd.Address.Parse.{Pton, Ntop, copy_address, parse_prefix, parse_string, decimal, to_string}
use ndppd.Address.Parse.Decimal.{decimal_lem}

-- Colons and hexadecimal digits: the form of an address without a dotted part.
abbrev pub IsHexText : Bytes → Type 0
IsHexText [] = Unit {0}
IsHexText (c ∷ text) = (((c == 58) || is_xdigit c) ≡ true) × IsHexText text

abbrev is_address_char : ℕ → Bool
is_address_char c = (c == 58) || is_xdigit c

not_space : (c : ℕ) → is_address_char c ≡ true → (is_space c ≡ false) × ((c == 47) ≡ false)
unfolding is_space is_xdigit is_between
not_space c h = (ground arith, ground arith)

-- The tests of the loop, on a byte of an address.
copy_address-char :
    (sz c : ℕ) (p buf q : Bytes)
    → is_address_char c ≡ true
    → sz < 45
    → copy_address (suc sz) p ≡ some (buf, q)
    → copy_address sz (c ∷ p) ≡ some (c ∷ buf, q)
unfolding copy_address
copy_address-char sz c p buf q h lt rest =
    let (word, slash) = not_space c h in
    let room : leb (46 - 1) sz ≡ false = ground arith in
    let plain : (not (c == 58) && not (is_xdigit c)) ≡ false = ground arith in
    rw (slash, word, plain, room, rest) refl

-- What follows an address: nothing, or a prefix length.
abbrev Stops : Bytes → Type 0
Stops tail = ((sz : ℕ) → copy_address sz tail ≡ some ([], tail)) × (skip_space tail ≡ tail)

copy_address-append :
    (sz : ℕ) (text tail : Bytes)
    → IsHexText text
    → sz + length text ≤ 45
    → Stops tail
    → copy_address sz (text ++ tail) ≡ some (text, tail)
copy_address-append sz [] tail h le stops = stops.0 sz
copy_address-append sz (c ∷ text) tail h le stops =
    copy_address-char sz c (text ++ tail) text tail h.0 (omega arith)
      (copy_address-append (suc sz) text tail h.1 (omega arith) stops)

skip_word : (c : ℕ) (p : Bytes) → is_space c ≡ false → skip_space (c ∷ p) ≡ c ∷ p
unfolding skip_space
skip_word c p word = rw word refl

skip_space-append :
    (text tail : Bytes) → IsHexText text → Stops tail → skip_space (text ++ tail) ≡ text ++ tail
skip_space-append [] tail h stops = stops.1
skip_space-append (c ∷ text) tail h stops = skip_word c (text ++ tail) (not_space c h.0).0

Stops-nil : Stops []
unfolding copy_address skip_space
Stops-nil = ((λ sz. refl), refl)

Stops-slash : (p : Bytes) → Stops (47 ∷ p)
unfolding copy_address skip_space is_space is_between
Stops-slash p = ((λ sz. refl), refl)

parse_prefix-slash :
    (addr : List ℕ) (n : ℕ)
    → n < 128
    → parse_prefix addr (47 ∷ decimal n) ≡ (true, set_prefix (pos n) (of_in6 addr))
unfolding parse_prefix
parse_prefix-slash addr n lt =
    let (copied, value, fits) = decimal_lem n lt in rw (copied, value) refl

-- A prefix length of 128 or more selects every bit.
set_prefix-full :
    (n : ℕ) (addr : List ℕ) → ltb n 128 ≡ false → set_prefix (pos n) (of_in6 addr) ≡ of_in6 addr
unfolding set_prefix prefix_mask of_in6
set_prefix-full n addr h = let all : leb 128 n ≡ true = ground arith in rw all refl

module _ (pton : Pton) (addr : List ℕ) (text : Bytes) (reads : pton text ≡ some addr)
    (hex : IsHexText text) (short : length text ≤ 45) where
  parse_string-append :
      (tail : Bytes) → Stops tail → parse_string pton (text ++ tail) ≡ parse_prefix addr tail
  unfolding parse_string
  parse_string-append tail stops =
      let copied = copy_address-append 0 text tail hex (omega arith) stops in
      rw (skip_space-append text tail hex stops, parse_string)
        (rw (copied, parse_string) (rw (reads, parse_string) (rw stops.1 refl)))

  parse_string-prefix :
      (n : ℕ)
      → n < 128
      → parse_string pton (text ++ (47 ∷ decimal n)) ≡ (true, set_prefix (pos n) (of_in6 addr))
  parse_string-prefix n lt =
      parse_string-append (47 ∷ decimal n) (Stops-slash (decimal n)) ∙ parse_prefix-slash addr n lt

  parse_string-none : parse_string pton text ≡ (true, of_in6 addr)
  unfolding parse_prefix
  parse_string-none =
      ap (parse_string pton) (sym (append_nil text)) ∙ parse_string-append [] Stops-nil

to_string-small :
    (ntop : Ntop) (a : Address) (text : Bytes)
    → ntop a.addr ≡ some text
    → ltb (prefix a) 128 ≡ true
    → to_string ntop a ≡ text ++ (47 ∷ decimal (prefix a))
unfolding to_string
to_string-small ntop a text prints small = rw (prints, to_string) (rw small refl)

to_string-full :
    (ntop : Ntop) (a : Address) (text : Bytes)
    → ntop a.addr ≡ some text
    → ltb (prefix a) 128 ≡ false
    → to_string ntop a ≡ text
unfolding to_string
to_string-full ntop a text prints full = rw (prints, to_string) (rw full refl)

module _ (pton : Pton) (ntop : Ntop) (a : Address) (text : Bytes) (prints : ntop a.addr ≡ some text)
    (reads : pton text ≡ some a.addr) (hex : IsHexText text) (short : length text ≤ 45) where
  -- `parse_string` reads back the text that `to_string` gives: the same bytes, with a mask
  -- that has as many leading ones as that of the address, and the text has room in the buffer
  -- of `to_string`. This is under the hypotheses that `inet_ntop` gives a text of at most 45
  -- bytes that are colons and hexadecimal digits, and that `inet_pton` reads it back.
  pub parse_string-to_string :
      (parse_string pton (to_string ntop a) ≡ (true, set_prefix (pos (prefix a)) (of_in6 a.addr)))
      × (length (to_string ntop a) < 46 + 8)
  parse_string-to_string = elim (Bool-cases (ltb (prefix a) 128)) [
    | inl small ↦
        let lt : prefix a < 128 = ground arith in
        let shown = to_string-small ntop a text prints small in
        (
          ap (parse_string pton) shown
              ∙ parse_string-prefix pton a.addr text reads hex short (prefix a) lt,
          rw shown (
              omega (
                arith,
                length-append text (47 ∷ decimal (prefix a)),
                (decimal_lem (prefix a) lt).2,
              )),
        )
    | inr full ↦
        let shown = to_string-full ntop a text prints full in
        (
          ap (parse_string pton) shown
              ∙ parse_string-none pton a.addr text reads hex short
              ∙ ap (λ b. (true, b)) (sym (set_prefix-full (prefix a) a.addr full)),
          rw shown (omega arith),
        )
  ]
