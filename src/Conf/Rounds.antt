-- ===== src/Conf/Rounds.antt =====
-- src/conf.cc: one round of `parse_block` and of `parse`.
use ndppd.Base.{
  ℕ, suc, ◌≡◌, refl, ◌∙◌, ap, inr, true, false, [], ◌∷◌, none, some, ◌==◌, arith, Bytes,
}
use ndppd.Tables.{is_between}
use ndppd.Conf.{
  Entries, end, conf, is_blank, skip, is_name, is_plain, take_while, read_value, after, skip_equals,
  insert, parsed, and_then, at_end, close, parse_block, parse,
}
use ndppd.Conf.Skip.{is_printable, Within, IsSkipped, skip-IsSkipped}
use ndppd.Conf.Ends.{skip-Within, read_value-shorter, read_value-Within}

-- The value in front, and the text behind it.
abbrev pub front_value : Bytes → Bytes
front_value str = (read_value (skip false str)).0

abbrev pub behind_value : Bytes → Bytes
behind_value str = skip false (read_value (skip false str)).1

pub parse-plain :
    (fuel : ℕ) (str : Bytes)
    → after 123 (behind_value str) ≡ none
    → parse (suc fuel) str ≡ parsed (conf (front_value str) false end) (behind_value str)
unfolding parse
parse-plain fuel str e = rw (parse, e) refl

pub parse-braces :
    (fuel : ℕ) (str inside : Bytes)
    → after 123 (behind_value str) ≡ some inside
    → parse (suc fuel) str ≡ and_then (parse_block fuel end inside) (close (front_value str))
unfolding parse
parse-braces fuel str inside e = rw (parse, e) refl

abbrev pub entry_text : Bytes → Bytes
entry_text p = skip_equals (skip false (take_while is_name p).1)

pub parse_block-end :
    (fuel c : ℕ) (es : Entries) (str : Bytes)
    → at_end (skip true (c ∷ str)) ≡ true
    → parse_block (suc fuel) es (c ∷ str) ≡ parsed es (skip true (c ∷ str))
unfolding parse_block
parse_block-end fuel c es str e = rw (parse_block, e) refl

pub parse_block-entry :
    (fuel c : ℕ) (es : Entries) (str : Bytes)
    → at_end (skip true (c ∷ str)) ≡ false
    → parse_block (suc fuel) es (c ∷ str)
      ≡ and_then (parse fuel (entry_text (skip true (c ∷ str)))) (λ cf rest.
        parse_block fuel (insert (take_while is_name (skip true (c ∷ str))).0 cf es) rest)
unfolding parse_block
parse_block-entry fuel c es str e = rw (parse_block, e) refl

-- Where an entry can start.
abbrev pub IsStart : Bytes → Type 0
IsStart p = IsSkipped true p × (at_end p ≡ false)

pub not_blank : (p : Bytes) → IsSkipped true p → IsSkipped false p
unfolding is_blank
not_blank [] h = (h.0, refl)
not_blank (c ∷ p) h = (h.0, ground arith)

pub behind_value-Within : (n : ℕ) (str : Bytes) → Within n str → Within n (behind_value str)
behind_value-Within n str h =
    skip-Within false n _ (read_value-Within n _ (skip-Within false n str h))

-- An entry that starts with something else than a brace loses its first byte.
pub behind_value-shorter :
    (n c : ℕ) (str : Bytes)
    → IsStart (c ∷ str)
    → (c == 123) ≡ false
    → Within (suc n) (c ∷ str)
    → Within n (behind_value (c ∷ str))
unfolding is_plain is_blank at_end
behind_value-shorter n c str (skipped, more) other h =
    rw (skip-IsSkipped false (c ∷ str) (not_blank (c ∷ str) skipped)) (
      let printable : is_printable c ≡ true = h.0 in
      let full : is_blank true c ≡ false = skipped.1 in
      skip-Within false n _ (read_value-shorter n c str (inr (ground arith)) h.1))

pub read_value-brace : (str : Bytes) → read_value (123 ∷ str) ≡ ([], 123 ∷ str)
unfolding read_value take_while is_plain is_between
read_value-brace str = refl

-- The block that starts an entry.
pub behind_value-brace :
    (str : Bytes) → IsStart (123 ∷ str) → after 123 (behind_value (123 ∷ str)) ≡ some str
unfolding after
behind_value-brace str (skipped, more) =
    let same = skip-IsSkipped false (123 ∷ str) (not_blank (123 ∷ str) skipped) in
    ap (λ s. after 123 (skip false (read_value s).1)) same
    ∙ (ap (λ (r : Bytes × Bytes). after 123 (skip false r.1)) (read_value-brace str)
        ∙ ap (after 123) same)
